-- ===== src/Routes/Calls.antt =====
-- Any sequence of calls of the operations of src/nttd/state/route_registry.py.
use nttd.Prelude.{
  ℕ, refl, String, none, some, List, [], ◌∷◌, string_eq, nat_eq, arith, Option-cases, inl, inr,
}
use nttd.Prelude.Dict.{Dict, lookup}
use nttd.Routes.{RouteRegistry, Station, Vehicle, group_vehicles, tiles_to_stations, new}
use nttd.Routes.Registry.{
  Digest, ActionNews, connect_rail, build_rail_depot, buy_vehicle, other_action, make_route_id,
  reconcile, handle_vehicle_buy, handle_connect_rail, on_action_result, register_planned_route,
}
use nttd.Routes.Counts.{
  AllCounted, retire-AllCounted, insert-AllCounted, link_vehicle-AllCounted,
  handle_depot-AllCounted, connect_stations-AllCounted, update_routes-AllCounted,
}

register_planned_route-AllCounted :
    (digest : Digest) (company_id : ℕ) (vehicle_type : String) (sids : List ℕ) (game_date : ℕ)
    (r : RouteRegistry)
    → AllCounted r.routes
    → AllCounted (register_planned_route digest company_id vehicle_type sids game_date r).0.routes
unfolding register_planned_route
register_planned_route-AllCounted digest company_id vehicle_type sids game_date r k =
    elim (Option-cases (lookup (make_route_id digest company_id vehicle_type sids) r.routes)) [
      | inl absent ↦ rw (absent, register_planned_route) (insert-AllCounted _ _ r.routes refl k)
      | inr known ↦ rw (known.1, register_planned_route) k
    ]

on_action_result-AllCounted :
    (digest : Digest) (news : ActionNews) (stations : Dict ℕ Station) (game_date : ℕ)
    (r : RouteRegistry)
    → AllCounted r.routes
    → AllCounted (on_action_result digest news stations game_date r).routes
unfolding on_action_result handle_connect_rail handle_vehicle_buy
on_action_result-AllCounted digest (connect_rail source target path) stations game_date r k =
    connect_stations-AllCounted digest _ _ _ game_date r k
on_action_result-AllCounted digest (build_rail_depot tile) stations game_date r k =
    handle_depot-AllCounted tile stations r k
on_action_result-AllCounted digest (buy_vehicle none depot_tile) stations game_date r k = k
on_action_result-AllCounted digest (buy_vehicle (some vid) depot_tile) stations game_date r k =
    let linked = link_vehicle-AllCounted vid depot_tile r.routes k in ground (arith, linked, k)
on_action_result-AllCounted digest (other_action action_type) stations game_date r k = k

-- One call of an operation that changes the registry.
pub data Call : Type 0 where
  reconcile_call : List Vehicle → Dict ℕ Station → ℕ → ℕ → Call
  action_call : ActionNews → Dict ℕ Station → ℕ → Call
  plan_call : ℕ → String → List ℕ → ℕ → Call

abbrev pub apply : Digest → Call → RouteRegistry → RouteRegistry
apply digest (reconcile_call vehicles stations game_date map_width) r =
    (reconcile digest vehicles stations game_date map_width r).0
apply digest (action_call news stations game_date) r =
    on_action_result digest news stations game_date r
apply digest (plan_call company_id vehicle_type sids game_date) r =
    (register_planned_route digest company_id vehicle_type sids game_date r).0

abbrev pub run : Digest → List Call → RouteRegistry → RouteRegistry
run digest [] r = r
run digest (call ∷ calls) r = run digest calls (apply digest call r)

run-AllCounted :
    (digest : Digest) (calls : List Call) (r : RouteRegistry)
    → AllCounted r.routes
    → AllCounted (run digest calls r).routes
unfolding reconcile
run-AllCounted digest [] r k = k
run-AllCounted digest (reconcile_call vehicles stations game_date map_width ∷ calls) r k =
    run-AllCounted digest calls _ (
      retire-AllCounted stations _ _ (
        update_routes-AllCounted digest game_date
          (group_vehicles (tiles_to_stations map_width stations []) vehicles []) r.routes [] k))
run-AllCounted digest (action_call news stations game_date ∷ calls) r k =
    run-AllCounted digest calls _ (on_action_result-AllCounted digest news stations game_date r k)
run-AllCounted digest (plan_call company_id vehicle_type sids game_date ∷ calls) r k =
    run-AllCounted digest calls _
      (register_planned_route-AllCounted digest company_id vehicle_type sids game_date r k)

-- After any calls on a new registry, each route counts exactly the vehicles that it lists.
pub run-new-AllCounted :
    (digest : Digest) (calls : List Call) → AllCounted (run digest calls new).routes
run-new-AllCounted digest calls = run-AllCounted digest calls new tt
