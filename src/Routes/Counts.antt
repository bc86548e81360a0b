-- ===== src/Routes/Counts.antt =====
-- What every operation of src/nttd/state/route_registry.py keeps true of the routes.
use nttd.Prelude.{
  ℕ, ◌≡◌, refl, sym, String, Bool, true, false, Option, none, some, List, [], ◌∷◌, ◌==◌, ◌&&◌,
  string_eq, nat_eq, All, arith, length, map, Bool-cases, Option-cases, inl, inr, if◌then◌else◌,
}
use nttd.Prelude.Dict.{Dict, lookup, insert}
use nttd.Routes.{Route, RouteRegistry, Station, Vehicle, Group, refresh, retire, is_status, planned}
use nttd.Routes.Registry.{
  Digest, link_vehicle, confirm_track, make_route_id, route_for, update_route, update_routes,
  set_depot, find_route_near_tile, handle_depot, joins, connect_stations, add_connected,
}

-- A route counts the vehicles that it lists.
abbrev pub IsCounted : Route → Type 0
IsCounted route = route.vehicle_count ≡ length route.vehicle_ids

abbrev pub AllCounted : Dict String Route → Type 0
AllCounted routes = All (λ entry. IsCounted entry.1) routes

pub insert-AllCounted :
    (rid : String) (route : Route) (routes : Dict String Route)
    → IsCounted route
    → AllCounted routes
    → AllCounted (insert rid route routes)
unfolding insert
insert-AllCounted rid route [] h k = (h, tt)
insert-AllCounted rid route ((r, old) ∷ routes) h k = elim (Bool-cases (r == rid)) [
  | inl here ↦ rw here (h, k.1)
  | inr later ↦ rw later (k.0, insert-AllCounted rid route routes h k.1)
]

if-AllCounted :
    (b : Bool) (x y : Dict String Route)
    → AllCounted x
    → AllCounted y
    → AllCounted (if b then x else y)
if-AllCounted true x y h k = h
if-AllCounted false x y h k = k

lookup-IsCounted :
    (rid : String) (route : Route) (routes : Dict String Route)
    → lookup rid routes ≡ some route
    → AllCounted routes
    → IsCounted route
unfolding lookup
lookup-IsCounted rid route [] e k = absurd (cc)
lookup-IsCounted rid route ((r, old) ∷ routes) e k = elim (Bool-cases (r == rid)) [
  | inl here ↦
      let same : old ≡ route = ground (arith, here, e) in
      let old_counts = k.0 in rw (sym same) old_counts
  | inr later ↦ lookup-IsCounted rid route routes (ground arith) k.1
]

length-map_id : (vs : List Vehicle) → length vs ≡ length (map (λ v. v.id) vs)
length-map_id [] = refl
length-map_id (v ∷ vs) = omega (arith, length-map_id vs)

refresh-IsCounted :
    (game_date : ℕ) (vs : List Vehicle) (route : Route) → IsCounted (refresh game_date vs route)
unfolding refresh
refresh-IsCounted game_date vs route = length-map_id vs

pub retire-AllCounted :
    (stations : Dict ℕ Station) (ids : List String) (routes : Dict String Route)
    → AllCounted routes
    → AllCounted (retire stations ids routes)
unfolding retire
retire-AllCounted stations ids [] k = tt
retire-AllCounted stations ids ((rid, route) ∷ routes) k =
    let first = k.0 in
    let rest = retire-AllCounted stations ids routes k.1 in ground (arith, first, rest)

pub link_vehicle-AllCounted :
    (vid depot_tile : ℕ) (routes : Dict String Route)
    → AllCounted routes
    → AllCounted (link_vehicle vid depot_tile routes)
unfolding link_vehicle
link_vehicle-AllCounted vid depot_tile [] k = tt
link_vehicle-AllCounted vid depot_tile ((rid, route) ∷ routes) k =
    let first = k.0 in
    let later = k.1 in
    let rest = link_vehicle-AllCounted vid depot_tile routes k.1 in
    ground (arith, first, later, rest)

pub update_routes-AllCounted :
    (digest : Digest) (game_date : ℕ) (groups : List Group) (routes : Dict String Route)
    (ids : List String)
    → AllCounted routes
    → AllCounted (update_routes digest game_date groups routes ids).0
unfolding update_routes update_route
update_routes-AllCounted digest game_date [] routes ids k = k
update_routes-AllCounted digest game_date (g ∷ groups) routes ids k =
    update_routes-AllCounted digest game_date groups _ _ (
      insert-AllCounted _ _ routes
        (refresh-IsCounted game_date g.members (
          route_for digest (make_route_id digest g.company_id g.vehicle_type g.station_ids)
            game_date g routes))
        k)

OnSome : Option (Dict String Route) → Type 0
OnSome none = Unit
OnSome (some routes) = AllCounted routes

OnSome-cons :
    (rid : String) (route : Route) (found : Option (Dict String Route))
    → IsCounted route
    → OnSome found
    → OnSome (elim found [ none ↦ none | some later ↦ some ((rid, route) ∷ later) ])
unfolding OnSome
OnSome-cons rid route none h k = tt
OnSome-cons rid route (some later) h k = (h, k)

confirm_track-OnSome :
    (a b game_date : ℕ) (path : List ℕ) (routes : Dict String Route)
    → AllCounted routes
    → OnSome (confirm_track a b game_date path routes)
unfolding confirm_track OnSome
confirm_track-OnSome a b game_date path [] k = tt
confirm_track-OnSome a b game_date path ((rid, route) ∷ routes) k =
    let later = OnSome-cons rid route _ k.0 (confirm_track-OnSome a b game_date path routes k.1) in
    elim (Bool-cases (is_status route.status planned && joins a b route.station_ids)) [
      | inl here ↦ rw here k
      | inr passed ↦ rw passed later
    ]

set_depot-AllCounted :
    (tile : ℕ) (rid : String) (r : RouteRegistry)
    → AllCounted r.routes
    → AllCounted (set_depot tile (some rid) r).routes
unfolding set_depot
set_depot-AllCounted tile rid r k = elim (Option-cases (lookup rid r.routes)) [
  | inl absent ↦ rw (absent, set_depot) k
  | inr present ↦
      let (route, found) = present in
      let counted = lookup-IsCounted rid route r.routes found k in
      let written = insert-AllCounted rid (record route { depot_tile = tile }) r.routes counted k in
      rw (found, set_depot) (ground (arith, k, written))
]

pub handle_depot-AllCounted :
    (tile : ℕ) (stations : Dict ℕ Station) (r : RouteRegistry)
    → AllCounted r.routes
    → AllCounted (handle_depot tile stations r).routes
unfolding handle_depot
handle_depot-AllCounted tile stations r k =
    elim (Option-cases (find_route_near_tile tile stations r)) [
      | inl nowhere ↦ rw nowhere (ground (arith, k))
      | inr near ↦
          let (rid, found) = near in
          let written = set_depot-AllCounted tile rid r k in rw found (ground (arith, k, written))
    ]

add_connected-AllCounted :
    (digest : Digest) (sids path : List ℕ) (game_date : ℕ) (r : RouteRegistry)
    → AllCounted r.routes
    → AllCounted (add_connected digest sids path game_date r).routes
unfolding add_connected
add_connected-AllCounted digest sids path game_date r k =
    elim (Option-cases (lookup (make_route_id digest 0 "train" sids) r.routes)) [
      | inl absent ↦ rw (absent, add_connected) (insert-AllCounted _ _ r.routes refl k)
      | inr known ↦ rw (known.1, add_connected) k
    ]

pub connect_stations-AllCounted :
    (digest : Digest) (src_sid dst_sid : Option ℕ) (path : List ℕ) (game_date : ℕ)
    (r : RouteRegistry)
    → AllCounted r.routes
    → AllCounted (connect_stations digest src_sid dst_sid path game_date r).routes
unfolding connect_stations OnSome
connect_stations-AllCounted digest none dst_sid path game_date r k = k
connect_stations-AllCounted digest (some a) none path game_date r k = k
connect_stations-AllCounted digest (some a) (some b) path game_date r k =
    let confirmed = confirm_track-OnSome a b game_date path r.routes k in
    elim (Option-cases (confirm_track a b game_date path r.routes)) [
      | inr found ↦ rw (found.1, connect_stations) (rw found.1 at confirmed)
      | inl new_route ↦
          rw (new_route, connect_stations)
            (add_connected-AllCounted digest (a ∷ b ∷ []) path game_date r k)
    ]
