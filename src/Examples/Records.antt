-- ===== src/Examples/Records.antt =====
-- What the session keeps: actions, the bundle's checks, and the routes.
use nttd.Prelude.{
  ℕ, ◌≡◌, ◌↔◌, ◌⊎◌, refl, true, false, none, some, List, [], ◌∷◌, string_eq, nat_eq, length,
}
use nttd.Prelude.Dict.{lookup}
use nttd.Prelude.Distinct.{contains}
use nttd.Prelude.Int.{pos}
use nttd.Actions.Vocabulary.{known_actions, operator_actions, read_only_gs_actions}
use nttd.Actions.Gate.{admit, admit_iff, rejected, operator_tier, read_only_query}
use nttd.Verify.{
  LogRow, ResultRow, verified, of_company, succeeded, dates_of, action_log_consistent,
}
use nttd.Verify.Log.{IsAscending, IsInWindow, action_log_consistent_iff}
use nttd.Verify.{no_forbidden_capability}
use nttd.Verify.Capability.{IsOperator, no_forbidden_capability_iff}
use nttd.Prelude.{All}
use nttd.Verify.Validator.{Bundle, Manifest, exited, verify}
use nttd.Verify.Verdict.{IsConfirmed, verify_iff}
use nttd.Routes
use nttd.Routes.{Route, Group, Vehicle, Order, Station}
use nttd.Routes.Registry.{Digest, make_route_id, update_routes}
use nttd.Routes.Collision.{update_routes_overwrite}
use nttd.Routes.Calls.{reconcile_call, plan_call, run, run-new-AllCounted}
use nttd.Routes.Counts.{AllCounted}

admit_iff_example :
    let admission = admit "build_road" (pos 3) in
    ((admission.allowed ≡ true) ↔ (contains "build_road" known_actions ≡ true))
    × ((admission.status ≡ rejected) ↔ (contains "build_road" known_actions ≡ false))
    × ((admission.error ≡ operator_tier "build_road")
        ↔ (contains "build_road" operator_actions ≡ true))
    × ((admission.error ≡ read_only_query "build_road") ↔ (
        (contains "build_road" operator_actions ≡ false)
        × (contains "build_road" read_only_gs_actions ≡ true)))
admit_iff_example = admit_iff "build_road" (pos 3)

abbrev log : List LogRow
log =
    record { company_id = 3; action_type = "build_road"; status = "success"; game_date = some 40 }
    ∷ record { company_id = 3; action_type = "build_rail"; status = "failed"; game_date = none }
    ∷ record { company_id = 1; action_type = "build_road"; status = "success"; game_date = some 44 }
    ∷ []

abbrev result : ResultRow
result = record {
  company_id = 3;
  total_actions = 2;
  successful_actions = 1;
  start_game_date = some 40;
  end_game_date = some 60;
  clean_run = true;
  performance_rating = 300;
  total_cargo = 12;
  map_seed = some 7;
}

action_log_consistent_iff_example : ((action_log_consistent log result).passed ≡ some true) ↔ (
    (length (of_company 3 log) ≡ 2)
    × (length (succeeded (of_company 3 log)) ≡ 1)
    × IsAscending (dates_of log)
    × IsInWindow (some 40) (some 60) (dates_of log))
action_log_consistent_iff_example = action_log_consistent_iff log result

no_forbidden_capability_iff_example : ((no_forbidden_capability log result).passed ≡ some true) ↔ (
    All (λ a. ¬ (IsOperator a × (a.status ≡ "success"))) log
    × ((result.clean_run ≡ false)
        ⊎ All (λ a. ¬ (IsOperator a × ((a.status ≡ "rejected") ⊎ (a.status ≡ "blocked")))) log))
no_forbidden_capability_iff_example = no_forbidden_capability_iff log result

abbrev manifest : Manifest
manifest = record {
  artifacts = ("result.parquet", record { sha256 = "ab12"; bytes = 90 }) ∷ [];
  map_digest = "cd34";
}

abbrev bundle : Bundle
bundle = record {
  manifest = some manifest;
  files = λ name. some (record { sha256 = "ab12"; bytes = 90 });
  rows = result ∷ [];
  actions = log;
  final_snapshot = record { stations = 3 ∷ []; vehicles = 3 ∷ [] };
  save = exited 0;
  reloaded = some ((3, record { performance_rating = 300; total_cargo = 12 }) ∷ []);
  has_settings = true;
  generate = λ seed. some (65536, "cd34");
}

verify_iff_example : ((verify bundle true).0 ≡ verified) ↔ ((true ≡ true) × IsConfirmed bundle)
verify_iff_example = verify_iff bundle true

abbrev digest : Digest
digest company_id vehicle_type station_ids = vehicle_type

abbrev bus : ℕ → List Order → Vehicle
bus id orders = record {
  id = id;
  company_id = 3;
  vehicle_type = "road";
  orders = orders;
  profit_this_year = pos 10;
  profit_last_year = pos 0;
}

abbrev group_of : List ℕ → ℕ → Group
group_of station_ids id = record {
  company_id = 3;
  vehicle_type = "road";
  station_ids = station_ids;
  members = bus id [] ∷ [];
}

update_routes_overwrite_example :
    (route : Route) × (lookup
        (make_route_id digest 3 "road" (1 ∷ 2 ∷ []))
        (update_routes digest 40 (group_of (1 ∷ 2 ∷ []) 10 ∷ group_of (2 ∷ 1 ∷ []) 11 ∷ []) [] []).0
      ≡ some route)
    × (route.vehicle_ids ≡ 11 ∷ [])
unfolding nttd.Routes.sort_ids nttd.Routes.insert_id
update_routes_overwrite_example =
    update_routes_overwrite digest 40 (group_of (1 ∷ 2 ∷ []) 10) (group_of (2 ∷ 1 ∷ []) 11) [] refl
      refl refl

abbrev orders : List Order
orders =
    record { destination = 0; is_goto_station = true }
    ∷ record { destination = 5; is_goto_station = true }
    ∷ []

run-new-AllCounted_example :
    AllCounted
      (run digest
        (plan_call 3 "road" (1 ∷ 2 ∷ []) 40
          ∷ reconcile_call
              (bus 10 orders ∷ bus 11 orders ∷ [])
              ((1, record { x = 0; y = 0 }) ∷ (2, record { x = 5; y = 0 }) ∷ [])
              41
              256
          ∷ [])
        nttd.Routes.new).routes
run-new-AllCounted_example = run-new-AllCounted digest (
    plan_call 3 "road" (1 ∷ 2 ∷ []) 40
    ∷ reconcile_call (bus 10 orders ∷ bus 11 orders ∷ [])
        ((1, record { x = 0; y = 0 }) ∷ (2, record { x = 5; y = 0 }) ∷ []) 41 256
    ∷ [])
