-- ===== src/Examples/Batches.antt =====
-- A batch of actions, the tiles it touches and the tables of the world, at concrete inputs.
use mathlib.Core.List.Memᴰ
use nttd.Prelude.{
  inl, ℕ, suc, ◌*◌, ◌≤◌, ◌≡◌, refl, String, true, false, none, some, List, [], ◌∷◌, leb, All, arith,
  nat_eq, string_eq, if◌then◌else◌,
}
use nttd.Prelude.Dict.{Dict, keys, lookup}
use nttd.Prelude.Distinct.{contains}
use nttd.Prelude.Int.{pos, negsuc, ◌+ℤ◌, ◌-ℤ◌, min_ℤ, max_ℤ}
use nttd.Json.{null, number, Payload}
use nttd.Actions.Vocabulary.{known_actions}
use nttd.Actions.Reply.{Reply}
use nttd.Actions.Tracker.{ActionTracker}
use nttd.Actions.Tracker.History.{IsTracked}
use nttd.EndConditions.{EndConditionChecker, new}
use nttd.Examples.Sessions.{limits}
use nttd.Session.Footprint.{
  Area, area, affected_area, points, padded, pad_of, least, greatest, named_points, tile_points,
  iter_reported,
}
use nttd.Session.Footprint.Coverage.{Covers, IsInside}
use nttd.Session.Footprint.Named.{by_coordinates, affected_area-Covers}
use nttd.Session.Refresh.{TileReply, answered, width_of, height_of, read_tile_area}
use nttd.Session.Refresh.Bands.{bands, rows_of, range_ℤ}
use nttd.Session.Refresh.Reading.{IsBandOf, gathered, read_tile_area_lem}
use nttd.Session.Batch.{Game, Entry, Outcome, Session, company_named, execute_all, execute_actions}
use nttd.Session.Batch.Sent.{ground_of, vocabulary_only, execute_actions-filter}
use nttd.Actions.Gate.{failed}
use nttd.Session.Batch.Tracked.{history, ids_of, execute_actions-IsTracked}
use nttd.Session.Batch.Raised.{execute_all-raises}
use nttd.World.{TownRow, StationRow, read_town, read_vehicle}
use nttd.World.State.{WorldState, seen, apply_gs_towns, apply_gs_vehicles, apply_gs_stations}
use nttd.World.Companies.{Company, CompanyRow, new_company, apply_gs_companies}
use nttd.World.Companies.Rows.{own_rows, after_rows, apply_gs_companies_lem}
use nttd.World.Tables.{last_or, of_others, apply_gs_tables, apply_gs_stations_keeps}

abbrev one_tile : Payload
one_tile = ("x", number (pos 10)) ∷ ("y", number (pos 1)) ∷ []

abbrev around : Area
around = record { x1 = pos 6; y1 = pos 1; x2 = pos 14; y2 = pos 5 }

one_tile-area : affected_area "build_rail_depot" one_tile [] 64 64 ≡ area around
unfolding affected_area points padded pad_of least greatest named_points tile_points iter_reported
    contains lookup ◌+ℤ◌ ◌-ℤ◌ min_ℤ max_ℤ
one_tile-area = refl

affected_area-Covers_example : Covers around 64 64 (pos 10, pos 1) × IsInside around 64 64
unfolding lookup
affected_area-Covers_example =
    affected_area-Covers "build_rail_depot" one_tile [] 64 64 around (pos 10, pos 1) one_tile-area
      (by_coordinates "x" "y" (Memᴰ.head refl) (inl refl) (inl refl))

-- A game that counts the calls and answers an area with the number of its tiles.
abbrev ask : Area → ℕ → ℕ × TileReply ℕ
ask a w = (
  suc w,
  (if leb (width_of a * height_of a) 400
      then answered true (some (width_of a * height_of a ∷ []))
      else answered false none),
)

abbrev size_of : Area → List ℕ
size_of a = width_of a * height_of a ∷ []

around-wide : 1 ≤ width_of around
unfolding ◌+ℤ◌ ◌-ℤ◌
around-wide = omega arith

read_tile_area_lem_example :
    let found = bands (height_of around) around around.y1 in
    ((read_tile_area ask around 0).1
      ≡ some (if leb (width_of around) 400 then gathered ask size_of (λ a w. suc w) found else []))
    × (rows_of found ≡ range_ℤ around.y1 (height_of around))
    × All (IsBandOf around) found
read_tile_area_lem_example =
    read_tile_area_lem ask size_of (λ a w. suc w) (λ a w. refl) around 0 around-wide

abbrev done : Reply
done = record {
  success = true;
  result = none;
  error_code = none;
  error_name = none;
  error_category = none;
  error = none;
  reason = none;
}

abbrev game : Game ℕ ℕ
game = record {
  connected = λ w. true;
  int_of_text = λ s. none;
  send_gamescript = λ action params w. (suc w, some done);
  get_tile_area = ask;
  map_width = λ w. 64;
  map_height = λ w. 64;
  game_date = λ w. none;
  now = λ w. w;
}

abbrev mint : ℕ → String
mint n = "hb"

abbrev checker : EndConditionChecker
checker = new (limits "any") none

abbrev session : Session ℕ ℕ
session = record {
  world = 0;
  checker = checker;
  tracker = none;
  rows = some [];
  deltas = some [];
  minted = 0;
}

abbrev batch : List Entry
batch =
    record { action = "build_rail_depot"; params = one_tile }
    ∷ record { action = "execute_console"; params = [] }
    ∷ record { action = ""; params = [] }
    ∷ record { action = "build_road"; params = ("company_id", null) ∷ [] }
    ∷ []

execute_actions-filter_example :
    ground_of game [] [] (execute_actions game mint [] [] batch session).0
    ≡ ground_of game [] []
        (execute_actions game mint [] [] (vocabulary_only game [] [] batch) session).0
execute_actions-filter_example = execute_actions-filter game [] [] mint batch session

-- A tracker that keeps at most one action, and the same session with it.
abbrev no_actions : ActionTracker
no_actions = record { actions = []; results = []; max_history = 1 }

abbrev tracked_session : Session ℕ ℕ
tracked_session = record session { tracker = some no_actions }

execute_actions-IsTracked_example :
    (after : ActionTracker) × ((execute_actions game mint [] [] batch tracked_session).0.tracker
      ≡ some after)
    × IsTracked after
    × (keys after.actions ≡ history 1 [] (ids_of game mint [] [] batch 0))
execute_actions-IsTracked_example =
    execute_actions-IsTracked game mint [] [] batch tracked_session no_actions refl
      (record { in_step = refl; distinct = tt; bounded = omega arith })

abbrev numbered_steps : Entry
numbered_steps = record {
  action = "build_rail_depot";
  params = ("x", number (pos 10)) ∷ ("y", number (pos 1)) ∷ ("steps", number (pos 3)) ∷ [];
}

depot_known : contains "build_rail_depot" known_actions ≡ true
unfolding contains
depot_known = refl

numbered_steps-company : company_named game numbered_steps ≡ some (negsuc 0)
unfolding lookup
numbered_steps-company = refl

execute_all-raises_example :
    let result = execute_all game mint [] [] (numbered_steps ∷ []) session in
    (result.0.world ≡ 1) × ((o : Outcome) × (result.1 ≡ some (o ∷ [])) × (o.result.status ≡ failed))
unfolding lookup
execute_all-raises_example =
    execute_all-raises game [] [] mint (negsuc 0) numbered_steps session 1 done []
      numbered_steps-company depot_known refl refl refl refl refl

abbrev town_row : TownRow
town_row = record {
  id = 4;
  name = none;
  population = some (pos 900);
  houses = none;
  x = some (pos 10);
  y = some (pos 12);
  is_city = none;
  growth_rate = none;
}

abbrev world : WorldState
world = record { towns = []; stations = []; vehicles = [] }

apply_gs_tables_example :
    let after = lookup 4 (apply_gs_vehicles 2 [] world).vehicles in
    let read = read_vehicle 2 in
    let reported = contains 4 (seen (λ row. row.id) read []) in
    (lookup 4 (apply_gs_towns (town_row ∷ []) world).towns
      ≡ last_or (λ row. row.id) read_town 4 (town_row ∷ []) none)
    × (reported ≡ true → after ≡ last_or (λ row. row.id) read 4 [] none)
    × (reported ≡ false → after ≡ of_others 2 (lookup 4 world.vehicles))
apply_gs_tables_example = apply_gs_tables 4 2 (town_row ∷ []) [] world tt

abbrev station_row : StationRow
station_row = record {
  id = 7;
  name = none;
  x = some (pos 10);
  y = some (pos 12);
  has_rail = some true;
  has_truck = none;
  has_bus = none;
  has_airport = none;
  has_dock = none;
  cargo_waiting = [];
  cargo_acceptance = [];
}

-- The world after the company's only station was reported.
abbrev with_station : WorldState
with_station = apply_gs_stations 2 (station_row ∷ []) world

apply_gs_stations_keeps_example :
    lookup 7 (apply_gs_stations 2 [] with_station).stations ≡ lookup 7 with_station.stations
unfolding contains
apply_gs_stations_keeps_example = apply_gs_stations_keeps 7 2 [] with_station refl

abbrev full_row : CompanyRow
full_row = record {
  id = some 2;
  name = none;
  manager = none;
  color = none;
  is_ai = some false;
  money = some (pos 100);
  balance = some (pos 7);
  loan = none;
  max_loan = none;
  income = none;
  company_value = none;
  value = some (pos 50);
  performance_rating = none;
  q0_income = none;
  q0_expenses = none;
  q0_cargo = none;
  cargo_delivered_total = some (pos 12);
}

abbrev known_companies : Dict ℕ Company
known_companies = (3, new_company 3) ∷ []

apply_gs_companies_lem_example :
    lookup 3 (apply_gs_companies (full_row ∷ []) known_companies)
    ≡ after_rows 3 (own_rows 3 (full_row ∷ [])) (lookup 3 known_companies)
apply_gs_companies_lem_example = apply_gs_companies_lem 3 (full_row ∷ []) known_companies
