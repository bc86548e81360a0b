-- ===== src/Routes/Registry.antt =====
-- The operations of src/nttd/state/route_registry.py.
use nttd.Prelude.{
  ℕ, ◌+◌, ◌-◌, ◌*◌, ◌/◌, ◌%◌, String, Bool, not, ◌&&◌, ◌||◌, Option, none, some, List, [], ◌∷◌,
  ◌++◌, ◌==◌, string_eq, nat_eq, ltb, length, filter, all, map, if◌then◌else◌,
}
use nttd.Prelude.Dict.{Dict, values, lookup, insert}
use nttd.Prelude.Distinct.{contains}
use nttd.Routes.{
  planned, track_built, removed, is_status, Route, route_with, Station, Vehicle, RouteRegistry,
  sort_ids, tiles_to_stations, Group, group_vehicles, refresh, retire, listed,
}

-- The part of a route's identifier that `hashlib.md5` makes of its key.
abbrev pub Digest : Type 0
Digest = ℕ → String → List ℕ → String

abbrev gap : ℕ → ℕ → ℕ
gap a b = a - b + (b - a)

-- The nearest station so far, and its distance.
unfoldable pub nearest : ℕ → ℕ → Dict ℕ Station → Option ℕ → ℕ → Option ℕ
nearest x y [] best_sid best_dist = best_sid
nearest x y ((sid, s) ∷ stations) best_sid best_dist =
    let dist = gap s.x x + gap s.y y in
    let closer = nearest x y stations (some sid) dist in
    let rest = nearest x y stations best_sid best_dist in
    if ltb dist best_dist then closer else rest

-- Within a distance of five.
unfoldable pub find_station_near : ℕ → ℕ → Dict ℕ Station → Option ℕ
unfolding nearest
find_station_near x y stations = nearest x y stations none 6

unfoldable pub extract_path_tiles : List (ℕ × ℕ) → List ℕ
extract_path_tiles path = map (λ pt. pt.1 * 256 + pt.0) path

-- The best route so far, and its distance.
abbrev Best : Type 0
Best = Option String × ℕ

unfoldable pub near_stations :
    (map_width tile : ℕ) → Dict ℕ Station → String → List ℕ → Option String × ℕ → Option String × ℕ
near_stations map_width tile stations rid [] best = best
near_stations map_width tile stations rid (sid ∷ sids) best = elim (lookup sid stations) [
  | none ↦ near_stations map_width tile stations rid sids best
  | some s ↦
      let dist = gap s.x (tile % map_width) + gap s.y (tile / map_width) in
      near_stations map_width tile stations rid sids
        (if ltb dist best.1 then (some rid, dist) else best)
]

unfoldable pub nearest_route :
    (map_width tile : ℕ)
    → Dict ℕ Station
    → Dict String Route
    → Option String × ℕ
    → Option String × ℕ
unfolding is_status near_stations
nearest_route map_width tile stations [] best = best
nearest_route map_width tile stations ((rid, route) ∷ routes) best =
    nearest_route map_width tile stations routes (
      if is_status route.status removed
      then best
      else near_stations map_width tile stations rid route.station_ids best)

-- The key of the route, within a distance of fifteen.
unfoldable pub find_route_near_tile : ℕ → Dict ℕ Station → RouteRegistry → Option String
unfolding nearest_route
find_route_near_tile tile stations r =
    (nearest_route r.map_width tile stations r.routes (none, 16)).0

-- A route without a depot gets one.
unfoldable pub set_depot : ℕ → Option String → RouteRegistry → RouteRegistry
set_depot tile none r = r
set_depot tile (some rid) r = elim (lookup rid r.routes) [
  | none ↦ r
  | some route ↦
      if route.depot_tile == 0
      then record r { routes = insert rid (record route { depot_tile = tile }) r.routes }
      else r
]

-- `tile` is 0 where the action named none.
unfoldable pub handle_depot : ℕ → Dict ℕ Station → RouteRegistry → RouteRegistry
unfolding find_route_near_tile set_depot
handle_depot tile stations r =
    if tile == 0 then r else set_depot tile (find_route_near_tile tile stations r) r

unfoldable pub link_vehicle : ℕ → ℕ → Dict String Route → Dict String Route
link_vehicle vid depot_tile [] = []
link_vehicle vid depot_tile ((rid, route) ∷ routes) =
    let rest = link_vehicle vid depot_tile routes in
    if route.depot_tile == depot_tile
    then (if contains vid route.vehicle_ids
        then (rid, route) ∷ routes
        else (
          rid,
          record route {
            vehicle_ids = route.vehicle_ids ++ (vid ∷ []);
            vehicle_count = length (route.vehicle_ids ++ (vid ∷ []));
          },
        )
          ∷ routes)
    else (rid, route) ∷ rest

unfoldable pub handle_vehicle_buy : Option ℕ → ℕ → RouteRegistry → RouteRegistry
unfolding link_vehicle
handle_vehicle_buy none depot_tile r = r
handle_vehicle_buy (some vid) depot_tile r =
    if depot_tile == 0 then r else record r { routes = link_vehicle vid depot_tile r.routes }

-- `{a, b} == set(ids)`
unfoldable pub joins : ℕ → ℕ → List ℕ → Bool
joins a b ids = contains a ids && contains b ids && all (λ i. i == a || i == b) ids

-- The first planned route between two stations gets its track; none where there is no such route.
unfoldable pub confirm_track : ℕ → ℕ → ℕ → List ℕ → Dict String Route → Option (Dict String Route)
unfolding joins
confirm_track src_sid dst_sid game_date path_tiles [] = none
confirm_track src_sid dst_sid game_date path_tiles ((rid, route) ∷ routes) =
    let rest = confirm_track src_sid dst_sid game_date path_tiles routes in
    if is_status route.status planned && joins src_sid dst_sid route.station_ids
    then some (
        (
          rid,
          record route {
            status = track_built;
            track_confirmed_at = game_date;
            path_tiles = path_tiles;
          },
        )
        ∷ routes)
    else (elim rest [ none ↦ none | some later ↦ some ((rid, route) ∷ later) ])

-- A successful action that the registry hears of, with the parameters that it reads.
pub data ActionNews : Type 0 where
  connect_rail : ℕ × ℕ → ℕ × ℕ → List (ℕ × ℕ) → ActionNews
  build_rail_depot : ℕ → ActionNews
  buy_vehicle : Option ℕ → ℕ → ActionNews
  other_action : String → ActionNews

module _ (digest : Digest) where
  unfoldable pub make_route_id : ℕ → String → List ℕ → String
  unfolding sort_ids
  make_route_id company_id vehicle_type station_ids =
      digest company_id vehicle_type (sort_ids station_ids)

  -- The route of a group: the one that is known, or a new one.
  unfoldable pub route_for : String → ℕ → Group → Dict String Route → Route
  route_for rid game_date g routes = elim (lookup rid routes) [
    | some route ↦ route
    | none ↦ record (route_with rid g.company_id g.vehicle_type g.station_ids game_date) {
      first_vehicle_at = game_date;
    }
  ]

  unfoldable pub update_route : ℕ → Group → Dict String Route → Dict String Route
  unfolding make_route_id route_for refresh
  update_route game_date g routes =
      let rid = make_route_id g.company_id g.vehicle_type g.station_ids in
      insert rid (refresh game_date g.members (route_for rid game_date g routes)) routes

  -- The loop over the groups: the routes, and the identifiers that it met.
  unfoldable pub update_routes :
      ℕ → List Group → Dict String Route → List String → Dict String Route × List String
  unfolding update_route make_route_id
  update_routes game_date [] routes active_route_ids = (routes, active_route_ids)
  update_routes game_date (g ∷ groups) routes active_route_ids =
      update_routes game_date groups (update_route game_date g routes)
        (make_route_id g.company_id g.vehicle_type g.station_ids ∷ active_route_ids)

  unfoldable pub reconcile :
      List Vehicle
      → Dict ℕ Station
      → (game_date map_width : ℕ) → RouteRegistry
      → RouteRegistry × List Route
  unfolding tiles_to_stations group_vehicles update_routes retire listed
  reconcile vehicles stations game_date map_width r =
      let tile_to_sid = tiles_to_stations map_width stations [] in
      let groups = group_vehicles tile_to_sid vehicles [] in
      let (routes, active_route_ids) = update_routes game_date groups r.routes [] in
      let routes' = retire stations active_route_ids routes in
      (record { routes = routes'; map_width = map_width }, listed routes')

  -- A route that nothing planned, without a company.
  unfoldable pub add_connected : List ℕ → List ℕ → ℕ → RouteRegistry → RouteRegistry
  unfolding make_route_id
  add_connected sids path_tiles game_date r =
      let rid = make_route_id 0 "train" sids in
      elim (lookup rid r.routes) [
        | some route ↦ r
        | none ↦
            let route : Route = record (route_with rid 0 "train" sids game_date) {
              status = track_built;
              track_confirmed_at = game_date;
              path_tiles = path_tiles;
            } in
            record r { routes = insert rid route r.routes }
      ]

  unfoldable pub connect_stations : Option ℕ → Option ℕ → List ℕ → ℕ → RouteRegistry → RouteRegistry
  unfolding confirm_track add_connected
  connect_stations none dst_sid path_tiles game_date r = r
  connect_stations (some src_sid) none path_tiles game_date r = r
  connect_stations (some src_sid) (some dst_sid) path_tiles game_date r =
      elim (confirm_track src_sid dst_sid game_date path_tiles r.routes) [
        | some confirmed ↦ record r { routes = confirmed }
        | none ↦ add_connected (src_sid ∷ dst_sid ∷ []) path_tiles game_date r
      ]

  -- A rail connection between (from_x, from_y) and (to_x, to_y); the path holds the tiles (x, y).
  unfoldable pub handle_connect_rail :
      ℕ × ℕ → ℕ × ℕ → List (ℕ × ℕ) → Dict ℕ Station → ℕ → RouteRegistry → RouteRegistry
  unfolding find_station_near extract_path_tiles connect_stations
  handle_connect_rail source target path stations game_date r =
      connect_stations (find_station_near source.0 source.1 stations)
        (find_station_near target.0 target.1 stations) (extract_path_tiles path) game_date r

  unfoldable pub on_action_result : ActionNews → Dict ℕ Station → ℕ → RouteRegistry → RouteRegistry
  unfolding handle_connect_rail handle_depot handle_vehicle_buy
  on_action_result (connect_rail source target path) stations game_date r =
      handle_connect_rail source target path stations game_date r
  on_action_result (build_rail_depot tile) stations game_date r = handle_depot tile stations r
  on_action_result (buy_vehicle vid depot_tile) stations game_date r =
      handle_vehicle_buy vid depot_tile r
  on_action_result (other_action action_type) stations game_date r = r

  unfoldable pub register_planned_route :
      ℕ → String → List ℕ → ℕ → RouteRegistry → RouteRegistry × Route
  unfolding make_route_id
  register_planned_route company_id vehicle_type station_ids game_date r =
      let rid = make_route_id company_id vehicle_type station_ids in
      elim (lookup rid r.routes) [
        | some route ↦ (r, route)
        | none ↦
            let route : Route =
              record (route_with rid company_id vehicle_type station_ids game_date) {
                status = planned;
              } in
            (record r { routes = insert rid route r.routes }, route)
      ]

unfoldable pub get_route : String → RouteRegistry → Option Route
get_route route_id r = lookup route_id r.routes

unfoldable pub get_routes : Option ℕ → RouteRegistry → List Route
unfolding listed
get_routes none r = listed r.routes
get_routes (some company_id) r = filter (λ route. route.company_id == company_id) (listed r.routes)

unfoldable pub first_with : ℕ → List Route → Option Route
first_with vehicle_id [] = none
first_with vehicle_id (route ∷ routes) =
    if contains vehicle_id route.vehicle_ids then some route else first_with vehicle_id routes

unfoldable pub route_for_vehicle : ℕ → RouteRegistry → Option Route
unfolding first_with
route_for_vehicle vehicle_id r = first_with vehicle_id (values r.routes)

unfoldable pub routes_for_station : ℕ → RouteRegistry → List Route
unfolding is_status
routes_for_station station_id r =
    filter (λ route. contains station_id route.station_ids && not (is_status route.status removed))
      (values r.routes)
