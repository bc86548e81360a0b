-- ===== src/Routes.antt =====
-- src/nttd/state/route_registry.py, with the routes and identifiers of src/nttd/schemas/route.py. The
-- digest that an identifier is cut from is a parameter, since `hashlib.md5` makes it.
pub mod Registry
pub mod Counts
pub mod Calls
pub mod Collision
use nttd.Prelude.{
  ℕ, ◌+◌, ◌-◌, ◌*◌, ◌/◌, ◌%◌, String, Bool, true, false, not, ◌&&◌, ◌||◌, Option, none, some, List,
  [], ◌∷◌, ◌++◌, ◌==◌, string_eq, nat_eq, ltb, leb, length, filter, all, any, map, if◌then◌else◌,
}
use nttd.Prelude.Dict.{Dict, keys, values, lookup, insert}
use nttd.Prelude.Distinct.{contains}
use nttd.Prelude.Int.{ℤ, pos, ◌+ℤ◌}

pub data RouteStatus : Type 0 where
  planned track_built active removed : RouteStatus

unfoldable pub is_status : RouteStatus → RouteStatus → Bool
is_status planned planned = true
is_status track_built track_built = true
is_status active active = true
is_status removed removed = true
is_status _ _ = false

pub record Route : Type 0 where
  pub route_id : String
  pub company_id : ℕ
  pub vehicle_type : String
  pub station_ids : List ℕ
  pub status : RouteStatus
  pub vehicle_ids : List ℕ
  pub depot_tile : ℕ
  pub vehicle_count : ℕ
  pub total_profit_this_year : ℤ
  pub total_profit_last_year : ℤ
  pub created_at : ℕ
  pub path_tiles : List ℕ
  pub track_confirmed_at : ℕ
  pub first_vehicle_at : ℕ

-- A route with the defaults of the schema, `active` among them.
abbrev pub route_with : String → ℕ → String → List ℕ → ℕ → Route
route_with route_id company_id vehicle_type station_ids created_at = record {
  route_id = route_id;
  company_id = company_id;
  vehicle_type = vehicle_type;
  station_ids = station_ids;
  status = active;
  vehicle_ids = [];
  depot_tile = 0;
  vehicle_count = 0;
  total_profit_this_year = pos 0;
  total_profit_last_year = pos 0;
  created_at = created_at;
  path_tiles = [];
  track_confirmed_at = 0;
  first_vehicle_at = 0;
}

pub record Station : Type 0 where
  pub x : ℕ
  pub y : ℕ

pub record Order : Type 0 where
  pub destination : ℕ
  pub is_goto_station : Bool

pub record Vehicle : Type 0 where
  pub id : ℕ
  pub company_id : ℕ
  pub vehicle_type : String
  pub orders : List Order
  pub profit_this_year : ℤ
  pub profit_last_year : ℤ

pub record RouteRegistry : Type 0 where
  pub routes : Dict String Route
  pub map_width : ℕ

abbrev pub new : RouteRegistry
new = record { routes = []; map_width = 256 }

unfoldable pub insert_id : ℕ → List ℕ → List ℕ
insert_id a [] = a ∷ []
insert_id a (b ∷ bs) = if leb a b then a ∷ b ∷ bs else b ∷ insert_id a bs

-- `sorted(station_ids)`
unfoldable pub sort_ids : List ℕ → List ℕ
unfolding insert_id
sort_ids [] = []
sort_ids (a ∷ ids) = insert_id a (sort_ids ids)

unfoldable pub tiles_to_stations : ℕ → Dict ℕ Station → Dict ℕ ℕ → Dict ℕ ℕ
tiles_to_stations map_width [] known = known
tiles_to_stations map_width ((sid, s) ∷ stations) known =
    tiles_to_stations map_width stations (insert (s.y * map_width + s.x) sid known)

unfoldable pub stations_of : Dict ℕ ℕ → List Order → List ℕ
stations_of tile_to_sid [] = []
stations_of tile_to_sid (o ∷ orders) =
    let rest = stations_of tile_to_sid orders in
    if o.is_goto_station
    then (elim (lookup o.destination tile_to_sid) [ none ↦ rest | some sid ↦ sid ∷ rest ])
    else rest

-- A group of vehicles: the key's three parts, and the vehicles in order.
pub record Group : Type 0 where
  pub company_id : ℕ
  pub vehicle_type : String
  pub station_ids : List ℕ
  pub members : List Vehicle

unfoldable pub same_ids : List ℕ → List ℕ → Bool
same_ids [] [] = true
same_ids [] (b ∷ bs) = false
same_ids (a ∷ ids) [] = false
same_ids (a ∷ ids) (b ∷ bs) = a == b && same_ids ids bs

-- `vehicle_groups.setdefault(key, []).append(v)`
unfoldable pub add_vehicle : List ℕ → Vehicle → List Group → List Group
unfolding same_ids
add_vehicle sids v [] =
    record {
      company_id = v.company_id;
      vehicle_type = v.vehicle_type;
      station_ids = sids;
      members = v ∷ [];
    }
    ∷ []
add_vehicle sids v (g ∷ groups) =
    let rest = add_vehicle sids v groups in
    if g.company_id == v.company_id
      && (g.vehicle_type == v.vehicle_type && same_ids g.station_ids sids)
    then record g { members = g.members ++ (v ∷ []) } ∷ groups
    else g ∷ rest

unfoldable pub group_vehicles : Dict ℕ ℕ → List Vehicle → List Group → List Group
unfolding stations_of add_vehicle
group_vehicles tile_to_sid [] groups = groups
group_vehicles tile_to_sid (v ∷ vehicles) groups = elim (stations_of tile_to_sid v.orders) [
  | [] ↦ group_vehicles tile_to_sid vehicles groups
  | sid ∷ sids ↦ group_vehicles tile_to_sid vehicles (add_vehicle (sid ∷ sids) v groups)
]

unfoldable pub sum_ℤ : List ℤ → ℤ
sum_ℤ [] = pos 0
sum_ℤ (a ∷ xs) = a +ℤ sum_ℤ xs

abbrev or_date : ℕ → ℕ → ℕ
or_date old game_date = if old == 0 then game_date else old

-- What one group writes to its route.
unfoldable pub refresh : ℕ → List Vehicle → Route → Route
unfolding is_status sum_ℤ
refresh game_date vlist route =
    let started = is_status route.status planned || is_status route.status track_built in
    record route {
      track_confirmed_at = or_date route.track_confirmed_at game_date;
      vehicle_ids = map (λ v. v.id) vlist;
      vehicle_count = length vlist;
      total_profit_this_year = sum_ℤ (map (λ v. v.profit_this_year) vlist);
      total_profit_last_year = sum_ℤ (map (λ v. v.profit_last_year) vlist);
      status = if started then active else route.status;
      first_vehicle_at =
          if started then or_date route.first_vehicle_at game_date else route.first_vehicle_at;
    }

-- The second loop: an active route that no vehicle serves any more.
unfoldable pub retire : Dict ℕ Station → List String → Dict String Route → Dict String Route
unfolding is_status
retire stations active_route_ids [] = []
retire stations active_route_ids ((rid, route) ∷ routes) =
    let rest = retire stations active_route_ids routes in
    if not (contains rid active_route_ids) && is_status route.status active
    then (if all (λ sid. contains sid (keys stations)) route.station_ids
        then (
          rid,
          record route {
            status = track_built;
            vehicle_ids = [];
            vehicle_count = 0;
            total_profit_this_year = pos 0;
            total_profit_last_year = pos 0;
          },
        )
          ∷ rest
        else (rid, record route { status = removed }) ∷ rest)
    else (rid, route) ∷ rest

unfoldable pub listed : Dict String Route → List Route
unfolding is_status
listed routes = filter (λ r. not (is_status r.status removed)) (values routes)
