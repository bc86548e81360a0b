-- ===== src/World.antt =====
-- The rows of towns, stations and vehicles in src/nttd/state/world.py, as the replies of the GameScript bring them.
-- A row has its id, and each other field or none; a list that is missing is empty. The other tables of the
-- world are filled in the same way, or replaced whole, and are not here.
pub mod State
pub mod Tables
pub mod Companies
use nttd.Prelude.{
  ℕ, String, Bool, true, false, not, ◌&&◌, Option, none, some, List, [], ◌∷◌, map, ◌==◌, nat_eq,
  if◌then◌else◌,
}
use nttd.Prelude.Dict.{Dict, insert, erase}
use nttd.Prelude.Distinct.{contains}
use nttd.Prelude.Int.{ℤ, pos}
use nttd.GameText.{Text, max_text_length, sanitise}

-- `row.get(field, default)`
abbrev get_or : {A : Type 0} → Option A → A → A
get_or none default = default
get_or (some a) default = a

pub record CargoWaitingRow : Type 0 where
  pub cargo_id : Option ℤ
  pub cargo_label : Option String
  pub waiting : Option ℤ

pub record CargoWaiting : Type 0 where
  pub cargo_id : ℤ
  pub cargo_label : String
  pub waiting : ℤ

pub record CargoAcceptanceRow : Type 0 where
  pub cargo_id : Option ℤ
  pub cargo_label : Option String
  pub accepts : Option Bool
  pub produces : Option Bool
  pub supply : Option ℤ
  pub rated : Option Bool

pub record CargoAcceptance : Type 0 where
  pub cargo_id : ℤ
  pub cargo_label : String
  pub accepts : Bool
  pub produces : Bool
  pub supply : ℤ
  pub rated : Bool

pub record OrderRow : Type 0 where
  pub index : Option ℤ
  pub destination : Option ℤ
  pub flags : Option ℤ
  pub is_goto_station : Option Bool
  pub is_goto_depot : Option Bool
  pub is_goto_waypoint : Option Bool

pub record Order : Type 0 where
  pub index : ℤ
  pub destination : ℤ
  pub flags : ℤ
  pub is_goto_station : Bool
  pub is_goto_depot : Bool
  pub is_goto_waypoint : Bool

pub record TownRow : Type 0 where
  pub id : ℕ
  pub name : Option Text
  pub population : Option ℤ
  pub houses : Option ℤ
  pub x : Option ℤ
  pub y : Option ℤ
  pub is_city : Option Bool
  pub growth_rate : Option ℤ

pub record Town : Type 0 where
  pub id : ℕ
  pub name : Text
  pub population : ℤ
  pub houses : ℤ
  pub x : ℤ
  pub y : ℤ
  pub is_city : Bool
  pub growth_rate : ℤ

pub record StationRow : Type 0 where
  pub id : ℕ
  pub name : Option Text
  pub x : Option ℤ
  pub y : Option ℤ
  pub has_rail : Option Bool
  pub has_truck : Option Bool
  pub has_bus : Option Bool
  pub has_airport : Option Bool
  pub has_dock : Option Bool
  pub cargo_waiting : List CargoWaitingRow
  pub cargo_acceptance : List CargoAcceptanceRow

pub record Station : Type 0 where
  pub id : ℕ
  pub company_id : ℕ
  pub name : Text
  pub x : ℤ
  pub y : ℤ
  pub has_rail : Bool
  pub has_truck : Bool
  pub has_bus : Bool
  pub has_airport : Bool
  pub has_dock : Bool
  pub cargo_waiting : List CargoWaiting
  pub cargo_acceptance : List CargoAcceptance

pub record VehicleRow : Type 0 where
  pub id : ℕ
  pub vehicle_type : Option String
  pub name : Option Text
  pub engine_id : Option ℤ
  pub x : Option ℤ
  pub y : Option ℤ
  pub capacity : Option ℤ
  pub profit_this_year : Option ℤ
  pub profit_last_year : Option ℤ
  pub age : Option ℤ
  pub max_age : Option ℤ
  pub current_speed : Option ℤ
  pub state : Option ℤ
  pub in_depot : Option Bool
  pub order_count : Option ℤ
  pub lost : Option Bool
  pub idle_reason : Option String
  pub orders : List OrderRow

pub record Vehicle : Type 0 where
  pub id : ℕ
  pub company_id : ℕ
  pub vehicle_type : String
  pub name : Text
  pub engine_id : ℤ
  pub x : ℤ
  pub y : ℤ
  pub capacity : ℤ
  pub profit_this_year : ℤ
  pub profit_last_year : ℤ
  pub age : ℤ
  pub max_age : ℤ
  pub current_speed : ℤ
  pub state : ℤ
  pub in_depot : Bool
  pub order_count : ℤ
  pub lost : Bool
  pub idle_reason : String
  pub running : Bool
  pub orders : List Order

unfoldable pub read_waiting : CargoWaitingRow → CargoWaiting
read_waiting row = record {
  cargo_id = get_or row.cargo_id (pos 0);
  cargo_label = get_or row.cargo_label "";
  waiting = get_or row.waiting (pos 0);
}

unfoldable pub read_acceptance : CargoAcceptanceRow → CargoAcceptance
read_acceptance row = record {
  cargo_id = get_or row.cargo_id (pos 0);
  cargo_label = get_or row.cargo_label "";
  accepts = get_or row.accepts false;
  produces = get_or row.produces false;
  supply = get_or row.supply (pos 0);
  rated = get_or row.rated false;
}

unfoldable pub read_order : OrderRow → Order
read_order row = record {
  index = get_or row.index (pos 0);
  destination = get_or row.destination (pos 0);
  flags = get_or row.flags (pos 0);
  is_goto_station = get_or row.is_goto_station false;
  is_goto_depot = get_or row.is_goto_depot false;
  is_goto_waypoint = get_or row.is_goto_waypoint false;
}

unfoldable pub read_town : TownRow → Town
read_town row = record {
  id = row.id;
  name = sanitise max_text_length row.name;
  population = get_or row.population (pos 0);
  houses = get_or row.houses (pos 0);
  x = get_or row.x (pos 0);
  y = get_or row.y (pos 0);
  is_city = get_or row.is_city false;
  growth_rate = get_or row.growth_rate (pos 0);
}

unfoldable pub read_station : (company_id : ℕ) → StationRow → Station
read_station company_id row = record {
  id = row.id;
  company_id = company_id;
  name = sanitise max_text_length row.name;
  x = get_or row.x (pos 0);
  y = get_or row.y (pos 0);
  has_rail = get_or row.has_rail false;
  has_truck = get_or row.has_truck false;
  has_bus = get_or row.has_bus false;
  has_airport = get_or row.has_airport false;
  has_dock = get_or row.has_dock false;
  cargo_waiting = map read_waiting row.cargo_waiting;
  cargo_acceptance = map read_acceptance row.cargo_acceptance;
}

unfoldable pub read_vehicle : (company_id : ℕ) → VehicleRow → Vehicle
read_vehicle company_id row = record {
  id = row.id;
  company_id = company_id;
  vehicle_type = get_or row.vehicle_type "train";
  name = sanitise max_text_length row.name;
  engine_id = get_or row.engine_id (pos 0);
  x = get_or row.x (pos 0);
  y = get_or row.y (pos 0);
  capacity = get_or row.capacity (pos 0);
  profit_this_year = get_or row.profit_this_year (pos 0);
  profit_last_year = get_or row.profit_last_year (pos 0);
  age = get_or row.age (pos 0);
  max_age = get_or row.max_age (pos 0);
  current_speed = get_or row.current_speed (pos 0);
  state = get_or row.state (pos 0);
  in_depot = get_or row.in_depot false;
  order_count = get_or row.order_count (pos 0);
  lost = get_or row.lost false;
  idle_reason = get_or row.idle_reason "";
  running = not (get_or row.in_depot false);
  orders = map read_order row.orders;
}
