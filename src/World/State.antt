-- ===== src/World/State.antt =====
-- The tables of towns, stations and vehicles of src/nttd/state/world.py. Of its other tables, those of
-- industries are filled as towns are, and the rest is replaced or merged by other rules and not here.
use nttd.Prelude.{ℕ, not, ◌&&◌, List, [], ◌∷◌, map, ◌==◌, nat_eq, if◌then◌else◌}
use nttd.Prelude.Dict.{Dict, insert, erase}
use nttd.Prelude.Distinct.{contains}
use nttd.World.{
  TownRow, StationRow, VehicleRow, Town, Station, Vehicle, read_town, read_station, read_vehicle,
}

pub record WorldState : Type 0 where
  pub towns : Dict ℕ Town
  pub stations : Dict ℕ Station
  pub vehicles : Dict ℕ Vehicle

module _ {Row Entity : Type 0} (id_of : Row → ℕ) (read : Row → Entity) where
  -- The loop over the rows: each is written under its id.
  unfoldable pub store : List Row → Dict ℕ Entity → Dict ℕ Entity
  store [] entities = entities
  store (row ∷ rows) entities = store rows (insert (id_of row) (read row) entities)

  -- `seen`
  abbrev pub seen : List Row → List ℕ
  seen rows = map id_of rows

-- `for key in list(d.keys()): if key not in seen: del d[key]`
unfoldable pub keep : {Entity : Type 0} → List ℕ → Dict ℕ Entity → Dict ℕ Entity
keep ids [] = []
keep ids ((key, entity) ∷ entities) =
    let rest = keep ids entities in if contains key ids then (key, entity) ∷ rest else rest

-- The vehicles of the company that were not seen.
unfoldable pub stale : (company_id : ℕ) → List ℕ → Dict ℕ Vehicle → List ℕ
stale company_id ids [] = []
stale company_id ids ((key, vehicle) ∷ vehicles) =
    let rest = stale company_id ids vehicles in
    if vehicle.company_id == company_id && not (contains key ids) then key ∷ rest else rest

unfoldable pub erase_all : List ℕ → Dict ℕ Vehicle → Dict ℕ Vehicle
erase_all [] vehicles = vehicles
erase_all (key ∷ ids) vehicles = erase_all ids (erase key vehicles)

unfoldable pub apply_gs_towns : List TownRow → WorldState → WorldState
apply_gs_towns results world = record world {
  towns =
      keep (seen (λ row. row.id) read_town results)
        (store (λ row. row.id) read_town results world.towns);
}

unfoldable pub apply_gs_stations : (company_id : ℕ) → List StationRow → WorldState → WorldState
apply_gs_stations company_id results world = record world {
  stations = store (λ row. row.id) (read_station company_id) results world.stations;
}

unfoldable pub apply_gs_vehicles : (company_id : ℕ) → List VehicleRow → WorldState → WorldState
apply_gs_vehicles company_id results world =
    let vehicles = store (λ row. row.id) (read_vehicle company_id) results world.vehicles in
    let ids = seen (λ row. row.id) (read_vehicle company_id) results in
    record world { vehicles = erase_all (stale company_id ids vehicles) vehicles }
