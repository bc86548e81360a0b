-- ===== src/World/Tables.antt =====
-- What the tables of src/nttd/state/world.py hold after a reply.
use nttd.Prelude.{
  ℕ, ◌≡◌, refl, sym, ◌∙◌, ap, Bool, true, false, not, ◌&&◌, Option, none, some, List, [], ◌∷◌, ◌==◌,
  nat_eq, if◌then◌else◌, Bool-cases, inl, inr, arith,
}
use mathlib.Core.Path.{subst}
use nttd.Prelude.Dict.{Dict, keys, lookup, insert, erase, lookup-insert, lookup-erase}
use nttd.Prelude.Distinct.{contains, Distinct, insert-Distinct}
use nttd.World.{TownRow, StationRow, VehicleRow, Vehicle, read_town, read_station, read_vehicle}
use nttd.World.State.{
  WorldState, store, seen, keep, stale, erase_all, apply_gs_towns, apply_gs_stations,
  apply_gs_vehicles,
}

module _ {Row Entity : Type 0} (id_of : Row → ℕ) (read : Row → Entity) where
  -- What the last row of an id says, or what there was.
  abbrev pub last_or : ℕ → List Row → Option Entity → Option Entity
  last_or key [] before = before
  last_or key (row ∷ rows) before =
      last_or key rows (if id_of row == key then some (read row) else before)

  lookup-store :
      (key : ℕ) (rows : List Row) (d : Dict ℕ Entity)
      → lookup key (store id_of read rows d) ≡ last_or key rows (lookup key d)
  unfolding store
  lookup-store key [] d = refl
  lookup-store key (row ∷ rows) d =
      lookup-store key rows (insert (id_of row) (read row) d)
      ∙ ap (last_or key rows) (lookup-insert (id_of row) key (read row) d)

  -- A row that is there hides what was before.
  last_or-seen :
      (key : ℕ) (rows : List Row) (a b : Option Entity)
      → contains key (seen id_of read rows) ≡ true
      → last_or key rows a ≡ last_or key rows b
  unfolding contains
  last_or-seen key [] a b h = absurd (cc)
  last_or-seen key (row ∷ rows) a b h = elim (Bool-cases (id_of row == key)) [
    | inl own ↦ rw own refl
    | inr other ↦ rw other (last_or-seen key rows a b (ground arith))
  ]

  last_or-unseen :
      (key : ℕ) (rows : List Row) (a : Option Entity)
      → contains key (seen id_of read rows) ≡ false
      → last_or key rows a ≡ a
  unfolding contains
  last_or-unseen key [] a h = refl
  last_or-unseen key (row ∷ rows) a h =
      let other : (id_of row == key) ≡ false = ground arith in
      rw other (last_or-unseen key rows a (ground arith))

  store-Distinct :
      (rows : List Row) (d : Dict ℕ Entity)
      → Distinct (keys d)
      → Distinct (keys (store id_of read rows d))
  unfolding store
  store-Distinct [] d h = h
  store-Distinct (row ∷ rows) d h =
      store-Distinct rows (insert (id_of row) (read row) d)
        (insert-Distinct (id_of row) (read row) d h)

lookup-keep :
    {Entity : Type 0} (key : ℕ) (ids : List ℕ) (d : Dict ℕ Entity)
    → lookup key (keep ids d) ≡ (if contains key ids then lookup key d else none)
unfolding keep lookup
lookup-keep key ids [] = ground arith
lookup-keep key ids ((k, v) ∷ d) = ground (arith, nat_eq.same_iff k key, lookup-keep key ids d)

stale-absent :
    (key company_id : ℕ) (ids : List ℕ) (d : Dict ℕ Vehicle)
    → contains key (keys d) ≡ false
    → contains key (stale company_id ids d) ≡ false
unfolding stale contains
stale-absent key company_id ids [] h = refl
stale-absent key company_id ids ((k, v) ∷ d) h = ground (arith, stale-absent key company_id ids d)

-- Whether the vehicle under a key is one to remove.
abbrev is_stale : (key company_id : ℕ) → List ℕ → Option Vehicle → Bool
is_stale key company_id ids none = false
is_stale key company_id ids (some v) = v.company_id == company_id && not (contains key ids)

contains-stale :
    (key company_id : ℕ) (ids : List ℕ) (d : Dict ℕ Vehicle)
    → Distinct (keys d)
    → contains key (stale company_id ids d) ≡ is_stale key company_id ids (lookup key d)
unfolding stale contains lookup
contains-stale key company_id ids [] h = refl
contains-stale key company_id ids ((k, v) ∷ d) (new, rest) = elim (Bool-cases (k == key)) [
  | inl own ↦
      let same : k ≡ key = (nat_eq.same_iff k key).0 own in
      let gone =
        stale-absent key company_id ids d (subst (λ j. contains j (keys d) ≡ false) same new) in
      ground (arith, own, same, gone)
  | inr other ↦ ground (arith, other, contains-stale key company_id ids d rest)
]

lookup-erase_all :
    (key : ℕ) (ids : List ℕ) (d : Dict ℕ Vehicle)
    → lookup key (erase_all ids d) ≡ (if contains key ids then none else lookup key d)
unfolding erase_all contains
lookup-erase_all key [] d = refl
lookup-erase_all key (k ∷ ids) d =
    ground (arith, lookup-erase_all key ids (erase k d), lookup-erase k key d)

-- A vehicle that is not this company's.
abbrev pub of_others : ℕ → Option Vehicle → Option Vehicle
of_others company_id none = none
of_others company_id (some v) = if v.company_id == company_id then none else some v

is_stale_reported :
    (key company_id : ℕ) (ids : List ℕ) (o : Option Vehicle)
    → contains key ids ≡ true
    → (if is_stale key company_id ids o then none else o) ≡ o
is_stale_reported key company_id ids none h = refl
is_stale_reported key company_id ids (some v) h = ground arith

is_stale_unreported :
    (key company_id : ℕ) (ids : List ℕ) (o : Option Vehicle)
    → contains key ids ≡ false
    → (if is_stale key company_id ids o then none else o) ≡ of_others company_id o
is_stale_unreported key company_id ids none h = refl
is_stale_unreported key company_id ids (some v) h = ground arith

lookup-keep-store :
    {Row Entity : Type 0} (id_of : Row → ℕ) (read : Row → Entity) (key : ℕ) (rows : List Row)
    (d : Dict ℕ Entity)
    → lookup key (keep (seen id_of read rows) (store id_of read rows d))
      ≡ last_or id_of read key rows none
lookup-keep-store id_of read key rows d =
    let ids = seen id_of read rows in
    let kept = lookup-keep key ids (store id_of read rows d) in
    elim (Bool-cases (contains key ids)) [
      | inl reported ↦
          kept
          ∙ rw reported (
              lookup-store id_of read key rows d
              ∙ last_or-seen id_of read key rows (lookup key d) none reported)
      | inr unreported ↦
          kept ∙ rw unreported (sym (last_or-unseen id_of read key rows none unreported))
    ]

-- After get_towns the towns are those of the reply, each as its last row says. After get_vehicles a
-- vehicle of the reply is as its last row says, one that the reply lacks is gone if it was the company's,
-- and stays as it was if not; for a table that has each id once.
pub apply_gs_tables :
    (key company_id : ℕ) (towns : List TownRow) (vehicles : List VehicleRow) (world : WorldState)
    → Distinct (keys world.vehicles)
    → let after = lookup key (apply_gs_vehicles company_id vehicles world).vehicles in
      let read = read_vehicle company_id in
      let reported = contains key (seen (λ row. row.id) read vehicles) in
      (lookup key (apply_gs_towns towns world).towns
        ≡ last_or (λ row. row.id) read_town key towns none)
      × (reported ≡ true → after ≡ last_or (λ row. row.id) read key vehicles none)
      × (reported ≡ false → after ≡ of_others company_id (lookup key world.vehicles))
unfolding apply_gs_towns apply_gs_vehicles
apply_gs_tables key company_id towns vehicles world distinct =
    let id_of = λ (row : VehicleRow). row.id in
    let read = read_vehicle company_id in
    let ids = seen id_of read vehicles in
    let stored = store id_of read vehicles world.vehicles in
    let found = lookup-store id_of read key vehicles world.vehicles in
    let removed =
      contains-stale key company_id ids stored
        (store-Distinct id_of read vehicles world.vehicles distinct) in
    let after =
      lookup-erase_all key (stale company_id ids stored) stored
      ∙ ap (λ t. if t then none else lookup key stored) removed in
    (
      lookup-keep-store (λ row. row.id) read_town key towns world.towns,
      λ reported.
          after
          ∙ is_stale_reported key company_id ids (lookup key stored) reported
          ∙ found
          ∙ last_or-seen id_of read key vehicles (lookup key world.vehicles) none reported,
      λ unreported.
          after
          ∙ is_stale_unreported key company_id ids (lookup key stored) unreported
          ∙ ap (of_others company_id) (
              found
              ∙ last_or-unseen id_of read key vehicles (lookup key world.vehicles) unreported),
    )

-- After get_stations a station that the reply lacks is as it was, the company's own included: a station
-- that no longer exists is never removed.
pub apply_gs_stations_keeps :
    (key company_id : ℕ) (results : List StationRow) (world : WorldState)
    → contains key (seen (λ row. row.id) (read_station company_id) results) ≡ false
    → lookup key (apply_gs_stations company_id results world).stations ≡ lookup key world.stations
unfolding apply_gs_stations
apply_gs_stations_keeps key company_id results world unreported =
    lookup-store (λ row. row.id) (read_station company_id) key results world.stations
    ∙ last_or-unseen (λ row. row.id) (read_station company_id) key results
        (lookup key world.stations) unreported
