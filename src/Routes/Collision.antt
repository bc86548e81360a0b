-- ===== src/Routes/Collision.antt =====
-- Two groups of vehicles with one route identifier, in src/nttd/state/route_registry.py.
use nttd.Prelude.{ℕ, ◌≡◌, refl, String, some, [], ◌∷◌, map, string_eq}
use nttd.Prelude.Dict.{Dict, lookup, lookup-insert_self}
use nttd.Routes.{Route, Group, sort_ids, refresh}
use nttd.Routes.Registry.{Digest, make_route_id, route_for, update_route, update_routes}

-- Where two groups of one company and one kind of vehicle serve the same stations in another order,
-- the route that they share lists the vehicles of the later group only, after both are reconciled.
pub update_routes_overwrite :
    (digest : Digest) (game_date : ℕ) (g h : Group) (routes : Dict String Route)
    → g.company_id ≡ h.company_id
    → g.vehicle_type ≡ h.vehicle_type
    → sort_ids g.station_ids ≡ sort_ids h.station_ids
    → (route : Route) × (lookup
          (make_route_id digest g.company_id g.vehicle_type g.station_ids)
          (update_routes digest game_date (g ∷ h ∷ []) routes []).0
        ≡ some route)
      × (route.vehicle_ids ≡ map (λ v. v.id) h.members)
unfolding update_routes update_route make_route_id refresh
update_routes_overwrite digest game_date g h routes company kind ids =
    let rid = make_route_id digest h.company_id h.vehicle_type h.station_ids in
    let updated = update_route digest game_date g routes in
    (
      refresh game_date h.members (route_for digest rid game_date h updated),
      rw company (rw kind (rw ids (lookup-insert_self _ _ _))),
      refl,
    )
