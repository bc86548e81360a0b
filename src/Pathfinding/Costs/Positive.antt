-- ===== src/Pathfinding/Costs/Positive.antt =====
-- Every edge of the cost functions of src/nttd/pathfinding costs something, which is what the
-- search needs to end.
use nttd.Prelude.{
  ℕ, zero, suc, ◌<◌, ◌≡◌, refl, Bool, Option, none, some, List, [], ◌∷◌, ◌++◌, arith, All,
  All-append, Option-cases, Bool-cases, inl, inr,
}
use nttd.Prelude.Int.{ℤ, pos}
use nttd.Pathfinding.Node.{PathNode}
use nttd.Pathfinding.Tiles.{TileData, TileCache, get}
use nttd.Pathfinding.Grid.{Direction, directions, along}
use nttd.Pathfinding.Search.Invariant.{IsPositive}
use nttd.Pathfinding.Costs.Road
use nttd.Pathfinding.Costs.Rail
use nttd.Pathfinding.Costs.Water

abbrev Costs : List PathNode → Type 0
Costs ns = All (λ m. 0 < m.g_cost) ns

Water-tile_cost :
    (cache : TileCache) (tile : TileData) (node : PathNode) (c : ℕ)
    → Water.tile_cost cache tile node ≡ some c
    → 0 < c
unfolding Water.tile_cost
Water-tile_cost cache tile node c e = ground arith

Water-step : (cache : TileCache) (node : PathNode) (d : Direction) → Costs (Water.step cache node d)
unfolding Water.step
Water-step cache node d =
    elim (Option-cases (get cache (along node.x d.dx 1) (along node.y d.dy 1))) [
      | inl off ↦ rw (off, Water.step) tt
      | inr (tile, on) ↦
          rw (on, Water.step)
            (elim (Option-cases (Water.tile_cost cache tile node)) [
              | inl closed ↦ rw closed tt
              | inr (c, cost) ↦ rw cost (Water-tile_cost cache tile node c cost, tt)
            ])
    ]

Water-along :
    (cache : TileCache) (node : PathNode) (ds : List Direction)
    → Costs (Water.neighbors_along cache node ds)
unfolding Water.neighbors_along
Water-along cache node [] = tt
Water-along cache node (d ∷ ds) =
    All-append (λ m. 0 < m.g_cost) (Water.step cache node d) _ (Water-step cache node d)
      (Water-along cache node ds)

optional-Costs :
    (o : Option PathNode) → ((n : PathNode) → o ≡ some n → 0 < n.g_cost) → Costs (Road.optional o)
optional-Costs none h = tt
optional-Costs (some n) h = (h n refl, tt)

module _ (avoid_demolish : Bool) (company_id : ℤ) where
  Road-tile_cost :
      (tile : TileData) (c : ℕ) → Road.tile_cost avoid_demolish company_id tile ≡ some c → 0 < c
  unfolding Road.tile_cost
  Road-tile_cost tile c e = ground arith

  Rail-tile_cost :
      (tile : TileData) (entry_dir : Option ℕ) (new_dir c : ℕ)
      → Rail.tile_cost avoid_demolish company_id tile entry_dir new_dir ≡ some c
      → 0 < c
  unfolding Rail.tile_cost
  Rail-tile_cost tile entry_dir new_dir c e = ground arith

Road-bridge_from :
    (cache : TileCache) (sx sy : ℕ) (d : Direction) (start : ℤ) (rounds length : ℕ) (n : PathNode)
    → 0 < length
    → Road.bridge_from cache sx sy d start rounds length ≡ some n
    → 0 < n.g_cost
unfolding Road.bridge_from
Road-bridge_from cache sx sy d start zero length n h e = cc
Road-bridge_from cache sx sy d start (suc rounds) length n h e =
    ground (arith, Road-bridge_from cache sx sy d start rounds (suc length) n)

Road-tunnel_from :
    (cache : TileCache) (sx sy : ℕ) (d : Direction) (start : ℤ) (rounds length : ℕ) (n : PathNode)
    → 0 < length
    → Road.tunnel_from cache sx sy d start rounds length ≡ some n
    → 0 < n.g_cost
unfolding Road.tunnel_from
Road-tunnel_from cache sx sy d start zero length n h e = cc
Road-tunnel_from cache sx sy d start (suc rounds) length n h e =
    ground (arith, Road-tunnel_from cache sx sy d start rounds (suc length) n)

Road-try_bridge :
    (cache : TileCache) (sx sy : ℕ) (d : Direction) (n : PathNode)
    → Road.try_bridge cache sx sy d ≡ some n
    → 0 < n.g_cost
unfolding Road.try_bridge
Road-try_bridge cache sx sy d n e = elim (Option-cases (get cache (pos sx) (pos sy))) [
  | inl off ↦ absurd (cc)
  | inr (tile, on) ↦ ground (arith, Road-bridge_from cache sx sy d tile.height 9 2 n)
]

Road-try_tunnel :
    (cache : TileCache) (sx sy : ℕ) (d : Direction) (n : PathNode)
    → Road.try_tunnel cache sx sy d ≡ some n
    → 0 < n.g_cost
unfolding Road.try_tunnel
Road-try_tunnel cache sx sy d n e = elim (Option-cases (get cache (pos sx) (pos sy))) [
  | inl off ↦ absurd (cc)
  | inr (tile, on) ↦ ground (arith, Road-tunnel_from cache sx sy d tile.height 19 2 n)
]

Rail-bridge_from :
    (cache : TileCache) (sx sy : ℕ) (d : Direction) (start : ℤ) (rounds length : ℕ) (n : PathNode)
    → 0 < length
    → Rail.bridge_from cache sx sy d start rounds length ≡ some n
    → 0 < n.g_cost
unfolding Rail.bridge_from
Rail-bridge_from cache sx sy d start zero length n h e = cc
Rail-bridge_from cache sx sy d start (suc rounds) length n h e =
    ground (arith, Rail-bridge_from cache sx sy d start rounds (suc length) n)

Rail-tunnel_from :
    (cache : TileCache) (sx sy : ℕ) (d : Direction) (start : ℤ) (rounds length : ℕ) (n : PathNode)
    → 0 < length
    → Rail.tunnel_from cache sx sy d start rounds length ≡ some n
    → 0 < n.g_cost
unfolding Rail.tunnel_from
Rail-tunnel_from cache sx sy d start zero length n h e = cc
Rail-tunnel_from cache sx sy d start (suc rounds) length n h e =
    ground (arith, Rail-tunnel_from cache sx sy d start rounds (suc length) n)

Rail-try_bridge :
    (cache : TileCache) (sx sy : ℕ) (d : Direction) (n : PathNode)
    → Rail.try_bridge cache sx sy d ≡ some n
    → 0 < n.g_cost
unfolding Rail.try_bridge
Rail-try_bridge cache sx sy d n e = elim (Option-cases (get cache (pos sx) (pos sy))) [
  | inl off ↦ absurd (cc)
  | inr (tile, on) ↦ ground (arith, Rail-bridge_from cache sx sy d tile.height 5 2 n)
]

Rail-try_tunnel :
    (cache : TileCache) (sx sy : ℕ) (d : Direction) (n : PathNode)
    → Rail.try_tunnel cache sx sy d ≡ some n
    → 0 < n.g_cost
unfolding Rail.try_tunnel
Rail-try_tunnel cache sx sy d n e = elim (Option-cases (get cache (pos sx) (pos sy))) [
  | inl off ↦ absurd (cc)
  | inr (tile, on) ↦ ground (arith, Rail-tunnel_from cache sx sy d tile.height 5 2 n)
]

module _ (avoid_demolish : Bool) (company_id : ℤ) where
  Road-crossings :
      (cache : TileCache) (node : PathNode) (d : Direction)
      → Costs (
          Road.optional (Road.try_bridge cache node.x node.y d)
          ++ Road.optional (Road.try_tunnel cache node.x node.y d))
  Road-crossings cache node d =
      All-append (λ m. 0 < m.g_cost) (Road.optional (Road.try_bridge cache node.x node.y d)) _
        (optional-Costs _ (Road-try_bridge cache node.x node.y d))
        (optional-Costs _ (Road-try_tunnel cache node.x node.y d))

  Road-step :
      (cache : TileCache) (node : PathNode) (d : Direction)
      → Costs (Road.step avoid_demolish company_id cache node d)
  unfolding Road.step
  Road-step cache node d =
      elim (Option-cases (get cache (along node.x d.dx 1) (along node.y d.dy 1))) [
        | inl off ↦ rw (off, Road.step) tt
        | inr (tile, on) ↦
            rw (on, Road.step)
              (elim (Option-cases (Road.tile_cost avoid_demolish company_id tile)) [
                | inl closed ↦ rw closed (Road-crossings cache node d)
                | inr (c, cost) ↦ rw cost (Road-tile_cost avoid_demolish company_id tile c cost, tt)
              ])
      ]

  Road-along :
      (cache : TileCache) (node : PathNode) (ds : List Direction)
      → Costs (Road.neighbors_along avoid_demolish company_id cache node ds)
  unfolding Road.neighbors_along
  Road-along cache node [] = tt
  Road-along cache node (d ∷ ds) =
      All-append (λ m. 0 < m.g_cost) (Road.step avoid_demolish company_id cache node d) _
        (Road-step cache node d) (Road-along cache node ds)

module _ (avoid_demolish : Bool) (company_id : ℤ) where
  Rail-crossings :
      (cache : TileCache) (node : PathNode) (d : Direction)
      → Costs (
          Road.optional (Rail.try_bridge cache node.x node.y d)
          ++ Road.optional (Rail.try_tunnel cache node.x node.y d))
  Rail-crossings cache node d =
      All-append (λ m. 0 < m.g_cost) (Road.optional (Rail.try_bridge cache node.x node.y d)) _
        (optional-Costs _ (Rail-try_bridge cache node.x node.y d))
        (optional-Costs _ (Rail-try_tunnel cache node.x node.y d))

  Rail-step :
      (cache : TileCache) (node : PathNode) (d : Direction)
      → Costs (Rail.step avoid_demolish company_id cache node d)
  unfolding Rail.step
  Rail-step cache node d = elim (Bool-cases (Rail.reverses node.direction d.index)) [
    | inl back ↦ rw back tt
    | inr ahead ↦
        rw ahead (elim (Option-cases (get cache (along node.x d.dx 1) (along node.y d.dy 1))) [
          | inl off ↦ rw (off, Rail.step) tt
          | inr (tile, on) ↦
              rw (on, Rail.step)
                (elim (Option-cases
                  (Rail.tile_cost avoid_demolish company_id tile node.direction d.index)) [
                    | inl closed ↦
                        rw closed (elim (Bool-cases (Rail.goes_straight node.direction d.index)) [
                          | inl straight ↦ rw straight (Rail-crossings cache node d)
                          | inr bent ↦ rw bent tt
                        ])
                    | inr (c, cost) ↦ rw cost (
                      Rail-tile_cost avoid_demolish company_id tile node.direction d.index c cost,
                      tt,
                    )
                  ])
        ])
  ]

  Rail-along :
      (cache : TileCache) (node : PathNode) (ds : List Direction)
      → Costs (Rail.neighbors_along avoid_demolish company_id cache node ds)
  unfolding Rail.neighbors_along
  Rail-along cache node [] = tt
  Rail-along cache node (d ∷ ds) =
      All-append (λ m. 0 < m.g_cost) (Rail.step avoid_demolish company_id cache node d) _
        (Rail-step cache node d) (Rail-along cache node ds)

-- Every edge of the three cost functions costs something, on every map.
pub cost_functions-IsPositive :
    (avoid_demolish : Bool) (company_id : ℤ) (cache : TileCache)
    → IsPositive (Road.road_cost_function avoid_demolish company_id cache)
      × IsPositive (Rail.rail_cost_function avoid_demolish company_id cache)
      × IsPositive (Water.water_cost_function cache)
unfolding Road.road_cost_function Rail.rail_cost_function Water.water_cost_function
cost_functions-IsPositive avoid_demolish company_id cache = (
  (λ node. Road-along avoid_demolish company_id cache node directions),
  (λ node. Rail-along avoid_demolish company_id cache node directions),
  (λ node. Water-along cache node directions),
)
