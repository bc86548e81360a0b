-- ===== src/Pathfinding/Costs/Rail.antt =====
-- src/nttd/pathfinding/rail.py: as for roads, with the direction of travel in the node.
use nttd.Prelude.{
  ℕ, zero, suc, ◌+◌, ◌*◌, ◌/◌, Bool, true, false, not, ◌&&◌, ◌||◌, Option, none, some, List, [],
  ◌∷◌, ◌++◌, ◌-◌, ◌%◌, ◌==◌, nat_eq, if◌then◌else◌,
}
use nttd.Prelude.Int.{ℤ, pos, leb_ℤ, eqb_ℤ}
use nttd.Pathfinding.Node.{PathNode, CostFunction}
use nttd.Pathfinding.Tiles.{TileData, TileCache, get}
use nttd.Pathfinding.Costs.Road.{made, optional}
use Prim.Native.Nat.{min, max}
use nttd.Pathfinding.Grid.{Direction, directions, along, distance}

abbrev cost_flat : ℕ
cost_flat = 100

abbrev cost_slope : ℕ
cost_slope = 200

abbrev cost_curve_45 : ℕ
cost_curve_45 = 100

abbrev cost_bridge_per_tile : ℕ
cost_bridge_per_tile = 150

abbrev cost_tunnel_per_tile : ℕ
cost_tunnel_per_tile = 120

abbrev cost_demolish : ℕ
cost_demolish = 500

abbrev cost_crossing : ℕ
cost_crossing = 300

abbrev max_bridge_length : ℕ
max_bridge_length = 6

abbrev max_tunnel_length : ℕ
max_tunnel_length = 6

-- The loop over `length` of `_try_bridge`. `rounds` counts the lengths that are left.
unfoldable pub bridge_from :
    TileCache → ℕ → ℕ → Direction → ℤ → (rounds length : ℕ) → Option PathNode
bridge_from cache sx sy d start_height zero length = none
bridge_from cache sx sy d start_height (suc rounds) length =
    let bx = along sx d.dx length in
    let by = along sy d.dy length in
    let onward = bridge_from cache sx sy d start_height rounds (suc length) in
    elim (get cache bx by) [
      | none ↦ none
      | some end_tile ↦
          if end_tile.water || end_tile.is_station
          then onward
          else if not end_tile.buildable && not end_tile.has_rail
          then onward
          else if eqb_ℤ end_tile.height start_height
          then some (
              made (length * cost_bridge_per_tile) bx by (some d.index) "build_bridge"
                (("bridge_from_x", sx) ∷ ("bridge_from_y", sy) ∷ ("length", length) ∷ []))
          else onward
    ]

unfoldable pub try_bridge : TileCache → ℕ → ℕ → Direction → Option PathNode
try_bridge cache sx sy d = elim (get cache (pos sx) (pos sy)) [
  | none ↦ none
  | some start ↦ bridge_from cache sx sy d start.height 5 2
]

unfoldable pub tunnel_from :
    TileCache → ℕ → ℕ → Direction → ℤ → (rounds length : ℕ) → Option PathNode
tunnel_from cache sx sy d start_height zero length = none
tunnel_from cache sx sy d start_height (suc rounds) length =
    let tx = along sx d.dx length in
    let ty = along sy d.dy length in
    let onward = tunnel_from cache sx sy d start_height rounds (suc length) in
    elim (get cache tx ty) [
      | none ↦ none
      | some end_tile ↦
          if not (leb_ℤ start_height end_tile.height)
          then none
          else if eqb_ℤ end_tile.height start_height && not (eqb_ℤ end_tile.slope (pos 0))
          then some (
              made (length * cost_tunnel_per_tile) tx ty (some d.index) "build_tunnel"
                (("tunnel_from_x", sx) ∷ ("tunnel_from_y", sy) ∷ ("length", length) ∷ []))
          else onward
    ]

unfoldable pub try_tunnel : TileCache → ℕ → ℕ → Direction → Option PathNode
try_tunnel cache sx sy d = elim (get cache (pos sx) (pos sy)) [
  | none ↦ none
  | some start ↦
      if eqb_ℤ start.slope (pos 0) then none else tunnel_from cache sx sy d start.height 5 2
]

-- The turn from one direction into another: 0 straight, 1 and 3 a curve, 2 a reversal.
unfoldable pub turn : ℕ → ℕ → ℕ
turn entry_dir new_dir = ((new_dir - entry_dir) + (entry_dir - new_dir)) % 4

-- The turn penalty. `none` is the reversal that the source refuses once more.
unfoldable pub turned : Option ℕ → ℕ → ℕ → Option ℕ
unfolding turn
turned none new_dir cost = some cost
turned (some entry_dir) new_dir cost =
    let t = turn entry_dir new_dir in
    if t == 0
    then some cost
    else if t == 1 || t == 3
    then some (cost + cost_curve_45)
    else if t == 2
    then none
    else some cost

-- `entry_dir >= 0 and (new_dir + 2) % 4 == entry_dir`
unfoldable pub reverses : Option ℕ → ℕ → Bool
reverses none new_dir = false
reverses (some entry_dir) new_dir = (new_dir + 2) % 4 == entry_dir

-- `entry_dir < 0 or new_dir == entry_dir`
unfoldable pub goes_straight : Option ℕ → ℕ → Bool
goes_straight none new_dir = true
goes_straight (some entry_dir) new_dir = new_dir == entry_dir

-- Both loops run over the lengths 2 to 6.
module _ (avoid_demolish : Bool) (company_id : ℤ) where
  abbrev surface_cost : TileData → ℕ → Option ℕ
  surface_cost tile cost =
      let crossed = if tile.has_road then cost + cost_crossing else cost in
      if tile.has_rail
      then if leb_ℤ (pos 0) tile.owner && not (eqb_ℤ tile.owner company_id)
        then none
        else some (cost / 2)
      else if not tile.buildable && not tile.has_rail
      then if avoid_demolish then none else some (crossed + cost_demolish)
      else some crossed

  unfoldable pub tile_cost : TileData → Option ℕ → ℕ → Option ℕ
  unfolding turned
  tile_cost tile entry_dir new_dir =
      let sloped = if not (eqb_ℤ tile.slope (pos 0)) then cost_flat + cost_slope else cost_flat in
      if tile.is_station || tile.water then none else elim (turned entry_dir new_dir sloped) [
        | none ↦ none
        | some cost ↦ surface_cost tile cost
      ]

  -- What one direction adds to the result.
  unfoldable pub step : TileCache → PathNode → Direction → List PathNode
  step cache node d =
      let nx = along node.x d.dx 1 in
      let ny = along node.y d.dy 1 in
      if reverses node.direction d.index then [] else elim (get cache nx ny) [
        | none ↦ []
        | some tile ↦ elim (tile_cost tile node.direction d.index) [
          | some cost ↦
              made cost nx ny (some d.index) (if not tile.has_rail then "build_rail" else "move") []
              ∷ []
          | none ↦
              if goes_straight node.direction d.index
              then optional (try_bridge cache node.x node.y d)
                ++ optional (try_tunnel cache node.x node.y d)
              else []
        ]
      ]

  unfoldable pub neighbors_along : TileCache → PathNode → List Direction → List PathNode
  neighbors_along cache node [] = []
  neighbors_along cache node (d ∷ ds) = step cache node d ++ neighbors_along cache node ds

  unfoldable pub rail_cost_function : TileCache → CostFunction
  rail_cost_function cache = record {
    heuristic = λ x1 y1 x2 y2.
        let dx = distance x1 x2 in
        let dy = distance y1 y2 in min dx dy * 71 + (max dx dy - min dx dy) * cost_flat;
    neighbors = λ node. neighbors_along cache node directions;
  }
