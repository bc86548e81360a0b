-- ===== src/Pathfinding.antt =====
-- src/nttd/pathfinding: A* over the tile cache, with a cost function for each kind of transport.
pub mod Node
pub mod Heap
pub mod Search
pub mod Tiles
pub mod Grid
pub mod Costs
