-- ===== src/Pathfinding/Costs.antt =====
-- The cost functions of src/nttd/pathfinding/road.py, rail.py and water.py. A cost of -1 in the
-- source, a tile that cannot be entered, is `none`.
pub mod Road
pub mod Rail
pub mod Water
pub mod Positive
