-- ===== src/Lib.antt =====
-- nttd runs OpenTTD for agents: a session starts a game, agents send actions for their companies and
-- read snapshots of the world, the run ends on declared conditions, and what it leaves is a bundle
-- that others can check. This library models the parts that decide, in Python under src/nttd.
--
-- The parts, and the files that model them:
--   Calendar: utils/game_date.py, days to years and back.
--   EndConditions: runtime/end_conditions.py, with the limits of config/scenario_config.py. The
--     checker is a record; `check` counts a heartbeat, evaluates each condition in the source's
--     order and decides by the logic "all" or any other. It reads years through Calendar.
--   StepGate: runtime/step_gate.py and step_errors.py. `arrive` is cut at its `await` into `begin`
--     and `finish`; StepGate/Schedule has every interleaving of calls as a step relation.
--   Actions: constants.py (Vocabulary), actions/gate.py (Gate), actions/gs_reply.py (Reply) and
--     actions/tracker.py (Tracker): an action is admitted, tracked, sent, and its reply is read.
--   Pathfinding: pathfinding/astar.py (Node, Search), pathfinding/tile_cache.py (Tiles) and the
--     cost functions road.py, rail.py and water.py (Costs), which read the tile cache.
--   Bridge: bridge/admin_client.py, poll_packet.py, command_names.py and bridge.py. Wire has the frames,
--     CommandNames the table of names, Client the requests to the GameScript: `send`, `receive` for
--     each packet, and `finish` or `time_out`. Merge puts chunks together, Release has the runs.
--   Session: runtime/orchestrator.py. Batch runs the actions of a step through the admission check, the
--     tracker and the bridge; Footprint (state/tile_footprint.py, with Named for the points that an
--     action gives) and Refresh choose and read the
--     tiles that may have changed. Cycle asks for the tables of the world, and Step is a step of a stepped
--     session, with its days in Days, Arrival and Whole and its numbers in Count.
--   World: state/world.py, the tables that replies fill, with Companies/Rows for what the rows of
--     one company say. GameText: utils/game_text.py, with Observation for whole observations.
--   Terrain: store/terrain_scan.py. Json: what the parameters and replies of actions hold.
--   Agents: state/snapshot_broker.py (Broker), with Latest for what it promises, and
--     state/agent_registry.py (Registry), with Apart for one agent among others.
--   ScoredLock: runtime/scored_lock.py. Participants: runtime/participant_registry.py.
--   Config: config/scenario_config.py and config/benchmark_profile.py. Tree reads the parsed file, Profile
--     has the rules of scored runs, Validate and Scored the checks, Settings and Export the settings of the
--     game, Load what the session keeps, and Apply (runtime/session_manager.py) the end conditions it takes
--     back from the settings. Conditions has the conditions of a scenario in words, for Admission; Written what a
--     setting holds; Limits, MapSize and Locked follow a value from the file to the game.
--   Verify: verify/checks.py, verify/replay.py and verify/validator.py, the checks of a bundle. The
--     forbidden capabilities are the operator actions of Actions/Vocabulary.
--   Routes: state/route_registry.py and schemas/route.py.
--   Prelude holds what the parts share: tests, lists, dictionaries, integers. Examples has tests.
--
-- State is passed explicitly; a mutable object is a record, a Python dict a list of pairs in
-- insertion order, an exception or an absent value a sum or an Option. Numbers are not bounded, as
-- in Python; floats are whole millionths. Messages are the values that they are made of.
--
-- Fuel: `search` takes the source's own iteration budget; the walk back along the parents takes one
-- more than the cost of its first node, which is enough where each edge costs something, since the
-- cost falls at each parent; `range_by` takes one more than the end of the range, which is enough
-- since each step adds a batch. The loop over the years recurses on the days that remain.
-- `read_bands` takes the number of rows, since each band has one at least; `parse_names` the length of
-- the table; `halvings` takes the number itself, which is more than its halvings; `poll` has the rounds
-- of the source, in exact decimals; the terrain scan goes on as long as the game says, and ends by the last
-- row it names.
--
-- Parameters: what Python's `int`, `float` and `str` make of a text or a value (Texts), what
-- pydantic reads of a text as an int (Game; a company_id that is no int ends the batch), the rules
-- in profile.conf and their digest, what the other tasks of a session do at an await (Clock,
-- Tables), the game behind the bridge, the decoding of UTF-8, the type of JSON values, the clock,
-- `heapq` (an interface that a sorted list fills), the GameScript client, the digest of a route
-- identifier, new tokens, the error tables, and for a bundle its files with their digests and what
-- OpenTTD answers about its save and seed.
--
-- Not modelled: the HTTP interface, command line, monitor, reports, MCP server and learning
-- environment, which call these parts; sockets, the reconnect loop, process handling and Parquet files,
-- which are input and output; the heartbeat and realtime loops of the orchestrator and the other tables of
-- the world; the GameScript, which is not Python; and the text of messages.
pub mod Prelude
pub mod Calendar
pub mod Config
pub mod EndConditions
pub mod Json
pub mod Bridge
pub mod Session
pub mod Terrain
pub mod GameText
pub mod World
pub mod StepGate
pub mod Actions
pub mod Agents
pub mod Pathfinding
pub mod ScoredLock
pub mod Participants
pub mod Verify
pub mod Routes
pub mod Examples
