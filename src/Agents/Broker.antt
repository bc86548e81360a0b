-- ===== src/Agents/Broker.antt =====
-- The snapshots that wait for an agent: src/nttd/state/snapshot_broker.py.
use nttd.Prelude.{
  ℕ, zero, suc, ◌-◌, ltb, Option, none, some, List, [], ◌∷◌, ◌++◌, drop, length, if◌then◌else◌,
}
use nttd.Prelude.Int.{ℤ, pos, negsuc}
use mathlib.Core.List.{reverse}

module _ (Snapshot : Type 0) where
  -- `asyncio.Queue(maxsize=1)` lists its items, the next one first, and the deque its entries, the
  -- oldest first, with the length that it keeps.
  pub record AgentSnapshotBroker : Type 0 where
    pub queue : List Snapshot
    pub history : List Snapshot
    pub maxlen : ℕ

  -- The calls that an agent's broker answers.
  pub data Call : Type 0 where
    push : Snapshot → Call
    wait : Call
    history_of : ℤ → Call

  -- `waiting` is the suspension of `await self._queue.get()` on an empty queue.
  pub data Answer : Type 0 where
    done : Answer
    waiting : Answer
    received : Snapshot → Answer
    listed : List Snapshot → Answer

module _ {Snapshot : Type 0} where
  abbrev pub new_broker : ℕ → AgentSnapshotBroker Snapshot
  new_broker history_len = record { queue = []; history = []; maxlen = history_len }

  -- `put_nowait` on a queue of at most one item, or `QueueFull`.
  unfoldable pub put_nowait : Snapshot → List Snapshot → Option (List Snapshot)
  put_nowait s [] = some (s ∷ [])
  put_nowait s (x ∷ xs) = none

  -- The items that `get_nowait` leaves; an empty queue raises `QueueEmpty`, which is ignored.
  unfoldable pub get_nowait : List Snapshot → List Snapshot
  get_nowait [] = []
  get_nowait (x ∷ xs) = xs

  -- The queue after the put, which is tried again once an item was dropped. None is a second
  -- `QueueFull`, which leaves `push_snapshot`.
  unfoldable pub offer : Snapshot → List Snapshot → Option (List Snapshot)
  offer s queue = elim (put_nowait s queue) [
    | some put ↦ some put
    | none ↦ put_nowait s (get_nowait queue)
  ]

  -- `append` on the deque, which drops its oldest entry when it is too long.
  unfoldable pub remember : ℕ → Snapshot → List Snapshot → List Snapshot
  remember maxlen s history =
      let longer = history ++ (s ∷ []) in
      if ltb maxlen (length longer) then drop 1 longer else longer

  -- None is an exception.
  unfoldable pub push_snapshot :
      Snapshot → AgentSnapshotBroker Snapshot → Option (AgentSnapshotBroker Snapshot)
  push_snapshot s b = elim (offer s b.queue) [
    | none ↦ none
    | some queue ↦ some (record b { queue = queue; history = remember b.maxlen s b.history })
  ]

  unfoldable pub wait_for_snapshot :
      AgentSnapshotBroker Snapshot → AgentSnapshotBroker Snapshot × Option Snapshot
  wait_for_snapshot b = elim b.queue [
    | [] ↦ (b, none)
    | s ∷ queue ↦ (record b { queue = queue }, some s)
  ]

  -- The slice `snaps[-n:]`: `-0` is 0, which begins at the oldest, and a negative n counts from there.
  unfoldable pub last_of : ℤ → List Snapshot → List Snapshot
  last_of (pos zero) snaps = snaps
  last_of (pos (suc n)) snaps = drop (length snaps - suc n) snaps
  last_of (negsuc n) snaps = drop (suc n) snaps

  unfoldable pub get_history : ℤ → AgentSnapshotBroker Snapshot → List Snapshot
  get_history n b = reverse (last_of n b.history)

  abbrev pub answer_of : Option Snapshot → Answer Snapshot
  answer_of none = waiting
  answer_of (some s) = received s

  unfoldable pub answer :
      Call Snapshot
      → AgentSnapshotBroker Snapshot
      → Option (AgentSnapshotBroker Snapshot × Answer Snapshot)
  answer (push s) b = elim (push_snapshot s b) [ none ↦ none | some after ↦ some (after, done) ]
  answer wait b = let (after, got) = wait_for_snapshot b in some (after, answer_of got)
  answer (history_of n) b = some (b, listed (get_history n b))

  -- The answers to the calls in turn, or none if one of them raises.
  unfoldable pub answers :
      List (Call Snapshot) → AgentSnapshotBroker Snapshot → Option (List (Answer Snapshot))
  answers [] b = some []
  answers (c ∷ calls) b = elim (answer c b) [
    | none ↦ none
    | some (after, first) ↦ elim (answers calls after) [
      | none ↦ none
      | some rest ↦ some (first ∷ rest)
    ]
  ]
