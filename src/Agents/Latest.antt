-- ===== src/Agents/Latest.antt =====
-- An agent always gets the newest snapshot: what src/nttd/state/snapshot_broker.py promises.
use nttd.Prelude.{
  ℕ, zero, suc, ◌-◌, ◌≡◌, refl, sym, ap, ◌∙◌, ltb, Bool, true, false, Option, none, some, List, [],
  ◌∷◌, ◌++◌, take, length, Bool-cases, inl, inr, arith,
}
use nttd.Prelude.Int.{ℤ, pos, negsuc}
use mathlib.Core.List.{reverse, reverse-cons, reverse-reverse}
use nttd.Prelude.Slices.{
  length-reverse, take_whole, take_push, length-take, take_rest, reverse-drop, drop-reverse,
}
use nttd.Agents.Broker.{
  AgentSnapshotBroker, Call, push, wait, history_of, Answer, done, listed, answer_of, answer,
  answers, new_broker, put_nowait, get_nowait, offer, remember, push_snapshot, wait_for_snapshot,
  last_of, get_history,
}

module _ {A : Type 0} where
  remember-take :
      (limit : ℕ) (s : A) (all : List A)
      → remember limit s (reverse (take limit all)) ≡ reverse (take limit (s ∷ all))
  unfolding remember
  remember-take limit s all =
      let kept = take limit all in
      let few = length-take limit all in
      let longer : reverse kept ++ (s ∷ []) ≡ reverse (s ∷ kept) = sym (reverse-cons s kept) in
      let size = length-reverse (s ∷ kept) in
      let newest = ap reverse (take_push limit s all) in
      elim (Bool-cases (ltb limit (length (reverse (s ∷ kept))))) [
        | inl full ↦
            rw (longer, full) (drop-reverse limit 1 (s ∷ kept) (ground (arith, size, few)) ∙ newest)
        | inr room ↦
            rw (longer, room)
              (ap reverse (sym (take_whole limit (s ∷ kept) (ground (arith, size)))) ∙ newest)
      ]

-- What a broker promises, on all that was ever pushed, the newest first, and whether the newest is
-- still to be received.
pub record Published (A : Type 0) : Type 0 where
  pub all : List A
  pub unread : Bool

module _ {A : Type 0} where
  -- The newest, while it is unread.
  unfoldable pub queued : Bool → List A → Option A
  queued true (s ∷ all) = some s
  queued true [] = none
  queued false all = none

  -- The newest n, or all for 0; below 0, all but the oldest ones.
  unfoldable pub newest : ℤ → List A → List A
  newest (pos zero) kept = kept
  newest (pos (suc n)) kept = take (suc n) kept
  newest (negsuc n) kept = take (length kept - suc n) kept

  unfoldable pub promise_one : ℕ → Call A → Published A → Published A × Answer A
  promise_one limit (push s) p = (record { all = s ∷ p.all; unread = true }, done)
  promise_one limit wait p = (record p { unread = false }, answer_of (queued p.unread p.all))
  promise_one limit (history_of n) p = (p, listed (newest n (take limit p.all)))

  unfoldable pub promise : ℕ → List (Call A) → Published A → List (Answer A)
  promise limit [] p = []
  promise limit (c ∷ calls) p =
      let next = promise_one limit c p in next.1 ∷ promise limit calls next.0

  unfoldable queue_of : Bool → List A → List A
  queue_of true (s ∷ all) = s ∷ []
  queue_of true [] = []
  queue_of false all = []

  -- The broker that keeps a promise.
  abbrev broker_of : ℕ → Published A → AgentSnapshotBroker A
  broker_of limit p = record {
    queue = queue_of p.unread p.all;
    history = reverse (take limit p.all);
    maxlen = limit;
  }

  offer_queue :
      (s : A) (unread : Bool) (all : List A) → offer s (queue_of unread all) ≡ some (s ∷ [])
  unfolding offer put_nowait get_nowait queue_of
  offer_queue s true [] = refl
  offer_queue s true (x ∷ all) = refl
  offer_queue s false all = refl

  wait_promised :
      (limit : ℕ) (unread : Bool) (all : List A)
      → let b = broker_of limit (record { all = all; unread = unread }) in
        wait_for_snapshot b
        ≡ (broker_of limit (record { all = all; unread = false }), queued unread all)
  unfolding wait_for_snapshot queue_of queued
  wait_promised limit true [] = refl
  wait_promised limit true (x ∷ all) = refl
  wait_promised limit false all = refl

  get_history_promised :
      (n : ℤ) (kept : List A) → reverse (last_of n (reverse kept)) ≡ newest n kept
  unfolding last_of newest
  get_history_promised (pos zero) kept = reverse-reverse kept
  get_history_promised (pos (suc n)) kept =
      let size = length-reverse kept in
      let rest = length (reverse kept) - suc n in
      let m = length (reverse kept) - rest in
      reverse-drop m rest (reverse kept) refl
      ∙ ap (take m) (reverse-reverse kept)
      ∙ take_rest m (suc n) kept (omega (arith, size))
  get_history_promised (negsuc n) kept =
      reverse-drop (length kept - suc n) (suc n) (reverse kept) (omega (arith, length-reverse kept))
      ∙ ap (take (length kept - suc n)) (reverse-reverse kept)

  answer_promised :
      (limit : ℕ) (c : Call A) (p : Published A)
      → let next = promise_one limit c p in
        answer c (broker_of limit p) ≡ some (broker_of limit next.0, next.1)
  unfolding answer push_snapshot promise_one get_history queue_of
  answer_promised limit (push s) p =
      rw (offer_queue s p.unread p.all, push_snapshot, remember-take limit s p.all, answer) refl
  answer_promised limit wait p =
      ap (λ r. some (r.0, answer_of r.1)) (wait_promised limit p.unread p.all)
  answer_promised limit (history_of n) p =
      ap (λ snaps. some (broker_of limit p, listed snaps))
        (get_history_promised n (take limit p.all))

  answers_promised :
      (limit : ℕ) (calls : List (Call A)) (p : Published A)
      → answers calls (broker_of limit p) ≡ some (promise limit calls p)
  unfolding answers promise
  answers_promised limit [] p = refl
  answers_promised limit (c ∷ calls) p =
      rw
        (
          answer_promised limit c p,
          answers,
          answers_promised limit calls (promise_one limit c p).0,
          answers,
        )
        refl

  -- A new broker answers any calls, in any order and without an exception, as it promises: a wait receives
  -- the newest of all snapshots pushed unless that was received before, when it has to wait, and a
  -- history lists, newest first, as many of the newest that the broker keeps as the call asks for: all
  -- for 0, all but the oldest ones for a negative number.
  pub answers-new_broker :
      (limit : ℕ) (calls : List (Call A))
      → answers calls (new_broker limit)
        ≡ some (promise limit calls (record { all = []; unread = false }))
  unfolding queue_of
  answers-new_broker limit calls =
      let fresh : Published A = record { all = []; unread = false } in
      let nothing : take limit [] ≡ [] = take_whole limit [] (omega arith) in
      ap (λ kept. answers calls (record { queue = []; history = reverse kept; maxlen = limit }))
        (sym nothing)
      ∙ answers_promised limit calls fresh
