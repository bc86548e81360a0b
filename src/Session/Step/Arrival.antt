-- ===== src/Session/Step/Arrival.antt =====
-- Whether the wait of a step in src/nttd/runtime/orchestrator.py reaches its date.
use nttd.Prelude.{
  ℕ, zero, suc, ◌+◌, ◌-◌, ◌*◌, ◌≤◌, ◌≡◌, ◌⊎◌, refl, ◌∙◌, true, false, ◌==◌, nat_eq, Bool-cases, inl,
  inr, arith,
}
use nttd.Prelude.Int.{pos, pos_part, ◌-ℤ◌, leb_ℤ, -ℤ_parts}
use nttd.Session.Batch.{Game}
use nttd.Session.Cycle.{Tables}
use nttd.Session.Step.{Clock, polls_for, poll, wait_until_game_date}
use nttd.Session.Step.Days.{IsSteady}

module _ {W T A : Type 0} (game : Game W T) (tables : Tables W A) (clock : Clock W) where
  abbrev pub sleeps : ℕ → W → W
  sleeps zero w = w
  sleeps (suc n) w = sleeps n (clock.sleep w)

  -- Nobody stops the session, and a running game has a day at least every 29 polls: 5.8 seconds, where a
  -- day takes 1.97.
  pub record IsTicking : Type 0 where
    pub unstopped : (w : W) → clock.is_running w ≡ true
    pub is_paused-sleep : (w : W) → clock.is_paused (clock.sleep w) ≡ clock.is_paused w
    pub day_passes :
        (w : W) → clock.is_paused w ≡ false → suc (clock.date w) ≤ clock.date (sleeps 29 w)

  module _ (steady : IsSteady game tables clock) (ticking : IsTicking) where
    is_paused-sleeps : (n : ℕ) (w : W) → clock.is_paused (sleeps n w) ≡ clock.is_paused w
    is_paused-sleeps zero w = refl
    is_paused-sleeps (suc n) w = is_paused-sleeps n (clock.sleep w) ∙ ticking.is_paused-sleep w

    -- Some rounds on, the wait is over or goes on from there.
    poll_on :
        (n rounds all target : ℕ) (w : W)
        → all ≡ n + rounds
        → (target ≤ clock.date (poll game tables clock all (pos target) w))
          ⊎ (poll game tables clock all (pos target) w
              ≡ poll game tables clock rounds (pos target) (sleeps n w))
    unfolding poll
    poll_on zero rounds all target w same =
        let done : all ≡ rounds = omega (arith, same) in rw done (inr refl)
    poll_on (suc n) rounds zero target w same = absurd (omega (arith, same))
    poll_on (suc n) rounds (suc all) target w same =
        let w₁ = clock.sleep w in
        let more = poll_on n rounds all target w₁ (omega (arith, same)) in
        let unstopped = ticking.unstopped w₁ in
        elim (Bool-cases (leb_ℤ (pos target) (pos (clock.date w₁)))) [
          | inl there ↦ rw there (inl (ground arith))
          | inr before ↦ rw (before, unstopped) more
        ]

    poll_past :
        (rounds target : ℕ) (w : W)
        → target ≤ clock.date w
        → target ≤ clock.date (poll game tables clock rounds (pos target) w)
    unfolding poll
    poll_past zero target w past = past
    poll_past (suc rounds) target w past =
        let forward = steady.sleep_forward w in
        let more = poll_past rounds target (clock.sleep w) in ground arith

    poll_arrives :
        (days rounds target : ℕ) (w : W)
        → clock.is_paused w ≡ false
        → days * 29 ≤ rounds
        → target ≤ clock.date w + days
        → target ≤ clock.date (poll game tables clock rounds (pos target) w)
    poll_arrives zero rounds target w running enough near =
        poll_past rounds target w (omega (arith, near))
    poll_arrives (suc days) rounds target w running enough near =
        let rest = rounds - 29 in
        let day = ticking.day_passes w running in
        let still_running = is_paused-sleeps 29 w ∙ running in
        let more =
          poll_arrives days rest target (sleeps 29 w) still_running (omega (arith, enough))
            (omega (arith, near, day)) in
        elim (poll_on 29 rest rounds target w (omega (arith, enough))) [
          | inl over ↦ over
          | inr on ↦ rw on more
        ]

    pub wait_arrives :
        (target : ℕ) (w : W)
        → clock.is_paused w ≡ false
        → target ≤ clock.date (wait_until_game_date game tables clock (pos target) w)
    unfolding wait_until_game_date
    wait_arrives target w running =
        let remaining = pos_part (pos target -ℤ pos (clock.date w)) in
        let parts = -ℤ_parts (pos target) (pos (clock.date w)) in
        let enough : remaining * 29 ≤ polls_for remaining = ground arith in
        elim (Bool-cases (remaining == 0)) [
          | inl here ↦ rw here (ground (arith, parts))
          | inr ahead ↦ rw ahead (
              poll_arrives remaining (polls_for remaining) target w running enough
                (omega (arith, parts)))
        ]
