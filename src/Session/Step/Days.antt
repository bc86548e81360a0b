-- ===== src/Session/Step/Days.antt =====
-- How many days a step of src/nttd/runtime/orchestrator.py takes.
use nttd.Prelude.{
  ℕ, zero, suc, ◌≤◌, ◌<◌, ◌≡◌, refl, String, Bool, true, false, List, ◌==◌, nat_eq, Bool-cases, inl,
  inr, arith,
}
use nttd.Prelude.Int.{pos, pos_part, ◌-ℤ◌, -ℤ_parts}
use nttd.Json.{Payload}
use nttd.Session.Footprint.{Area}
use nttd.Session.Batch.{Game, Outcome}
use nttd.Session.Cycle.{Query, Tables, refresh_world_from_gs, refresh_world_from_gs_keeps}
use nttd.Session.Step.{
  Clock, Stepper, polls_for, pause, unpause, poll, wait_until_game_date, observe,
}

module _ {W T A : Type 0} (game : Game W T) (tables : Tables W A) (clock : Clock W) where
  -- The world stands still at a date.
  abbrev pub IsStill : ℕ → W → Type 0
  IsStill date w = (clock.date w ≡ date) × (clock.is_paused w ≡ true)

  -- A paused game has no days, and an await of a running one takes at most one.
  pub record IsSteady : Type 0 where
    pub date-set_date : (n : ℕ) (w : W) → clock.date (clock.set_date n w) ≡ n
    pub is_paused-set_date :
        (n : ℕ) (w : W) → clock.is_paused (clock.set_date n w) ≡ clock.is_paused w
    pub date-set_paused : (b : Bool) (w : W) → clock.date (clock.set_paused b w) ≡ clock.date w
    pub is_paused-set_paused : (b : Bool) (w : W) → clock.is_paused (clock.set_paused b w) ≡ b
    pub date-snapshot : (w : W) → (clock.snapshot w).game_date ≡ pos (clock.date w)
    pub send_still :
        (n : ℕ) (action : String) (params : Payload) (w : W)
        → IsStill n w
        → IsStill n (game.send_gamescript action params w).0
    pub read_still : (n : ℕ) (a : Area) (w : W) → IsStill n w → IsStill n (game.get_tile_area a w).0
    pub ask_still : (n : ℕ) (q : Query) (w : W) → IsStill n w → IsStill n (tables.ask q w).0
    pub apply_still :
        (n : ℕ) (q : Query) (a : A) (w : W) → IsStill n w → IsStill n (tables.apply q a w).0
    pub get_date_still : (n : ℕ) (w : W) → IsStill n w → IsStill n (clock.get_date w).0
    pub sleep_still : (n : ℕ) (w : W) → IsStill n w → IsStill n (clock.sleep w)
    pub sleep_forward : (w : W) → clock.date w ≤ clock.date (clock.sleep w)
    pub sleep_steps : (w : W) → clock.date (clock.sleep w) ≤ suc (clock.date w)
    pub send_rcon_forward : (b : Bool) (w : W) → clock.date w ≤ clock.date (clock.send_rcon b w).0
    pub send_rcon_steps :
        (b : Bool) (w : W) → clock.date (clock.send_rcon b w).0 ≤ suc (clock.date w)

  module _ (steady : IsSteady) where
    -- The wait for a date that is not reached yet ends on it at the latest.
    poll_bounds :
        (rounds target : ℕ) (w : W)
        → clock.date w < target
        → (clock.date w ≤ clock.date (poll game tables clock rounds (pos target) w))
          × (clock.date (poll game tables clock rounds (pos target) w) ≤ target)
    unfolding poll
    poll_bounds zero target w early = (omega arith, omega arith)
    poll_bounds (suc rounds) target w early =
        let w₁ = clock.sleep w in
        let forward = steady.sleep_forward w in
        let steps = steady.sleep_steps w in let more = poll_bounds rounds target w₁ in ground arith

    pub wait_bounds :
        (target : ℕ) (w : W)
        → clock.date w ≤ target
        → (clock.date w ≤ clock.date (wait_until_game_date game tables clock (pos target) w))
          × (clock.date (wait_until_game_date game tables clock (pos target) w) ≤ target)
    unfolding wait_until_game_date
    wait_bounds target w early =
        let remaining = pos_part (pos target -ℤ pos (clock.date w)) in
        let parts = -ℤ_parts (pos target) (pos (clock.date w)) in
        elim (Bool-cases (remaining == 0)) [
          | inl here ↦ rw here (omega arith, early)
          | inr ahead ↦
              rw ahead (poll_bounds (polls_for remaining) target w (ground (arith, parts)))
        ]

    settled : (w : W) → let w' = clock.sleep (clock.set_paused true w) in IsStill (clock.date w) w'
    settled w =
        steady.sleep_still (clock.date w) (clock.set_paused true w)
          (steady.date-set_paused true w, steady.is_paused-set_paused true w)

    pub pause_bounds :
        (w : W)
        → (pause game tables clock w).1 ≡ true
        → let w' = (pause game tables clock w).0 in
          (clock.is_paused w' ≡ true)
          × (clock.date w ≤ clock.date w')
          × (clock.date w' ≤ suc (clock.date w))
    unfolding pause
    pause_bounds w done =
        let told = clock.send_rcon true w in
        let forward = steady.send_rcon_forward true w in
        let steps = steady.send_rcon_steps true w in
        let still = settled w in let still₁ = settled told.0 in ground arith

    pub unpause_bounds :
        (w : W)
        → let w' = (unpause game tables clock w).0 in
          (clock.date w ≤ clock.date w') × (clock.date w' ≤ suc (clock.date w))
    unfolding unpause
    unpause_bounds w =
        let told = clock.send_rcon false w in
        let forward = steady.send_rcon_forward false w in
        let steps = steady.send_rcon_steps false w in
        let same = steady.date-set_paused false w in
        let same₁ = steady.date-set_paused false told.0 in ground arith

    pub observe_days :
        (n start : ℕ) (outcomes : List Outcome) (s : Stepper W T)
        → IsStill n s.session.world
        → (observe game tables clock start outcomes s).1.days_advanced
          ≡ pos_part (pos n -ℤ pos start)
    unfolding observe
    observe_days n start outcomes s still =
        let world = s.session.world in
        let after =
          refresh_world_from_gs_keeps tables (IsStill n) (steady.ask_still n) (steady.apply_still n)
            (game.connected world) s.refresh_cycle world still in
        let w = (refresh_world_from_gs tables (game.connected world) s.refresh_cycle world).1 in
        rw (steady.date-snapshot w, after.0) refl
