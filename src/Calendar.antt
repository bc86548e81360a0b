-- ===== src/Calendar.antt =====
-- src/nttd/utils/game_date.py: game dates, counted in days since year 0, and calendar years.
pub mod Years
use mathlib.Core.Logic.{dite}
use mathlib.Core.WellFounded.{Acc}
use native.Mathlib.Decide.{dec_lt}
use nttd.Prelude.{
  ℕ, zero, suc, ◌+◌, ◌-◌, ◌*◌, ◌/◌, ◌%◌, ◌≤◌, ◌<◌, Bool, not, ◌&&◌, ◌||◌, arith, ◌==◌, nat_eq,
  if◌then◌else◌,
}
use nttd.Prelude.Int.{ℤ, pos, negsuc}
use nttd.Prelude.Order.{lt_wf}

abbrev pub days_per_400_years : ℕ
days_per_400_years = 146_097

unfoldable pub is_leap_year : ℕ → Bool
is_leap_year year = (year % 4 == 0 && not (year % 100 == 0)) || year % 400 == 0

unfoldable pub days_in_year : ℕ → ℕ
unfolding is_leap_year
days_in_year year = if is_leap_year year then 366 else 365

pub days_in_year_pos : (year : ℕ) → 0 < days_in_year year
unfolding days_in_year
days_in_year_pos year = ground arith

-- The `while True` loop. `remaining` falls in each round, so the loop ends.
unfoldable pub advance : (year remaining : ℕ) → Acc ◌<◌ remaining → ℕ
advance year remaining (Acc.intro _ smaller) =
    dite (dec_lt remaining (days_in_year year)) (λ _. year)
      (λ more.
        advance (suc year) (remaining - days_in_year year)
          (smaller (remaining - days_in_year year) (omega (arith, days_in_year_pos year))))

unfoldable pub game_date_to_year : ℤ → ℕ
unfolding advance days_in_year lt_wf dec_lt
game_date_to_year (negsuc _) = 0
game_date_to_year (pos zero) = 0
game_date_to_year (pos (suc day)) =
    let date = suc day in
    let remaining = date % days_per_400_years in
    advance (date / days_per_400_years * 400) remaining (lt_wf.apply remaining)

-- `for y in range(year, year + count)`, adding the days of each year.
unfoldable pub add_years : (count year game_date : ℕ) → ℕ
add_years zero year game_date = game_date
add_years (suc count) year game_date = add_years count (suc year) (game_date + days_in_year year)

unfoldable pub year_to_game_date : ℤ → ℕ
unfolding add_years days_in_year
year_to_game_date (negsuc _) = 0
year_to_game_date (pos year) =
    let full_cycles = year / 400 in
    add_years (year - full_cycles * 400) (full_cycles * 400) (full_cycles * days_per_400_years)
