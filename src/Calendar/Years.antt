-- ===== src/Calendar/Years.antt =====
-- What the two conversions of src/nttd/utils/game_date.py mean, against a count of the days.
use mathlib.Core.WellFounded.{Acc}
use mathlib.Core.Logic.{dif_pos, dif_neg}
use native.Mathlib.Decide.{dec_lt}
use native.Mathlib.Bridge.{le_prop}
use nttd.Prelude.{ℕ, zero, suc, ◌+◌, ◌-◌, ◌*◌, ◌/◌, ◌%◌, ◌≤◌, ◌<◌, ◌≡◌, refl, ◌∙◌, sym, ap, arith}
use nttd.Prelude.Int.{pos}
use nttd.Prelude.Order.{lt_wf}
use nttd.Calendar.{
  days_in_year, days_in_year_pos, advance, game_date_to_year, add_years, year_to_game_date,
}

-- The days before 1 January of a year, one year at a time.
unfoldable pub days_before : ℕ → ℕ
unfolding days_in_year
days_before zero = 0
days_before (suc year) = days_before year + days_in_year year

days_in_year-add_400 : (year : ℕ) → days_in_year (400 + year) ≡ days_in_year year
unfolding days_in_year
days_in_year-add_400 year = ground arith

days_before_0 : days_before 0 ≡ 0
unfolding days_before
days_before_0 = refl

days_before_400 : days_before 400 ≡ 146_097
unfolding days_before
days_before_400 = refl

days_before-add_400 : (year : ℕ) → days_before (400 + year) ≡ 146_097 + days_before year
unfolding days_before
days_before-add_400 zero = days_before_400
days_before-add_400 (suc year) =
    let shift : 400 + suc year ≡ suc (400 + year) = omega arith in
    rw shift (omega (arith, days_before-add_400 year, days_in_year-add_400 year))

days_before-cycles : (c year : ℕ) → days_before (c * 400 + year) ≡ c * 146_097 + days_before year
days_before-cycles zero year =
    let shift : 0 * 400 + year ≡ year = omega arith in rw shift (omega arith)
days_before-cycles (suc c) year =
    let shift : suc c * 400 + year ≡ 400 + (c * 400 + year) = omega arith in
    rw shift (omega (arith, days_before-add_400 (c * 400 + year), days_before-cycles c year))

days_before_cycles : (c : ℕ) → days_before (c * 400) ≡ c * 146_097
days_before_cycles c =
    let shift : c * 400 ≡ c * 400 + 0 = omega arith in
    rw shift (omega (arith, days_before-cycles c 0, days_before_0))

days_before_mono : (a k : ℕ) → days_before a ≤ days_before (k + a)
unfolding days_before
days_before_mono a zero = let shift : 0 + a ≡ a = omega arith in rw shift (omega arith)
days_before_mono a (suc k) =
    let shift : suc k + a ≡ suc (k + a) = omega arith in
    rw shift (omega (arith, days_before_mono a k))

-- An earlier year ends before a later one begins.
days_before_le : (a b : ℕ) → a ≤ b → days_before a ≤ days_before b
days_before_le a b h =
    let shift : b ≡ (b - a) + a = omega arith in rw shift (days_before_mono a (b - a))

-- `date` lies between 1 January of `year` and 1 January of the next.
abbrev pub IsYearOf : ℕ → ℕ → Type 0
IsYearOf date year = (days_before year ≤ date) × (date < days_before (suc year))

advance-IsYearOf :
    (date year remaining : ℕ) (w : Acc ◌<◌ remaining)
    → date ≡ days_before year + remaining
    → IsYearOf date (advance year remaining w)
unfolding advance days_before
advance-IsYearOf date year remaining (Acc.intro _ smaller) e =
    elim (dec_lt remaining (days_in_year year)) [
      | yes h ↦
          rw (dif_pos (dec_lt remaining (days_in_year year)) le_prop h) (omega arith, omega arith)
      | no h ↦ rw (dif_neg (dec_lt remaining (days_in_year year)) h) (
          advance-IsYearOf date (suc year) (remaining - days_in_year year) (smaller _ _)
            (omega arith))
    ]

-- The year of a date holds it.
pub game_date_to_year-IsYearOf : (date : ℕ) → IsYearOf date (game_date_to_year (pos date))
unfolding game_date_to_year
game_date_to_year-IsYearOf zero = unfold days_before days_in_year in (omega arith, omega arith)
game_date_to_year-IsYearOf (suc day) =
    let date = suc day in
    advance-IsYearOf date (date / 146_097 * 400) (date % 146_097) (lt_wf.apply (date % 146_097))
      (omega (arith, days_before_cycles (date / 146_097)))

add_years_lem :
    (count year game_date : ℕ)
    → game_date ≡ days_before year
    → add_years count year game_date ≡ days_before (count + year)
unfolding add_years days_before
add_years_lem zero year game_date e = let shift : 0 + year ≡ year = omega arith in rw shift e
add_years_lem (suc count) year game_date e =
    let shift : suc count + year ≡ count + suc year = omega arith in
    rw shift (add_years_lem count (suc year) (game_date + days_in_year year) (omega arith))

-- The date of a year counts the days before it, however the 400-year cycles are skipped.
pub year_to_game_date-eq : (year : ℕ) → year_to_game_date (pos year) ≡ days_before year
unfolding year_to_game_date
year_to_game_date-eq year =
    let cycles = year / 400 in
    let shift : year ≡ year - cycles * 400 + cycles * 400 = omega arith in
    add_years_lem (year - cycles * 400) (cycles * 400) (cycles * 146_097)
      (sym (days_before_cycles cycles))
    ∙ ap days_before (sym shift)

-- A date lies in one year only.
le_of_IsYearOf : (date a b : ℕ) → days_before a ≤ date → date < days_before (suc b) → a ≤ b
le_of_IsYearOf date a b h k = elim (dec_lt b a) [
  | yes later ↦ absurd (omega (arith, days_before_le (suc b) a later))
  | no early ↦ omega arith
]

IsYearOf-unique : (date a b : ℕ) → IsYearOf date a → IsYearOf date b → a ≡ b
IsYearOf-unique date a b h k =
    omega (arith, le_of_IsYearOf date a b h.0 k.1, le_of_IsYearOf date b a k.0 h.1)

days_before-IsYearOf : (year : ℕ) → IsYearOf (days_before year) year
unfolding days_before
days_before-IsYearOf year = (omega arith, omega (arith, days_in_year_pos year))

-- Converting the first day of any year back gives that year.
game_date_to_year-year_to_game_date :
    (year : ℕ) → game_date_to_year (pos (year_to_game_date (pos year))) ≡ year
game_date_to_year-year_to_game_date year = rw (year_to_game_date-eq year) (
    IsYearOf-unique (days_before year) _ _ (game_date_to_year-IsYearOf (days_before year))
      (days_before-IsYearOf year))

-- A day falls in the year that starts on or before it, where the next year starts after it.
pub game_date_to_year_bounds :
    (date : ℕ)
    → (year_to_game_date (pos (game_date_to_year (pos date))) ≤ date)
      × (date < year_to_game_date (pos (suc (game_date_to_year (pos date)))))
game_date_to_year_bounds date =
    let year = game_date_to_year (pos date) in
    rw (year_to_game_date-eq year)
      (rw (year_to_game_date-eq (suc year)) (game_date_to_year-IsYearOf date))
