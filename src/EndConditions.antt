-- ===== src/EndConditions.antt =====
-- src/nttd/runtime/end_conditions.py, with the limits of src/nttd/config/scenario_config.py.
-- A clock reading is a count of microseconds, and `wall_minutes` of millionths of a minute, so
-- the division by 60.0 of the source is a product here. The text of a reason is the values that
-- the source puts into it; a joined text is the list of its parts.
pub mod Conditions
pub mod Verdict
pub mod Clock
use nttd.Prelude.{
  ℕ, suc, ◌+◌, ◌*◌, String, Bool, true, false, not, Option, none, some, List, [], ◌∷◌, ◌++◌, ◌==◌,
  nat_eq, string_eq, leb, length, filter, if◌then◌else◌,
}
use nttd.Prelude.Dict.{Dict, lookup, insert}
use nttd.Prelude.Int.{ℤ, pos, ◌+ℤ◌, ◌-ℤ◌, leb_ℤ, eqb_ℤ, max_ℤ}
use nttd.Calendar.{game_date_to_year}

pub record TimeLimitConfig : Type 0 where
  pub enabled : Bool
  pub wall_minutes : ℕ

pub record GameDateLimitConfig : Type 0 where
  pub enabled : Bool
  pub end_year : ℤ

pub record RevenueThresholdConfig : Type 0 where
  pub enabled : Bool
  pub total_revenue : ℤ

pub record CargoThresholdConfig : Type 0 where
  pub enabled : Bool
  pub total_cargo_delivered : ℤ

pub record MaxHeartbeatsConfig : Type 0 where
  pub enabled : Bool
  pub count : ℤ

pub record BankruptcyConfig : Type 0 where
  pub enabled : Bool

pub record EndConditionsConfig : Type 0 where
  pub logic : String
  pub time_limit : TimeLimitConfig
  pub game_date_limit : GameDateLimitConfig
  pub revenue_threshold : RevenueThresholdConfig
  pub cargo_threshold : CargoThresholdConfig
  pub max_heartbeats : MaxHeartbeatsConfig
  pub bankruptcy : BankruptcyConfig

-- What the checker reads of a snapshot.
pub record Company : Type 0 where
  pub id : ℕ
  pub name : String
  pub income : ℤ
  pub is_active : Bool

pub record StateSnapshot : Type 0 where
  pub game_date : ℤ
  pub companies : List Company

pub data Reason : Type 0 where
  time_limit_reached : (wall_minutes : ℕ) → Reason
  end_year_reached : (current_year : ℕ) (end_year : ℤ) → Reason
  not_active : (id : ℕ) (name : String) → Reason
  revenue_reached : (id : ℕ) (name : String) (income total_revenue : ℤ) → Reason
  cargo_reached : (delivered total_cargo_delivered : ℤ) → Reason
  heartbeats_reached : (count : ℤ) → Reason

pub record EndResult : Type 0 where
  pub triggered : Bool
  pub reason : List Reason

pub record EndConditionChecker : Type 0 where
  pub config : EndConditionsConfig
  pub start_time : Option ℕ
  pub start_game_date : Option ℤ
  pub heartbeat_count : ℕ
  pub cargo_delivered : ℤ
  pub prev_income : Dict ℕ ℤ

unfoldable pub new : EndConditionsConfig → Option ℕ → EndConditionChecker
new config start_time = record {
  config = config;
  start_time = start_time;
  start_game_date = none;
  heartbeat_count = 0;
  cargo_delivered = pos 0;
  prev_income = [];
}

pub start_clock_from : Option ℕ → ℕ → Option ℤ → EndConditionChecker → EndConditionChecker × Bool
start_clock_from (some _) now game_date c = (c, false)
start_clock_from none now game_date c =
    (record c { start_time = some now; start_game_date = game_date }, true)

unfoldable pub start_clock : ℕ → Option ℤ → EndConditionChecker → EndConditionChecker × Bool
unfolding start_clock_from
start_clock now game_date c = start_clock_from c.start_time now game_date c

unfoldable pub clock_started : EndConditionChecker → Bool
clock_started c = elim c.start_time [ none ↦ false | some _ ↦ true ]

unfoldable pub game_days_total : EndConditionChecker → ℤ
game_days_total c =
    let limit = c.config.max_heartbeats in if not limit.enabled then pos 0 else limit.count

unfoldable pub game_days_remaining : EndConditionChecker → ℤ
unfolding game_days_total max_ℤ ◌-ℤ◌
game_days_remaining c =
    let total = game_days_total c in
    if eqb_ℤ total (pos 0) then pos 0 else max_ℤ (pos 0) (total -ℤ pos c.heartbeat_count)

unfoldable pub reset : EndConditionChecker → EndConditionChecker
reset c = record c {
  start_time = none;
  start_game_date = none;
  heartbeat_count = 0;
  cargo_delivered = pos 0;
  prev_income = [];
}

abbrev hit : Reason → List EndResult
hit reason = record { triggered = true; reason = reason ∷ [] } ∷ []

-- One function for each block of `_evaluate_all`.
unfoldable pub time_limit_results : EndConditionsConfig → Option ℕ → ℕ → List EndResult
time_limit_results cfg none now = []
time_limit_results cfg (some start) now =
    let limit = cfg.time_limit in
    if limit.enabled
    then if leb (start + limit.wall_minutes * 60) now
      then hit (time_limit_reached limit.wall_minutes)
      else []
    else []

unfoldable pub game_date_results : EndConditionsConfig → StateSnapshot → List EndResult
game_date_results cfg snapshot =
    let limit = cfg.game_date_limit in
    let current_year = game_date_to_year snapshot.game_date in
    if limit.enabled
    then if leb_ℤ limit.end_year (pos current_year)
      then hit (end_year_reached current_year limit.end_year)
      else []
    else []

-- `for company in snapshot.companies`, up to the `break`.
unfoldable pub first_inactive : List Company → List EndResult
first_inactive [] = []
first_inactive (company ∷ companies) =
    if not company.is_active
    then hit (not_active company.id company.name)
    else first_inactive companies

unfoldable pub bankruptcy_results : EndConditionsConfig → StateSnapshot → List EndResult
unfolding first_inactive
bankruptcy_results cfg snapshot =
    if cfg.bankruptcy.enabled then first_inactive snapshot.companies else []

unfoldable pub first_over_revenue : ℤ → List Company → List EndResult
first_over_revenue total [] = []
first_over_revenue total (company ∷ companies) =
    if leb_ℤ total company.income
    then hit (revenue_reached company.id company.name company.income total)
    else first_over_revenue total companies

unfoldable pub revenue_results : EndConditionsConfig → StateSnapshot → List EndResult
unfolding first_over_revenue
revenue_results cfg snapshot =
    let limit = cfg.revenue_threshold in
    if limit.enabled then first_over_revenue limit.total_revenue snapshot.companies else []

-- The cargo loop: the running total and the incomes last seen.
unfoldable pub prev_or : Option ℤ → ℤ → ℤ
prev_or none income = income
prev_or (some prev) income = prev

unfoldable pub accumulate_cargo : List Company → ℤ → Dict ℕ ℤ → ℤ × Dict ℕ ℤ
unfolding prev_or max_ℤ
accumulate_cargo [] delivered prev_income = (delivered, prev_income)
accumulate_cargo (company ∷ companies) delivered prev_income =
    let prev = prev_or (lookup company.id prev_income) company.income in
    let delta = max_ℤ (pos 0) (company.income -ℤ prev) in
    accumulate_cargo companies (delivered +ℤ delta) (insert company.id company.income prev_income)

unfoldable pub update_cargo : StateSnapshot → EndConditionChecker → EndConditionChecker
unfolding accumulate_cargo
update_cargo snapshot c =
    let (delivered, prev_income) =
      accumulate_cargo snapshot.companies c.cargo_delivered c.prev_income in
    if c.config.cargo_threshold.enabled
    then record c { cargo_delivered = delivered; prev_income = prev_income }
    else c

unfoldable pub cargo_results : EndConditionsConfig → ℤ → List EndResult
cargo_results cfg delivered =
    let limit = cfg.cargo_threshold in
    if limit.enabled
    then if leb_ℤ limit.total_cargo_delivered delivered
      then hit (cargo_reached delivered limit.total_cargo_delivered)
      else []
    else []

unfoldable pub heartbeat_results : EndConditionsConfig → ℕ → List EndResult
heartbeat_results cfg heartbeats =
    let limit = cfg.max_heartbeats in
    if limit.enabled
    then if leb_ℤ limit.count (pos heartbeats) then hit (heartbeats_reached limit.count) else []
    else []

unfoldable pub evaluate_all :
    ℕ → StateSnapshot → EndConditionChecker → EndConditionChecker × List EndResult
evaluate_all now snapshot c =
    let cfg = c.config in
    let after = update_cargo snapshot c in
    (
      after,
      time_limit_results cfg c.start_time now
          ++ (game_date_results cfg snapshot
              ++ (bankruptcy_results cfg snapshot
                  ++ (revenue_results cfg snapshot
                      ++ (cargo_results cfg after.cargo_delivered
                          ++ heartbeat_results cfg c.heartbeat_count)))),
    )

abbrev bit : Bool → ℕ
bit true = 1
bit false = 0

unfoldable pub count_enabled : EndConditionsConfig → ℕ
count_enabled cfg =
    bit cfg.time_limit.enabled
    + (bit cfg.game_date_limit.enabled
        + (bit cfg.revenue_threshold.enabled
            + (bit cfg.cargo_threshold.enabled
                + (bit cfg.max_heartbeats.enabled + bit cfg.bankruptcy.enabled))))

abbrev reasons : List EndResult → List Reason
reasons [] = []
reasons (r ∷ rs) = r.reason ++ reasons rs

abbrev not_triggered : EndResult
not_triggered = record { triggered = false; reason = [] }

-- The end of `check`, from the results that were triggered.
unfoldable pub decide_end : EndConditionsConfig → List EndResult → EndResult
unfolding count_enabled
decide_end cfg [] = not_triggered
decide_end cfg (first ∷ more) =
    let triggered = first ∷ more in
    if cfg.logic == "all"
    then if leb (count_enabled cfg) (length triggered)
      then record { triggered = true; reason = reasons triggered }
      else not_triggered
    else record { triggered = true; reason = first.reason }

unfoldable pub check : ℕ → StateSnapshot → EndConditionChecker → EndConditionChecker × EndResult
unfolding evaluate_all
check now snapshot c =
    let counted = record c { heartbeat_count = suc c.heartbeat_count } in
    let (after, results) = evaluate_all now snapshot counted in
    (after, decide_end c.config (filter (λ r. r.triggered) results))
