-- ===== src/Config/Limits.antt =====
-- From the scenario file to the checker of a session: src/nttd/config/scenario_config.py
-- and src/nttd/runtime/session_manager.py.
use nttd.Prelude.{
  ◌≡◌, ◌≢◌, refl, ap, sym, ◌∙◌, String, Bool, true, false, none, some, ◌==◌, string_eq,
  if◌then◌else◌, Bool-cases, inl, inr,
}
use package.text.Mathlib.TextEquality.{eq_iff}
use nttd.Prelude.Dict.{lookup}
use nttd.Prelude.Int.{ℤ, pos, pos_part}
use nttd.EndConditions.{EndConditionsConfig}
use nttd.Config.Tree.{Node, truth, flag, find, Texts}
use nttd.Config.Profile.{BenchmarkProfile}
use nttd.Config.Settings.{word, Settings}
use nttd.Config.Export.{settings, export_tree}
use nttd.Config.EndKeys.{
  end_of, Writes-logic, Writes-wall_minutes, Writes-end_year, Writes-revenue, Writes-cargo,
  Writes-heartbeats, Writes-bankruptcy,
}
use nttd.Config.Load.{under, switch, loaded_end_conditions}
use nttd.Config.Apply.{
  apply_end_conditions, number_of, minutes_of, time_limit_of, end_year_of, revenue_of, cargo_of,
  heartbeats_of, is_set, applied,
}
use nttd.Config.RoundTrip.{
  config_of, effective, lookup_exported, loaded_parts, number_field, minutes_field, get_or-under,
  get_or_omitted,
}

-- A limit is kept where its condition is on.
year_kept :
    (b : Bool) (n : ℤ)
    → end_year_of (if b then some n else none) ≡ (
        if b
        then record { enabled = b; end_year = n }
        else record { enabled = false; end_year = pos 2000 })
year_kept true n = refl
year_kept false n = refl

revenue_kept :
    (b : Bool) (n : ℤ)
    → revenue_of (if b then some n else none) ≡ (
        if b
        then record { enabled = b; total_revenue = n }
        else record { enabled = false; total_revenue = pos 1000000 })
revenue_kept true n = refl
revenue_kept false n = refl

cargo_kept :
    (b : Bool) (n : ℤ)
    → cargo_of (if b then some n else none) ≡ (
        if b
        then record { enabled = b; total_cargo_delivered = n }
        else record { enabled = false; total_cargo_delivered = pos 50000 })
cargo_kept true n = refl
cargo_kept false n = refl

heartbeats_kept :
    (b : Bool) (n : ℤ)
    → heartbeats_of (if b then some n else none) ≡ (
        if b
        then record { enabled = b; count = n }
        else record { enabled = false; count = pos 1000 })
heartbeats_kept true n = refl
heartbeats_kept false n = refl

minutes_kept :
    (b : Bool) (n : ℤ)
    → time_limit_of (if b then some n else none) ≡ (
        if b
        then record { enabled = b; wall_minutes = pos_part n }
        else record { enabled = false; wall_minutes = 60000000 })
minutes_kept true n = refl
minutes_kept false n = refl

bankruptcy_kept : (b : Bool) → is_set (if b then some (word "1") else none) ≡ b
bankruptcy_kept true = refl
bankruptcy_kept false = refl

apart : (s : String) → s ≢ "" → (s == "") ≡ false
apart s other = elim (Bool-cases (s == "")) [
  | inl same ↦ absurd (other ((eq_iff s "").0 same))
  | inr different ↦ different
]

-- Where a scenario names a logic, says whether wall time bounds it and, if so, by how much, the checker
-- that the session builds from the exported settings has the conditions that `load` reads from the file,
-- but for the limits of those that are off.
pub apply_end_conditions-export_tree :
    (texts : Texts) (profile : BenchmarkProfile) (version : String) (strict : Bool) (raw : Node)
    (d : Settings) (loaded : EndConditionsConfig) (enabled : Node)
    → export_tree texts profile version strict raw ≡ settings d
    → loaded_end_conditions texts profile (end_of raw) ≡ some loaded
    → truth (end_of raw) ≡ true
    → loaded.logic ≢ ""
    → find (under "time_limit" "enabled") (end_of raw) ≡ some enabled
    → (truth enabled ≡ true
        → (m : Node) × (find (under "time_limit" "wall_minutes") (end_of raw) ≡ some m))
    → apply_end_conditions d ≡ some (effective loaded)
unfolding apply_end_conditions effective
apply_end_conditions-export_tree texts profile version strict raw d loaded enabled h l filled named
      given asked =
    let ec = end_of raw in
    let (wall, year, revenue, cargo, beats, e₁, e₂, e₃, e₄, e₅, same) =
      loaded_parts texts profile ec loaded l in
    let at = lookup_exported texts profile version strict raw d h in
    let logic : lookup "_ec_logic" d ≡ some (word loaded.logic) =
      at "_ec_logic" _ (Writes-logic texts profile version raw) ∙ rw filled (rw same refl) in
    let limit =
      ap minutes_of (at "_ec_wall_minutes" _ (Writes-wall_minutes texts profile version raw))
      ∙ minutes_field texts profile ec wall enabled filled given asked e₁ in
    let years =
      ap number_of (at "_ec_end_year" _ (Writes-end_year texts profile version raw))
      ∙ number_field texts profile ec "game_date_limit" "end_year" (pos 2000) year filled e₂ in
    let revenues =
      ap number_of (at "_ec_revenue" _ (Writes-revenue texts profile version raw))
      ∙ number_field texts profile ec "revenue_threshold" "total_revenue" (pos 1000000) revenue
          filled e₃ in
    let cargos =
      ap number_of (at "_ec_cargo" _ (Writes-cargo texts profile version raw))
      ∙ number_field texts profile ec "cargo_threshold" "total_cargo_delivered" (pos 50000) cargo
          filled e₄ in
    let counts =
      ap number_of (at "_ec_max_heartbeats" _ (Writes-heartbeats texts profile version raw))
      ∙ number_field texts profile ec "max_heartbeats" "count" (pos 1000) beats filled e₅ in
    let bankrupt : is_set (lookup "_ec_bankruptcy" d) ≡ switch texts profile false "bankruptcy" ec =
      ap is_set (at "_ec_bankruptcy" _ (Writes-bankruptcy texts profile version raw))
      ∙ rw (filled, get_or-under (flag false) "bankruptcy" "enabled" ec)
          (bankruptcy_kept (switch texts profile false "bankruptcy" ec)) in
    let fields : applied loaded.logic d
        ≡ effective (config_of texts profile ec wall year revenue cargo beats) =
      λ i. record {
        logic = ap EndConditionsConfig.logic same i;
        time_limit =
            (ap time_limit_of limit ∙ minutes_kept (switch texts profile true "time_limit" ec) wall)
              i;
        game_date_limit =
            (ap end_year_of years
                ∙ year_kept (switch texts profile false "game_date_limit" ec) year)
              i;
        revenue_threshold =
            (ap revenue_of revenues
                ∙ revenue_kept (switch texts profile false "revenue_threshold" ec) revenue)
              i;
        cargo_threshold =
            (ap cargo_of cargos
                ∙ cargo_kept (switch texts profile false "cargo_threshold" ec) cargo)
              i;
        max_heartbeats =
            (ap heartbeats_of counts
                ∙ heartbeats_kept (switch texts profile false "max_heartbeats" ec) beats)
              i;
        bankruptcy = record { enabled = bankrupt i };
      } in
    rw (logic, apart loaded.logic named) (ap some (fields ∙ ap effective (sym same)))

-- Where a scenario that is loaded and exported has end conditions with a logic, but does not say whether
-- wall time bounds it, `load` lets it and the session does not.
pub time_limit_omitted :
    (texts : Texts) (profile : BenchmarkProfile) (version : String) (strict : Bool) (raw : Node)
    (d : Settings) (loaded : EndConditionsConfig)
    → export_tree texts profile version strict raw ≡ settings d
    → loaded_end_conditions texts profile (end_of raw) ≡ some loaded
    → truth (end_of raw) ≡ true
    → loaded.logic ≢ ""
    → find (under "time_limit" "enabled") (end_of raw) ≡ none
    → (loaded.time_limit.enabled ≡ true)
      × ((a : EndConditionsConfig) × (apply_end_conditions d ≡ some a)
          × (a.time_limit.enabled ≡ false))
unfolding apply_end_conditions
time_limit_omitted texts profile version strict raw d loaded h l filled named omitted =
    let ec = end_of raw in
    let (wall, year, revenue, cargo, beats, e₁, e₂, e₃, e₄, e₅, same) =
      loaded_parts texts profile ec loaded l in
    let at = lookup_exported texts profile version strict raw d h in
    let off = λ (default : Node).
      get_or_omitted texts profile ec default (under "time_limit" "enabled") omitted in
    let logic : lookup "_ec_logic" d ≡ some (word loaded.logic) =
      at "_ec_logic" _ (Writes-logic texts profile version raw) ∙ rw filled (rw same refl) in
    let limit : lookup "_ec_wall_minutes" d ≡ none =
      at "_ec_wall_minutes" _ (Writes-wall_minutes texts profile version raw)
      ∙ rw (filled, get_or-under (flag false) "time_limit" "enabled" ec, off (flag false)) refl in
    (
      ap (λ c. c.time_limit.enabled) same ∙ rw (off (flag true)) refl,
      (applied loaded.logic d, rw (logic, apart loaded.logic named) refl, rw limit refl),
    )
