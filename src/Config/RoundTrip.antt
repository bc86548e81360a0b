-- ===== src/Config/RoundTrip.antt =====
-- The conditions that end a run, from the scenario file through the settings of the session to its
-- checker: src/nttd/config/scenario_config.py and src/nttd/runtime/session_manager.py.
use nttd.Prelude.{
  ◌≡◌, refl, ap, sym, ◌∙◌, String, Bool, true, false, Option, none, some, List, [], ◌∷◌, string_eq,
  if◌then◌else◌, Bool-cases, Option-cases, inl, inr,
}
use nttd.Prelude.Dict.{lookup}
use nttd.Prelude.Int.{ℤ, pos, pos_part}
use nttd.EndConditions.{EndConditionsConfig}
use nttd.Config.Tree.{
  Node, nothing, truth, flag, text, integer, decimal, null, sequence, tree, find, child, get_or,
  Texts, int_at, float_of, str_of,
}
use nttd.Config.Profile.{BenchmarkProfile}
use nttd.Config.Validate.{Validation, accepted, refused, raised}
use nttd.Config.Settings.{Setting, Settings, Piece, assign}
use nttd.Config.Export.{settings, validated, export_tree}
use nttd.Config.Written.{Writes, lookup-assign, later-none, number_written, minutes_written}
use nttd.Config.EndKeys.{where_enabled, pieces}
use nttd.Config.Load.{under, switch, int_under, loaded_end_conditions, ◌>>=◌}
use nttd.Config.Apply.{number_of, minutes_of}

validated_settings :
    (v : Validation) (p : Piece) (d : Settings)
    → validated v p ≡ settings d
    → (entries : List (String × Setting)) × (p ≡ some entries) × (d ≡ assign entries [])
validated_settings accepted none d h = absurd (cc)
validated_settings accepted (some entries) d h = (entries, refl, cc)
validated_settings (refused problems) p d h = absurd (cc)
validated_settings raised p d h = absurd (cc)

-- A setting of a section, read with a path or in two steps.
pub get_or-under :
    (default : Node) (section key : String) (ec : Node)
    → get_or default (key ∷ []) (get_or nothing (section ∷ []) ec)
      ≡ get_or default (under section key) ec
unfolding get_or find child
get_or-under default section key (tree fields) = elim (Option-cases (child section fields)) [
  | inl missing ↦ rw (missing, get_or, find) refl
  | inr (cfg, found) ↦ rw (found, get_or, find) refl
]
get_or-under default section key null = refl
get_or-under default section key (flag b) = refl
get_or-under default section key (integer n) = refl
get_or-under default section key (decimal n) = refl
get_or-under default section key (text s) = refl
get_or-under default section key (sequence b) = refl

bind_some :
    {A B : Type 0} (m : Option A) (f : A → Option B) (b : B)
    → (m >>= f) ≡ some b
    → (a : A) × (m ≡ some a) × (f a ≡ some b)
bind_some none f b h = absurd (cc)
bind_some (some a) f b h = (a, refl, h)

-- A configuration without the limits of the conditions that are off.
unfoldable pub effective : EndConditionsConfig → EndConditionsConfig
effective c = record {
  logic = c.logic;
  time_limit =
      if c.time_limit.enabled
      then c.time_limit
      else record { enabled = false; wall_minutes = 60000000 };
  game_date_limit =
      if c.game_date_limit.enabled
      then c.game_date_limit
      else record { enabled = false; end_year = pos 2000 };
  revenue_threshold =
      if c.revenue_threshold.enabled
      then c.revenue_threshold
      else record { enabled = false; total_revenue = pos 1000000 };
  cargo_threshold =
      if c.cargo_threshold.enabled
      then c.cargo_threshold
      else record { enabled = false; total_cargo_delivered = pos 50000 };
  max_heartbeats =
      if c.max_heartbeats.enabled
      then c.max_heartbeats
      else record { enabled = false; count = pos 1000 };
  bankruptcy = c.bankruptcy;
}

pub lookup_exported :
    (texts : Texts) (profile : BenchmarkProfile) (version : String) (strict : Bool) (raw : Node)
    (d : Settings)
    → export_tree texts profile version strict raw ≡ settings d
    → (key : String) (a : Option Setting)
    → ((scored : Bool) → Writes key (pieces texts profile version raw scored) a)
    → lookup key d ≡ a
unfolding export_tree lookup
lookup_exported texts profile version strict raw d h key a w =
    let (entries, same, built) = validated_settings _ _ d h in
    rw (built) (lookup-assign key entries [] ∙ later-none _ ∙ (w _).holds entries same)

number_if :
    (b : Bool) (n : ℤ)
    → number_of (if b then number_written (some n) else none) ≡ (if b then some n else none)
number_if true n = refl
number_if false n = refl

-- The configuration that `load` makes of the section and its numbers.
abbrev pub config_of :
    Texts → BenchmarkProfile → Node → (wall end_year revenue cargo beats : ℤ) → EndConditionsConfig
config_of texts profile ec wall end_year revenue cargo beats = record {
  logic = str_of texts (get_or (text "any") ("logic" ∷ []) ec);
  time_limit = record {
    enabled = switch texts profile true "time_limit" ec;
    wall_minutes = pos_part wall;
  };
  game_date_limit = record {
    enabled = switch texts profile false "game_date_limit" ec;
    end_year = end_year;
  };
  revenue_threshold = record {
    enabled = switch texts profile false "revenue_threshold" ec;
    total_revenue = revenue;
  };
  cargo_threshold = record {
    enabled = switch texts profile false "cargo_threshold" ec;
    total_cargo_delivered = cargo;
  };
  max_heartbeats = record {
    enabled = switch texts profile false "max_heartbeats" ec;
    count = beats;
  };
  bankruptcy = record { enabled = switch texts profile false "bankruptcy" ec };
}

module _ (texts : Texts) (profile : BenchmarkProfile) (ec : Node) where
  pub loaded_parts :
      (loaded : EndConditionsConfig)
      → loaded_end_conditions texts profile ec ≡ some loaded
      → (wall : ℤ) × (year : ℤ) × (revenue : ℤ) × (cargo : ℤ) × (beats : ℤ) × (float_of texts
            (get_or (decimal (pos 60000000)) (under "time_limit" "wall_minutes") ec)
          ≡ some wall)
        × (int_under texts profile (pos 2000) (under "game_date_limit" "end_year") ec ≡ some year)
        × (int_under texts profile (pos 1000000) (under "revenue_threshold" "total_revenue") ec
            ≡ some revenue)
        × (int_under texts profile (pos 50000) (under "cargo_threshold" "total_cargo_delivered") ec
            ≡ some cargo)
        × (int_under texts profile (pos 1000) (under "max_heartbeats" "count") ec ≡ some beats)
        × (loaded ≡ config_of texts profile ec wall year revenue cargo beats)
  unfolding loaded_end_conditions
  loaded_parts loaded h =
      let (wall, e₁, h₁) = bind_some _ _ loaded h in
      let (year, e₂, h₂) = bind_some _ _ loaded h₁ in
      let (revenue, e₃, h₃) = bind_some _ _ loaded h₂ in
      let (cargo, e₄, h₄) = bind_some _ _ loaded h₃ in
      let (beats, e₅, h₅) = bind_some _ _ loaded h₄ in
      let same : config_of texts profile ec wall year revenue cargo beats ≡ loaded = cc in
      (wall, year, revenue, cargo, beats, e₁, e₂, e₃, e₄, e₅, sym same)

  pub number_field :
      (section key : String) (default n : ℤ)
      → truth ec ≡ true
      → int_under texts profile default (under section key) ec ≡ some n
      → number_of (where_enabled section ec (λ cfg. number_written (int_at texts default key cfg)))
        ≡ (if switch texts profile false section ec then some n else none)
  number_field section key default n filled e =
      rw
        (
          filled,
          get_or-under (flag false) section "enabled" ec,
          get_or-under (integer default) section key ec,
          e,
        )
        (number_if (switch texts profile false section ec) n)

  pub get_or_given :
      (default found : Node) (path : List String)
      → find path ec ≡ some found
      → get_or default path ec ≡ found
  unfolding get_or
  get_or_given default found path e = rw (e, get_or) refl

  pub get_or_omitted :
      (default : Node) (path : List String) → find path ec ≡ none → get_or default path ec ≡ default
  unfolding get_or
  get_or_omitted default path e = rw (e, get_or) refl

  pub minutes_field :
      (wall : ℤ) (enabled : Node)
      → truth ec ≡ true
      → find (under "time_limit" "enabled") ec ≡ some enabled
      → (truth enabled ≡ true → (m : Node) × (find (under "time_limit" "wall_minutes") ec ≡ some m))
      → float_of texts (get_or (decimal (pos 60000000)) (under "time_limit" "wall_minutes") ec)
        ≡ some wall
      → minutes_of (
          where_enabled "time_limit" ec (λ cfg.
            minutes_written (float_of texts (get_or (integer (pos 15)) ("wall_minutes" ∷ []) cfg))))
        ≡ (if switch texts profile true "time_limit" ec then some wall else none)
  minutes_field wall enabled filled given asked e =
      let read =
        λ (default : Node). get_or_given default enabled (under "time_limit" "enabled") given in
      rw
        (
          filled,
          get_or-under (flag false) "time_limit" "enabled" ec,
          get_or-under (integer (pos 15)) "time_limit" "wall_minutes" ec,
          read (flag false),
          read (flag true),
        )
        (elim (Bool-cases (truth enabled)) [
          | inr off ↦ rw off refl
          | inl on ↦
              let (m, found) = asked on in
              let path = under "time_limit" "wall_minutes" in
              let number : float_of texts m ≡ some wall =
                ap (float_of texts) (sym (get_or_given (decimal (pos 60000000)) m path found))
                ∙ e in
              rw (on, get_or_given (integer (pos 15)) m path found, number) refl
        ])
