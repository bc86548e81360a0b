-- ===== src/Config/EndKeys.antt =====
-- Which pieces write the settings that end a run, in src/nttd/config/scenario_config.py.
use nttd.Prelude.{
  ◌≡◌, ◌≢◌, refl, ap, sym, ◌∙◌, ℕ, String, Bool, false, Option, none, some, List, [], ◌∷◌, ◌==◌,
  string_eq, arith, if◌then◌else◌, Bool-cases, inl, inr,
}
use package.text.Mathlib.TextEquality.{eq_iff}
use package.text.Mathlib.TextLemmas.{cons-append}
use Prim.Native.Char.{code}
use Prim.Native.String.{◌++◌ as append}
use nttd.Prelude.Int.{pos}
use nttd.Config.Tree.{
  Node, nothing, is_null, get_or, truth, flag, text, integer, Texts, int_at, float_of, str_of,
}
use nttd.Config.Profile.{BenchmarkProfile}
use nttd.Config.Settings.{Setting, word, Piece, map_piece, setting}
use nttd.Config.Export.{
  default_of, dimensions, seed_piece, company_piece, clock_piece, identity_piece, session_piece,
  end_piece, all_pieces, scenario_id_of,
}
use nttd.Config.Written.{
  Writes, silent, writing, silent_entry, silent_nothing, silent_nil, Writes-head, Writes-tail,
  Writes-if, Writes-say, Writes-minutes, number_written, minutes_written,
}

abbrev pub second : String → ℕ
second String.[] = 0
second (String.◌∷◌ c String.[]) = 0
second (String.◌∷◌ c (String.◌∷◌ d s)) = code d

second-append : (k : String) → second (append "_dim_" k) ≡ 100
second-append k =
    ap second (cons-append "_" "dim_" k ∙ ap (String.◌∷◌ "_") (cons-append "d" "im_" k))

-- No readable copy has a key whose second letter is another than theirs.
pub apart_dimension :
    (key : String) → second key ≢ 100 → (k : String) → (append "_dim_" k == key) ≡ false
apart_dimension key other k = elim (Bool-cases (append "_dim_" k == key)) [
  | inl same ↦
      absurd (other (ap second (sym ((eq_iff (append "_dim_" k) key).0 same)) ∙ second-append k))
  | inr apart ↦ apart
]

module _ {key : String} (fresh : (k : String) → (append "_dim_" k == key) ≡ false) where
  silent_dimensions :
      (texts : Texts) (profile : BenchmarkProfile) (m : Node) (scored : Bool) (keys : List String)
      → Writes key (some (dimensions texts profile m scored keys)) none
  unfolding dimensions
  silent_dimensions texts profile m scored [] = silent_nothing
  silent_dimensions texts profile m scored (k ∷ keys) =
      let rest = silent_dimensions texts profile m scored keys in
      elim (Bool-cases (is_null (setting texts profile m scored k (default_of k)))) [
        | inl absent ↦ rw absent rest
        | inr present ↦ rw present (silent_entry k _ _ (fresh k) rest)
      ]

abbrev pub end_of : Node → Node
end_of raw = get_or nothing ("end_conditions" ∷ []) raw

-- What stands under the key of a condition that ends a run.
abbrev pub where_enabled : String → Node → (Node → Option Setting) → Option Setting
where_enabled section ec value =
    let cfg = get_or nothing (section ∷ []) ec in
    if truth ec
    then (if truth (get_or (flag false) ("enabled" ∷ []) cfg) then value cfg else none)
    else none

module _ (texts : Texts) (profile : BenchmarkProfile) (version : String) (raw : Node)
    (scored : Bool) where
  abbrev pub pieces : Piece
  pieces = all_pieces texts profile version raw scored

  module _ {key : String} (fresh : second key ≢ 100) where
    pub silent_identity :
        (m : Node)
        → ("_scenario_id" == key) ≡ false
        → ("_scored" == key) ≡ false
        → ("_profile_version" == key) ≡ false
        → Writes key
            (identity_piece texts profile m (scenario_id_of texts profile raw) scored version)
            none
    unfolding identity_piece
    silent_identity m a b c =
        search (silent, silent_dimensions (apart_dimension key fresh)) depth 60

    -- What the last piece writes stands in the end, if no other piece writes there.
    from_end :
        (a : Option Setting)
        → Writes key (map_piece texts profile (get_or nothing ("map" ∷ []) raw) scored) none
        → Writes key (seed_piece texts profile (get_or nothing ("map" ∷ []) raw)) none
        → Writes key (company_piece texts profile (get_or nothing ("companies" ∷ []) raw)) none
        → Writes key (clock_piece texts profile (get_or nothing ("runtime" ∷ []) raw)) none
        → Writes key
            (identity_piece texts profile
              (get_or nothing ("map" ∷ []) raw)
              (scenario_id_of texts profile raw)
              scored
              version)
            none
        → Writes key
            (session_piece texts profile
              (get_or nothing ("runtime" ∷ []) raw)
              (get_or nothing ("heartbeat" ∷ []) raw))
            none
        → Writes key (end_piece texts profile (end_of raw)) a
        → Writes key pieces a
    unfolding all_pieces
    from_end a m seed companies clock identity session w = Writes-tail _ _ a m (
        Writes-tail _ _ a seed (
          Writes-tail _ _ a companies (
            Writes-tail _ _ a clock (
              Writes-tail _ _ a identity
                (Writes-tail _ _ a session (Writes-head _ _ a w silent_nil))))))

  pub Writes-logic : Writes "_ec_logic" pieces (
      if truth (end_of raw)
      then some (word (str_of texts (get_or (text "any") ("logic" ∷ []) (end_of raw))))
      else none)
  unfolding map_piece seed_piece company_piece clock_piece session_piece end_piece
  Writes-logic =
      from_end (λ h. absurd (omega (arith, h))) _ (search silent depth 60) (search silent depth 60)
        (search silent depth 60) (search silent depth 60)
        (silent_identity (λ h. absurd (omega (arith, h))) _ refl refl refl) (search silent depth 60)
        (Writes-if _ (Writes-head _ _ _ (Writes-say _ _) (search silent depth 60)))

  pub Writes-wall_minutes : Writes "_ec_wall_minutes" pieces (
      where_enabled "time_limit" (end_of raw) (λ cfg.
        minutes_written (float_of texts (get_or (integer (pos 15)) ("wall_minutes" ∷ []) cfg))))
  unfolding map_piece seed_piece company_piece clock_piece session_piece end_piece
  Writes-wall_minutes =
      from_end (λ h. absurd (omega (arith, h))) _ (search silent depth 60) (search silent depth 60)
        (search silent depth 60) (search silent depth 60)
        (silent_identity (λ h. absurd (omega (arith, h))) _ refl refl refl) (search silent depth 60)
        (Writes-if _ (
          Writes-tail _ _ _ (search silent depth 60)
            (Writes-head _ _ _ (Writes-if _ (Writes-minutes _ _)) (search silent depth 60))))

  pub Writes-end_year : Writes "_ec_end_year" pieces (
      where_enabled "game_date_limit"
        (end_of raw)
        (λ cfg. number_written (int_at texts (pos 2000) "end_year" cfg)))
  unfolding map_piece seed_piece company_piece clock_piece session_piece end_piece
  Writes-end_year =
      from_end (λ h. absurd (omega (arith, h))) _ (search silent depth 60) (search silent depth 60)
        (search silent depth 60) (search silent depth 60)
        (silent_identity (λ h. absurd (omega (arith, h))) _ refl refl refl) (search silent depth 60)
        (search (silent, writing) depth 60)

  pub Writes-revenue : Writes "_ec_revenue" pieces (
      where_enabled "revenue_threshold"
        (end_of raw)
        (λ cfg. number_written (int_at texts (pos 1000000) "total_revenue" cfg)))
  unfolding map_piece seed_piece company_piece clock_piece session_piece end_piece
  Writes-revenue =
      from_end (λ h. absurd (omega (arith, h))) _ (search silent depth 60) (search silent depth 60)
        (search silent depth 60) (search silent depth 60)
        (silent_identity (λ h. absurd (omega (arith, h))) _ refl refl refl) (search silent depth 60)
        (search (silent, writing) depth 60)

  pub Writes-cargo : Writes "_ec_cargo" pieces (
      where_enabled "cargo_threshold"
        (end_of raw)
        (λ cfg. number_written (int_at texts (pos 50000) "total_cargo_delivered" cfg)))
  unfolding map_piece seed_piece company_piece clock_piece session_piece end_piece
  Writes-cargo =
      from_end (λ h. absurd (omega (arith, h))) _ (search silent depth 60) (search silent depth 60)
        (search silent depth 60) (search silent depth 60)
        (silent_identity (λ h. absurd (omega (arith, h))) _ refl refl refl) (search silent depth 60)
        (search (silent, writing) depth 60)

  pub Writes-heartbeats : Writes "_ec_max_heartbeats" pieces (
      where_enabled "max_heartbeats"
        (end_of raw)
        (λ cfg. number_written (int_at texts (pos 1000) "count" cfg)))
  unfolding map_piece seed_piece company_piece clock_piece session_piece end_piece
  Writes-heartbeats =
      from_end (λ h. absurd (omega (arith, h))) _ (search silent depth 60) (search silent depth 60)
        (search silent depth 60) (search silent depth 60)
        (silent_identity (λ h. absurd (omega (arith, h))) _ refl refl refl) (search silent depth 60)
        (search (silent, writing) depth 60)

  pub Writes-bankruptcy :
      Writes "_ec_bankruptcy" pieces
        (where_enabled "bankruptcy" (end_of raw) (λ cfg. some (word "1")))
  unfolding map_piece seed_piece company_piece clock_piece session_piece end_piece
  Writes-bankruptcy =
      from_end (λ h. absurd (omega (arith, h))) _ (search silent depth 60) (search silent depth 60)
        (search silent depth 60) (search silent depth 60)
        (silent_identity (λ h. absurd (omega (arith, h))) _ refl refl refl) (search silent depth 60)
        (search (silent, writing) depth 60)
