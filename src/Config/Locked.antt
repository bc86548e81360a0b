-- ===== src/Config/Locked.antt =====
-- What a scored run takes from the rules: src/nttd/config/scenario_config.py and benchmark_profile.py.
use nttd.Prelude.{
  ◌≡◌, refl, sym, String, Bool, true, none, some, List, [], ◌∷◌, ◌++◌, ◌==◌, string_eq, arith,
  Bool-cases, inl, inr,
}
use nttd.Prelude.Dict.{Dict, lookup}
use nttd.Config.Tree.{Node, find, get_or, Texts, code_of}
use nttd.Config.Profile.{BenchmarkProfile, Deviation, matches, locked_problems, deviations}
use nttd.Config.Scored.{locked_aware_get, resolve_scored, is_empty}
use nttd.Config.Tables.{landscape_map, default_landscape}
use nttd.Config.Settings.{word, Settings, code, map_piece}
use nttd.Config.Export.{
  settings, export_tree, seed_piece, company_piece, clock_piece, session_piece, end_piece,
}
use nttd.Config.Written.{Writes, silent, Writes-head, Writes-tail, Writes-say}
use nttd.Config.EndKeys.{pieces, silent_identity}
use nttd.Config.RoundTrip.{lookup_exported}
use nttd.Config.MapSize.{from_map, map_of}

first_empty : (xs ys : List Deviation) → is_empty (xs ++ ys) ≡ true → xs ≡ []
first_empty [] ys h = refl
first_empty (x ∷ xs) ys h = absurd (cc)

get_or_missing :
    (default m : Node) (path : List String) → find path m ≡ none → get_or default path m ≡ default
unfolding get_or
get_or_missing default m path omitted = ground (arith, omitted)

from_rules :
    (locked : Dict String Node) (m required fallback : Node) (key : String)
    → find (key ∷ []) m ≡ none
    → lookup key locked ≡ some required
    → locked_aware_get locked m true key fallback ≡ required
unfolding locked_aware_get
from_rules locked m required fallback key omitted found =
    rw found (get_or_missing required m (key ∷ []) omitted)

module _ (texts : Texts) (profile : BenchmarkProfile) (version : String) (raw : Node) where
  first_landscape :
      find ("landscape" ∷ []) (map_of raw) ≡ none
      → Writes "game_creation.landscape"
          (code "game_creation.landscape"
            (code_of landscape_map "0" (get_or default_landscape ("landscape" ∷ []) (map_of raw))))
          (some (word "0"))
  unfolding code_of lookup
  first_landscape omitted =
      rw (get_or_missing default_landscape (map_of raw) _ omitted)
        (Writes-say "game_creation.landscape" "0")

  Writes-landscape :
      find ("landscape" ∷ []) (map_of raw) ≡ none
      → (scored : Bool)
      → Writes "game_creation.landscape" (pieces texts profile version raw scored) (some (word "0"))
  unfolding map_piece seed_piece company_piece clock_piece session_piece end_piece
  Writes-landscape omitted scored =
      from_map texts profile version raw scored _ _
        (Writes-tail _ _ _ (search silent depth 60) (
          Writes-tail _ _ _ (search silent depth 60)
            (Writes-head _ _ _ (first_landscape omitted) (search silent depth 60))))
        (search silent depth 60) (search silent depth 60) (search silent depth 60)
        (silent_identity texts profile version raw scored (λ h. absurd (omega (arith, h))) _ refl
          refl refl)
        (search silent depth 60) (search silent depth 60)

module _ (texts : Texts) where
  same_setting :
      (m : Node) (k key : String) (r required : Node)
      → k ≡ key
      → r ≡ required
      → matches texts (get_or r (k ∷ []) m) r ≡ true
      → matches texts (get_or required (key ∷ []) m) required ≡ true
  same_setting m k key r required e e' same = rw (sym e, sym e') same

  locked_matches :
      (locked : Dict String Node) (m : Node) (key : String) (required : Node)
      → locked_problems texts locked m ≡ []
      → lookup key locked ≡ some required
      → matches texts (get_or required (key ∷ []) m) required ≡ true
  unfolding locked_problems lookup
  locked_matches [] m key required clear found = absurd (cc)
  locked_matches ((k, r) ∷ locked) m key required clear found =
      elim (Bool-cases (matches texts (get_or r (k ∷ []) m) r)) [
        | inr differs ↦ absurd (ground arith)
        | inl same ↦ elim (Bool-cases (k == key)) [
          | inl here ↦
              same_setting m k key r required ((string_eq.same_iff k key).0 here) (ground arith)
                same
          | inr there ↦ locked_matches locked m key required (ground arith) (ground arith)
        ]
      ]

  scored_conforms :
      (profile : BenchmarkProfile) (raw m : Node) (scenario_id : String)
      → (resolve_scored texts profile raw m scenario_id).0 ≡ true
      → is_empty (deviations texts profile m scenario_id) ≡ true
  unfolding resolve_scored
  scored_conforms profile raw m scenario_id h = ground arith

  -- In a scored run, what `_locked_aware_get` answers for a locked setting, whatever its fallback, matches
  -- what the rules ask for, whether the map names it or not.
  pub locked_aware_get-resolve_scored :
      (profile : BenchmarkProfile) (raw m : Node) (scenario_id key : String)
      (required fallback : Node)
      → (resolve_scored texts profile raw m scenario_id).0 ≡ true
      → lookup key profile.locked ≡ some required
      → matches texts (locked_aware_get profile.locked m true key fallback) required ≡ true
  unfolding locked_aware_get deviations
  locked_aware_get-resolve_scored profile raw m scenario_id key required fallback scored found =
      let clear = first_empty _ _ (scored_conforms profile raw m scenario_id scored) in
      rw found (locked_matches profile.locked m key required clear found)

  -- Where the map names no landscape, a scored run is generated with the first one, although the rules
  -- may lock another, which is then what `_locked_aware_get` answers.
  pub landscape_omitted :
      (profile : BenchmarkProfile) (version : String) (strict : Bool) (raw required : Node)
      (d : Settings)
      → export_tree texts profile version strict raw ≡ settings d
      → find ("landscape" ∷ []) (map_of raw) ≡ none
      → lookup "landscape" profile.locked ≡ some required
      → (lookup "game_creation.landscape" d ≡ some (word "0"))
        × (locked_aware_get profile.locked (map_of raw) true "landscape" default_landscape
            ≡ required)
  landscape_omitted profile version strict raw required d exported omitted found = (
    lookup_exported texts profile version strict raw d exported _ _
        (Writes-landscape texts profile version raw omitted),
    from_rules profile.locked (map_of raw) required default_landscape _ omitted found,
  )
