-- ===== src/Config/MapSize.antt =====
-- The size of the map that a strictly exported scenario generates: src/nttd/config/scenario_config.py.
use nttd.Prelude.{
  ℕ, ◌≤◌, ◌≡◌, refl, ap, ◌∙◌, String, Bool, true, Option, none, some, [], ◌∷◌, ◌==◌, nat_eq,
  string_eq, nat_eqb_iff, arith,
}
use Prim.Native.Nat.{◌^◌}
use nttd.Prelude.Dict.{lookup}
use nttd.Prelude.Int.{ℤ, pos}
use nttd.Config.Tree.{Node, nothing, get_or, Texts, int_at}
use nttd.Config.Profile.{BenchmarkProfile}
use nttd.Config.Validate.{Validation, accepted, refused, raised}
use nttd.Config.Conditions.{conditions, Every}
use nttd.Config.Admission.{validate_config-conditions}
use nttd.Config.Clears.{passes_up_to, passes_at}
use nttd.Config.Settings.{Setting, number, Settings, Piece, log2, map_piece}
use nttd.Config.Export.{
  settings, validated, parts_of, scenario_id_of, export_tree, seed_piece, company_piece,
  clock_piece, identity_piece, session_piece, end_piece, all_pieces,
}
use nttd.Config.Written.{
  Writes, silent, Writes-head, Writes-tail, silent_nil, silent_cons, Writes-count,
}
use nttd.Config.EndKeys.{pieces, silent_identity}
use nttd.Config.RoundTrip.{lookup_exported}

powers_counted : passes_up_to (λ k. log2 (pos (2 ^ k)) == k) 12 ≡ true
unfolding passes_up_to log2
powers_counted = refl

log2-pow : (k : ℕ) → k ≤ 12 → log2 (pos (2 ^ k)) ≡ k
log2-pow k h = (nat_eqb_iff _ k).0 (passes_at _ 12 k powers_counted h)

abbrev pub map_of : Node → Node
map_of = get_or nothing ("map" ∷ [])

module _ (texts : Texts) (profile : BenchmarkProfile) (version : String) (raw : Node) where
  pub from_map :
      (scored : Bool) (key : String) (a : Option Setting)
      → Writes key (map_piece texts profile (map_of raw) scored) a
      → Writes key (seed_piece texts profile (map_of raw)) none
      → Writes key (company_piece texts profile (get_or nothing ("companies" ∷ []) raw)) none
      → Writes key (clock_piece texts profile (get_or nothing ("runtime" ∷ []) raw)) none
      → Writes key
          (identity_piece texts profile
            (map_of raw)
            (scenario_id_of texts profile raw)
            scored
            version)
          none
      → Writes key
          (session_piece texts profile
            (get_or nothing ("runtime" ∷ []) raw)
            (get_or nothing ("heartbeat" ∷ []) raw))
          none
      → Writes key (end_piece texts profile (get_or nothing ("end_conditions" ∷ []) raw)) none
      → Writes key (pieces texts profile version raw scored) a
  unfolding all_pieces
  from_map scored key a w seed companies clock identity session end = Writes-head _ _ a w (
      silent_cons _ _ seed (
        silent_cons _ _ companies (
          silent_cons _ _ clock
            (silent_cons _ _ identity (silent_cons _ _ session (silent_cons _ _ end silent_nil))))))

  Writes-map_x :
      (n : ℤ)
      → int_at texts (pos 256) "size_x" (map_of raw) ≡ some n
      → (scored : Bool)
      → Writes "game_creation.map_x"
          (pieces texts profile version raw scored)
          (some (number (pos (log2 n))))
  unfolding map_piece seed_piece company_piece clock_piece session_piece end_piece
  Writes-map_x n e scored =
      from_map scored _ _
        (Writes-head _ _ _ (rw e (Writes-count _ (some (pos (log2 n))))) (search silent depth 60))
        (search silent depth 60) (search silent depth 60) (search silent depth 60)
        (silent_identity texts profile version raw scored (λ h. absurd (omega (arith, h))) _ refl
          refl refl)
        (search silent depth 60) (search silent depth 60)

  Writes-map_y :
      (n : ℤ)
      → int_at texts (pos 256) "size_y" (map_of raw) ≡ some n
      → (scored : Bool)
      → Writes "game_creation.map_y"
          (pieces texts profile version raw scored)
          (some (number (pos (log2 n))))
  unfolding map_piece seed_piece company_piece clock_piece session_piece end_piece
  Writes-map_y n e scored =
      from_map scored _ _
        (Writes-tail _ _ _ (search silent depth 60) (
          Writes-head _ _ _ (rw e (Writes-count _ (some (pos (log2 n))))) (search silent depth 60)))
        (search silent depth 60) (search silent depth 60) (search silent depth 60)
        (silent_identity texts profile version raw scored (λ h. absurd (omega (arith, h))) _ refl
          refl refl)
        (search silent depth 60) (search silent depth 60)

validated_accepted :
    (v : Validation) (p : Piece) (d : Settings) → validated v p ≡ settings d → v ≡ accepted
validated_accepted accepted p d h = refl
validated_accepted (refused problems) p d h = absurd (cc)
validated_accepted raised p d h = absurd (cc)

conditions_kept :
    (texts : Texts) (profile : BenchmarkProfile) (version : String) (raw : Node) (d : Settings)
    → export_tree texts profile version true raw ≡ settings d
    → Every (conditions texts (parts_of raw))
unfolding export_tree
conditions_kept texts profile version raw d h =
    ((validate_config-conditions texts _ (parts_of raw)).0 (validated_accepted _ _ d h)).1

counted :
    (n : ℤ) (k : ℕ)
    → k ≤ 12
    → n ≡ pos (2 ^ k)
    → ◌≡◌ {A = Option Setting} (some (number (pos (log2 n)))) (some (number (pos k)))
counted n k hi e = rw e (ap (λ m. some (number (pos m))) (log2-pow k hi))

-- A scenario that the strict check lets through has a map of 64 to 4096 tiles along each edge, and the
-- exponents that the game is given are those of its edges.
pub export_tree_sizes :
    (texts : Texts) (profile : BenchmarkProfile) (version : String) (raw : Node) (d : Settings)
    → export_tree texts profile version true raw ≡ settings d
    → ((k : ℕ) × (6 ≤ k)
        × (k ≤ 12)
        × (int_at texts (pos 256) "size_x" (map_of raw) ≡ some (pos (2 ^ k)))
        × (lookup "game_creation.map_x" d ≡ some (number (pos k))))
      × ((k : ℕ) × (6 ≤ k)
          × (k ≤ 12)
          × (int_at texts (pos 256) "size_y" (map_of raw) ≡ some (pos (2 ^ k)))
          × (lookup "game_creation.map_y" d ≡ some (number (pos k))))
export_tree_sizes texts profile version raw d h =
    let kept = conditions_kept texts profile version raw d h in
    let (x, read_x, (k, lo, hi, x_is)) = kept.1.1.1.1.1.1.1.1.1.0 in
    let (y, read_y, (j, lo', hi', y_is)) = kept.1.1.1.1.1.1.1.1.1.1.0 in
    let at = lookup_exported texts profile version true raw d h in
    (
      (
        k,
        lo,
        hi,
        read_x ∙ ap some x_is,
        at _ _ (Writes-map_x texts profile version raw x read_x) ∙ counted x k hi x_is,
      ),
      (
        j,
        lo',
        hi',
        read_y ∙ ap some y_is,
        at _ _ (Writes-map_y texts profile version raw y read_y) ∙ counted y j hi' y_is,
      ),
    )
