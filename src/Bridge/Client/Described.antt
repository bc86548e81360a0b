-- ===== src/Bridge/Client/Described.antt =====
-- A reply of src/nttd/bridge/admin_client.py that came in several packets, as the game split it.
use nttd.Prelude.{
  ◌≡◌, refl, String, Bool, true, Option, none, some, List, [], ◌∷◌, ◌++◌, ◌==◌, string_eq,
  if◌then◌else◌,
}
use nttd.Prelude.Dict.{Dict, insert}
use nttd.Bridge.Client.{CorrelationId, Outcome, items, value, Chunk, or_else}
use nttd.Bridge.Client.Merge.{merged, Bulk, plain, table, items_of, extend, rebuild, merge_sorted}

-- The verdict of the whole reply: a first chunk that gives none counts as a success.
abbrev pub given_verdict : Option Bool → Bool
given_verdict none = true
given_verdict (some success) = success

given_verdict_lem : (success : Option Bool) → or_else success true ≡ given_verdict success
given_verdict_lem none = refl
given_verdict_lem (some success) = refl

module _ {J : Type 0} where
  -- The records of one chunk: those of its list, its one value, or none.
  abbrev records_in : Option (Outcome J) → List J
  records_in none = []
  records_in (some (items entries)) = entries
  records_in (some (value single)) = single ∷ []

  abbrev pub all_records : List (Chunk J) → List J
  all_records [] = []
  all_records (chunk ∷ chunks) = records_in chunk.result ++ all_records chunks

  records_lem :
      (result : Option (Outcome J)) → items_of (or_else result (items [])) ≡ records_in result
  records_lem none = refl
  records_lem (some (items entries)) = refl
  records_lem (some (value single)) = refl

  extend-records : (chunks : List (Chunk J)) → extend chunks ≡ all_records chunks
  unfolding extend
  extend-records [] = refl
  extend-records (chunk ∷ chunks) = rw (records_lem chunk.result, extend-records chunks) refl

  module _ (array : List J → J) where
    -- With a key that is not empty, the fields of the table and the records under the key; else the
    -- records alone.
    abbrev pub bundled : Option String → Option (Dict String J) → List J → Bulk J
    bundled none fields records = plain records
    bundled (some key) none records =
        if key == "" then plain records else table ((key, array records) ∷ [])
    bundled (some key) (some fields) records =
        if key == "" then plain records else table (insert key (array records) fields)

    rebuild_lem :
        (key : Option String) (fields : Option (Dict String J)) (records : List J)
        → rebuild array key fields records ≡ bundled key fields records
    unfolding insert
    rebuild_lem none fields records = refl
    rebuild_lem (some key) none records = refl
    rebuild_lem (some key) (some fields) records = refl

    pub merge_sorted-described :
        (id : CorrelationId) (first : Chunk J) (rest : List (Chunk J))
        → merge_sorted array id (first ∷ rest)
          ≡ merged id
              (given_verdict first.success)
              first.explanation
              (bundled first.key first.meta (all_records (first ∷ rest)))
    merge_sorted-described id first rest =
        rw
          (
            extend-records (first ∷ rest),
            rebuild_lem first.key first.meta,
            given_verdict_lem first.success,
          )
          refl
