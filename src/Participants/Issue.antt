-- ===== src/Participants/Issue.antt =====
-- Issuing a token, in src/nttd/runtime/participant_registry.py.
use nttd.Prelude.{
  ℕ, ◌≡◌, ◌≢◌, refl, ◌∙◌, ap, String, true, false, not, Option, none, some, [], ◌∷◌, ◌==◌,
  string_eq, nat_eq, arith, if◌then◌else◌, All, Bool-cases, inl, inr,
}
use nttd.Prelude.Dict.{lookup, insert, erase, lookup-insert, lookup-erase}
use nttd.Participants.{
  Participant, ParticipantRegistry, for_company, drop_existing, issue, is_ascii, compare_all,
  resolve,
}

-- The registry has only tokens of ASCII.
abbrev pub HasAscii : ParticipantRegistry → Type 0
HasAscii = All (λ entry. is_ascii entry.0 ≡ true)

empty_ascii : is_ascii "" ≡ true
unfolding is_ascii
empty_ascii = refl

apart_ascii : (a b : String) → is_ascii a ≡ false → is_ascii b ≡ true → (a == b) ≡ false
apart_ascii a b h k = ground (arith, string_eq.same_iff a b)

compare_all-lookup :
    (token : String) (r : ParticipantRegistry)
    → is_ascii token ≡ true
    → HasAscii r
    → compare_all token r ≡ some (lookup token r)
unfolding compare_all lookup
compare_all-lookup token [] h hs = refl
compare_all-lookup token ((k, p) ∷ r) h hs =
    let rest = compare_all-lookup token r h hs.1 in ground (arith, rest, h, hs.0)

-- A text that is not ASCII is refused as soon as there is a candidate.
compare_all_raises :
    (token k : String) (p : Participant) (r : ParticipantRegistry)
    → is_ascii token ≡ false
    → compare_all token (insert k p r) ≡ none
unfolding compare_all insert
compare_all_raises token k p [] h = ground (arith, h)
compare_all_raises token k p ((j, q) ∷ r) h = ground (arith, h)

insert-HasAscii :
    (k : String) (p : Participant) (r : ParticipantRegistry)
    → is_ascii k ≡ true
    → HasAscii r
    → HasAscii (insert k p r)
unfolding insert
insert-HasAscii k p [] h hs = (h, tt)
insert-HasAscii k p ((j, q) ∷ r) h hs =
    let rest = insert-HasAscii k p r h hs.1 in ground (arith, rest, h, hs.0, hs.1)

erase-HasAscii : (k : String) (r : ParticipantRegistry) → HasAscii r → HasAscii (erase k r)
unfolding erase
erase-HasAscii k [] hs = tt
erase-HasAscii k ((j, q) ∷ r) hs = let rest = erase-HasAscii k r hs.1 in ground (arith, rest, hs.0)

drop_existing-HasAscii :
    (existing : Option Participant) (r : ParticipantRegistry)
    → HasAscii r
    → HasAscii (drop_existing existing r)
drop_existing-HasAscii none r hs = hs
drop_existing-HasAscii (some held) r hs = erase-HasAscii held.token r hs

lookup_after :
    (new_token token : String) (p : Participant) (r : ParticipantRegistry)
    (existing : Option Participant)
    → lookup token (insert new_token p (drop_existing existing r)) ≡ (
        if new_token == token then some p else elim existing [
          | none ↦ lookup token r
          | some held ↦ if held.token == token then none else lookup token r
        ])
lookup_after new_token token p r none = lookup-insert new_token token p r
lookup_after new_token token p r (some held) =
    rw (lookup-insert, lookup-erase) (ground (arith, string_eq.same_iff new_token token))

module _ (new_token token : String) (p : Participant) (r : ParticipantRegistry)
    (existing : Option Participant) (nonempty : new_token ≢ "")
    (fresh_ascii : is_ascii new_token ≡ true) (ascii : HasAscii r) where
  resolve_other :
      is_ascii token ≡ false
      → (resolve (some token) (insert new_token p (drop_existing existing r)) ≡ none)
        × ((new_token == token) ≡ false)
  unfolding resolve
  resolve_other other =
      let raises = compare_all_raises token new_token p (drop_existing existing r) other in
      let apart : (new_token == token) ≡ false =
        ground (arith, string_eq.same_iff new_token token) in
      let some_token : (token == "") ≡ false = apart_ascii token "" other empty_ascii in
      (rw some_token raises, apart)

  resolve_ascii :
      is_ascii token ≡ true
      → resolve (some token) (insert new_token p (drop_existing existing r)) ≡ (
          if new_token == token then some (some p) else elim existing [
            | none ↦ resolve (some token) r
            | some held ↦ if held.token == token then some none else resolve (some token) r
          ])
  unfolding resolve
  resolve_ascii own =
      let before = compare_all-lookup token r own ascii in
      let kept = drop_existing-HasAscii existing r ascii in
      let after =
        compare_all-lookup token (insert new_token p (drop_existing existing r)) own
          (insert-HasAscii new_token p (drop_existing existing r) fresh_ascii kept)
        ∙ ap some (lookup_after new_token token p r existing) in
      ground (arith, after, before, string_eq.same_iff new_token token, string_eq.same_iff token "")

-- After a token is issued to a company, that token acts as the company, the token that the company
-- held before acts as nobody, and every other token acts as it did, but one that is not ASCII, which raises
-- a TypeError as soon as any token is out. The new token is not empty, and it and all tokens that are out
-- are ASCII.
pub resolve-issue :
    (company_id : ℕ) (new_token token : String) (r : ParticipantRegistry)
    → new_token ≢ ""
    → is_ascii new_token ≡ true
    → HasAscii r
    → resolve (some token) (issue company_id new_token r).0 ≡ (
        if new_token == token
        then some (some (record { company_id = company_id; token = new_token }))
        else if not (is_ascii token)
        then none
        else elim (for_company company_id r) [
          | none ↦ resolve (some token) r
          | some existing ↦ if existing.token == token then some none else resolve (some token) r
        ])
unfolding issue
resolve-issue company_id new_token token r nonempty fresh_ascii ascii =
    let held = for_company company_id r in
    elim (Bool-cases (is_ascii token)) [
      | inl own ↦
          resolve_ascii new_token token _ r held nonempty fresh_ascii ascii own ∙ rw own refl
      | inr other ↦
          let (raises, apart) =
            resolve_other new_token token _ r held nonempty fresh_ascii ascii other in
          raises ∙ rw (apart, other) refl
    ]
