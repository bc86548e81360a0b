-- ===== src/Participants.antt =====
-- src/nttd/runtime/participant_registry.py: which token may act as which company. `uuid4` is not
-- modelled: a new token is an argument. The token file is the dictionary that it holds, or nothing
-- where it is missing or cannot be read; its keys are the company numbers that `str` and `int` turn
-- to text and back.
pub mod Issue
use Prim.Native.Char.{code}
use Prim.Native.String
use nttd.Prelude.{
  ltb, ◌&&◌, ℕ, String, Bool, true, false, Option, none, some, List, [], ◌∷◌, ◌==◌, string_eq,
  nat_eq, leb, length, if◌then◌else◌,
}
use nttd.Prelude.Dict.{Dict, values, insert, erase}

pub record Participant : Type 0 where
  pub company_id : ℕ
  pub token : String

abbrev pub ParticipantRegistry : Type 0
ParticipantRegistry = Dict String Participant

unfoldable pub find_company : ℕ → List Participant → Option Participant
find_company company_id [] = none
find_company company_id (p ∷ ps) =
    if p.company_id == company_id then some p else find_company company_id ps

unfoldable pub for_company : ℕ → ParticipantRegistry → Option Participant
unfolding find_company
for_company company_id r = find_company company_id (values r)

-- `existing` is removed by its own token.
abbrev drop_existing : Option Participant → ParticipantRegistry → ParticipantRegistry
drop_existing none r = r
drop_existing (some existing) r = erase existing.token r

unfoldable pub issue :
    (company_id : ℕ) (new_token : String) → ParticipantRegistry → ParticipantRegistry × Participant
issue company_id new_token r =
    let participant : Participant = record { company_id = company_id; token = new_token } in
    (insert new_token participant (drop_existing (for_company company_id r) r), participant)

-- Whether a text has characters of ASCII only.
unfoldable pub is_ascii : String → Bool
is_ascii String.[] = true
is_ascii (String.◌∷◌ c s) = ltb (code c) 128 && is_ascii s

-- `secrets.compare_digest`: none is the TypeError of a text that is not ASCII.
abbrev pub compare_digest : String → String → Option Bool
compare_digest candidate token =
    if is_ascii candidate && is_ascii token then some (candidate == token) else none

-- The loop over the candidates; none is a TypeError.
unfoldable pub compare_all : String → ParticipantRegistry → Option (Option Participant)
compare_all token [] = some none
compare_all token ((candidate, participant) ∷ r) =
    let rest = compare_all token r in
    elim (compare_digest candidate token) [
      | none ↦ none
      | some same ↦ if same then some (some participant) else rest
    ]

unfoldable pub resolve : Option String → ParticipantRegistry → Option (Option Participant)
unfolding compare_all
resolve none r = some none
resolve (some token) r = if token == "" then some none else compare_all token r

unfoldable pub insert_sorted : Participant → List Participant → List Participant
insert_sorted p [] = p ∷ []
insert_sorted p (q ∷ qs) =
    if leb p.company_id q.company_id then p ∷ q ∷ qs else q ∷ insert_sorted p qs

-- `sorted`, by company, keeps the order of equal ones.
unfoldable pub sort_by_company : List Participant → List Participant
unfolding insert_sorted
sort_by_company [] = []
sort_by_company (p ∷ ps) = insert_sorted p (sort_by_company ps)

unfoldable pub participants : ParticipantRegistry → List Participant
unfolding sort_by_company
participants r = sort_by_company (values r)

unfoldable pub is_empty : ParticipantRegistry → Bool
is_empty [] = true
is_empty (_ ∷ _) = false

unfoldable pub payload_of : List Participant → Dict ℕ String → Dict ℕ String
payload_of [] payload = payload
payload_of (p ∷ ps) payload = payload_of ps (insert p.company_id p.token payload)

-- What the token file holds.
unfoldable pub write : ParticipantRegistry → Dict ℕ String
unfolding participants payload_of
write r = payload_of (participants r) []

unfoldable pub restore : Dict ℕ String → ParticipantRegistry → ParticipantRegistry
restore [] r = r
restore ((company_id, token) ∷ payload) r =
    restore payload (insert token (record { company_id = company_id; token = token }) r)

unfoldable pub load : Option (Dict ℕ String) → ParticipantRegistry → ParticipantRegistry × ℕ
unfolding restore
load none r = (r, 0)
load (some payload) r = let loaded = restore payload [] in (loaded, length loaded)
