-- ===== src/Actions/Reply.antt =====
-- src/nttd/actions/gs_reply.py: a GameScript reply read as an action result. A text that the
-- source puts together is the list of its parts. The tables of src/nttd/config/error_codes.py come
-- from a dump of the game, so they are parameters.
use nttd.Prelude.{
  ◌≡◌, ◌↔◌, ◌≢◌, ◌⊎◌, String, Bool, true, false, ◌||◌, Option, none, some, List, [], ◌∷◌, arith,
  ◌==◌, string_eq, if◌then◌else◌, Option-cases, inl, inr,
}
use text.Mathlib.TextEquality.{eq_iff}
use nttd.Prelude.Dict.{Dict, lookup}
use nttd.Prelude.Int.{ℤ, int_eq}
use nttd.Prelude.Distinct.{contains}
use nttd.Json.{null, flag, number, fraction, str, items, table, Payload}
use nttd.Actions.Gate.{ActionStatus, success, failed, partial}

pub record Reply : Type 0 where
  pub success : Bool
  pub result : Option Payload
  pub error_code : Option ℤ
  pub error_name : Option String
  pub error_category : Option ℤ
  pub error : Option String
  pub reason : Option String

pub record ActionResult : Type 0 where
  pub action_id : String
  pub status : ActionStatus
  pub error : List String
  pub error_code : Option ℤ
  pub error_name : String
  pub error_category : String
  pub changed_entities : Payload

-- `value or default`, for a text that may be absent: an empty text counts as absent.
unfoldable pub or_else : Option String → String → String
or_else none default = default
or_else (some s) default = if s == "" then default else s

-- `reply.get("result") or {}`
unfoldable pub payload_of : Reply → Payload
payload_of reply = elim reply.result [ none ↦ [] | some p ↦ p ]

unfoldable pub is_partial : Payload → Bool
is_partial payload = elim (lookup "status" payload) [
  | none ↦ false
  | some v ↦ elim v [ str s ↦ s == "partial" | _ ↦ false ]
]

-- `error_name` and `category_name`.
unfoldable pub name_in : Dict ℤ String → Option ℤ → String
name_in names none = ""
name_in names (some code) = elim (lookup code names) [ none ↦ "" | some name ↦ name ]

abbrev absent : Option String → Bool
absent none = true
absent (some s) = s == ""

abbrev text_or_empty : Option String → String
text_or_empty none = ""
text_or_empty (some s) = s

unfoldable pub explain : Reply → List String
unfolding or_else
explain reply =
    let error = text_or_empty reply.error in
    let reason = text_or_empty reply.reason in
    if absent reply.reason
    then or_else reply.error "GS returned failure" ∷ []
    else if absent reply.error || error == reason
    then reason ∷ []
    else reason ∷ " (the game reported: " ∷ error ∷ ")" ∷ []

module _ (code_to_name category_to_name : Dict ℤ String) where
  unfoldable pub result_from_reply : String → Reply → ActionResult
  unfolding explain payload_of is_partial name_in or_else
  result_from_reply action_id reply =
      let payload = payload_of reply in
      if reply.success
      then record {
        action_id = action_id;
        status = success;
        error = [];
        error_code = none;
        error_name = "";
        error_category = "";
        changed_entities = payload;
      }
      else record {
        action_id = action_id;
        status = if is_partial payload then partial else failed;
        error = explain reply;
        error_code = reply.error_code;
        error_name = or_else reply.error_name (name_in code_to_name reply.error_code);
        error_category = name_in category_to_name reply.error_category;
        changed_entities = payload;
      }

-- `s` is one of the parts of a text.
abbrev Shows : String → List String → Type 0
Shows s parts = contains s parts ≡ true

-- A refusal says all that the game sent: a reason and an error that are not empty are both part of
-- the text.
explain-Shows :
    (reply : Reply) (s : String)
    → s ≢ ""
    → (reply.reason ≡ some s) ⊎ (reply.error ≡ some s)
    → Shows s (explain reply)
unfolding explain contains
explain-Shows reply s full h = ground (
  arith,
  eq_iff s "",
  eq_iff s s,
  eq_iff (text_or_empty reply.error) (text_or_empty reply.reason),
)

is_partial_iff :
    (payload : Payload)
    → (is_partial payload ≡ true) ↔ (lookup "status" payload ≡ some (str "partial"))
unfolding is_partial
is_partial_iff payload = elim (Option-cases (lookup "status" payload)) [
  | inl e ↦ rw e ((λ h. cc), (λ h. cc))
  | inr (str s, e) ↦ rw e (ground (arith, eq_iff s "partial"))
  | inr (null, e) ↦ rw e ((λ h. cc), (λ h. cc))
  | inr (flag b, e) ↦ rw e ((λ h. cc), (λ h. cc))
  | inr (number n, e) ↦ rw e ((λ h. cc), (λ h. cc))
  | inr (fraction n, e) ↦ rw e ((λ h. cc), (λ h. cc))
  | inr (items l, e) ↦ rw e ((λ h. cc), (λ h. cc))
  | inr (table, e) ↦ rw e ((λ h. cc), (λ h. cc))
]

-- A reply is a success exactly when the game says so, partial exactly when it is not and its
-- payload says "partial"; it keeps its payload on every branch, and the error code where it is no
-- success.
result_from_reply-status :
    (codes categories : Dict ℤ String) (action_id : String) (reply : Reply)
    → let result = result_from_reply codes categories action_id reply in
      ((result.status ≡ success) ↔ (reply.success ≡ true))
      × ((result.status ≡ partial)
          ↔ ((reply.success ≡ false) × (lookup "status" (payload_of reply) ≡ some (str "partial"))))
      × (result.changed_entities ≡ payload_of reply)
      × ((reply.success ≡ true) ⊎ (result.error_code ≡ reply.error_code))
unfolding result_from_reply
result_from_reply-status codes categories action_id reply =
    ground (arith, is_partial_iff (payload_of reply))
