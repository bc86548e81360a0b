-- ===== src/Actions/Gate.antt =====
-- src/nttd/actions/gate.py: the one admission check. The text of a refusal is the reason's kind
-- and the action that it names.
use nttd.Prelude.{◌≡◌, refl, ◌↔◌, String, Bool, true, false, arith, string_eq, if◌then◌else◌}
use nttd.Prelude.Int.{ℤ}
use nttd.Prelude.Distinct.{contains, disjoint, disjoint_lem}
use nttd.Actions.Vocabulary.{known_actions, operator_actions, read_only_gs_actions}

pub data ActionStatus : Type 0 where
  pending validated rejected executing success failed partial blocked : ActionStatus

pub data Refusal : Type 0 where
  no_refusal : Refusal
  operator_tier read_only_query unknown_action : String → Refusal

pub record Admission : Type 0 where
  pub allowed : Bool
  pub status : ActionStatus
  pub error : Refusal

abbrev refuse : Refusal → Admission
refuse error = record { allowed = false; status = rejected; error = error }

unfoldable pub admit : String → ℤ → Admission
admit action_type company_id =
    if contains action_type operator_actions
    then refuse (operator_tier action_type)
    else if contains action_type read_only_gs_actions
    then refuse (read_only_query action_type)
    else if contains action_type known_actions
    then record { allowed = true; status = success; error = no_refusal }
    else refuse (unknown_action action_type)

-- The `assert` lines of the vocabulary.
known-operator_disjoint : disjoint known_actions operator_actions ≡ true
unfolding disjoint
known-operator_disjoint = refl

read_only-known_disjoint : disjoint known_actions read_only_gs_actions ≡ true
unfolding disjoint
read_only-known_disjoint = refl

-- The three tests of `admit`, as values.
abbrev admission : String → Bool → Bool → Bool → Admission
admission action operator query known =
    if operator
    then refuse (operator_tier action)
    else if query
    then refuse (read_only_query action)
    else if known
    then record { allowed = true; status = success; error = no_refusal }
    else refuse (unknown_action action)

admission_cases :
    (action : String) (operator query known : Bool)
    → (known ≡ true → operator ≡ false)
    → (known ≡ true → query ≡ false)
    → let admission = admission action operator query known in
      ((admission.allowed ≡ true) ↔ (known ≡ true))
      × ((admission.status ≡ rejected) ↔ (known ≡ false))
      × ((admission.error ≡ operator_tier action) ↔ (operator ≡ true))
      × ((admission.error ≡ read_only_query action) ↔ ((operator ≡ false) × (query ≡ true)))
admission_cases action operator query known h k = ground arith

-- Exactly the actions that a player has are admitted, all others are refused as rejected, and
-- exactly the operator powers and the other queries are named as such, not as unknown.
pub admit_iff :
    (action_type : String) (company_id : ℤ)
    → let admission = admit action_type company_id in
      ((admission.allowed ≡ true) ↔ (contains action_type known_actions ≡ true))
      × ((admission.status ≡ rejected) ↔ (contains action_type known_actions ≡ false))
      × ((admission.error ≡ operator_tier action_type)
          ↔ (contains action_type operator_actions ≡ true))
      × ((admission.error ≡ read_only_query action_type) ↔ (
          (contains action_type operator_actions ≡ false)
          × (contains action_type read_only_gs_actions ≡ true)))
unfolding admit
admit_iff action_type company_id =
    admission_cases action_type (contains action_type operator_actions)
      (contains action_type read_only_gs_actions) (contains action_type known_actions)
      (disjoint_lem known_actions operator_actions action_type known-operator_disjoint)
      (disjoint_lem known_actions read_only_gs_actions action_type read_only-known_disjoint)
