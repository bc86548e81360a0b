-- ===== src/GameText/Observation.antt =====
-- `sanitise_observation` of src/nttd/utils/game_text.py: every text under a key that a contestant may
-- write is sanitised, at any depth of an observation.
use nttd.Prelude.{
  ℕ, ◌≤◌, ◌≡◌, String, true, some, List, [], ◌∷◌, length, string_eq, if◌then◌else◌, Bool-cases, inl,
  inr,
}
use nttd.Prelude.Distinct.{contains}
use nttd.GameText.{Text, sanitise}
use nttd.GameText.Safety.{IsClean, sanitise-IsClean}

abbrev pub untrusted_keys : List String
untrusted_keys =
    "name" ∷ "company_name" ∷ "station_name" ∷ "town_name" ∷ "vehicle_name" ∷ "nearest_town"
    ∷ "src_name" ∷ "dst_name" ∷ "text" ∷ "sign_text" ∷ "manager" ∷ []

-- `scalar` is any value that is no text, list or mapping; it is left as it is.
mutual
  pub data Observation : Type 0 where
    scalar : Observation
    string : Text → Observation
    listing : Observations → Observation
    mapping : Fields → Observation

  pub data Observations : Type 0 where
    nil : Observations
    cons : Observation → Observations → Observations

  pub data Fields : Type 0 where
    end : Fields
    field : String → Observation → Fields → Fields

-- The value of a field, from what it was and what the recursion makes of it.
abbrev pub field_value : (max_length : ℕ) → String → Observation → Observation → Observation
field_value max_length key (string text) recursed =
    if contains key untrusted_keys then string (sanitise max_length (some text)) else recursed
field_value max_length key scalar recursed = recursed
field_value max_length key (listing entries) recursed = recursed
field_value max_length key (mapping fields) recursed = recursed

unfoldable mutual
  pub sanitise_observation : (max_length : ℕ) → Observation → Observation
  sanitise_observation max_length scalar = scalar
  sanitise_observation max_length (string text) = string text
  sanitise_observation max_length (listing entries) = listing (sanitise_entries max_length entries)
  sanitise_observation max_length (mapping fields) = mapping (sanitise_fields max_length fields)

  pub sanitise_entries : (max_length : ℕ) → Observations → Observations
  sanitise_entries max_length nil = nil
  sanitise_entries max_length (cons entry entries) =
      cons (sanitise_observation max_length entry) (sanitise_entries max_length entries)

  pub sanitise_fields : (max_length : ℕ) → Fields → Fields
  sanitise_fields max_length end = end
  sanitise_fields max_length (field key value fields) =
      field key (field_value max_length key value (sanitise_observation max_length value))
        (sanitise_fields max_length fields)

-- A text that stands under an untrusted key is clean and within the limit.
abbrev pub IsSafeUnder : (max_length : ℕ) → String → Observation → Type 0
IsSafeUnder max_length key (string text) =
    contains key untrusted_keys ≡ true → IsClean text × (length text ≤ max_length)
IsSafeUnder max_length key scalar = Unit
IsSafeUnder max_length key (listing entries) = Unit
IsSafeUnder max_length key (mapping fields) = Unit

-- So is each text under such a key, at any depth.
unfoldable mutual
  pub IsSafe : (max_length : ℕ) → Observation → Type 0
  IsSafe max_length scalar = Unit
  IsSafe max_length (string text) = Unit
  IsSafe max_length (listing entries) = AllSafe max_length entries
  IsSafe max_length (mapping fields) = FieldsSafe max_length fields

  pub AllSafe : (max_length : ℕ) → Observations → Type 0
  AllSafe max_length nil = Unit
  AllSafe max_length (cons entry entries) = IsSafe max_length entry × AllSafe max_length entries

  pub FieldsSafe : (max_length : ℕ) → Fields → Type 0
  FieldsSafe max_length end = Unit
  FieldsSafe max_length (field key value fields) =
      IsSafeUnder max_length key value × IsSafe max_length value × FieldsSafe max_length fields

module _ (max_length : ℕ) (room : 3 ≤ max_length) where
  field_value-IsSafeUnder :
      (key : String) (value : Observation)
      → IsSafeUnder max_length key
          (field_value max_length key value (sanitise_observation max_length value))
  unfolding sanitise_observation
  field_value-IsSafeUnder key scalar = tt
  field_value-IsSafeUnder key (listing entries) = tt
  field_value-IsSafeUnder key (mapping fields) = tt
  field_value-IsSafeUnder key (string text) = elim (Bool-cases (contains key untrusted_keys)) [
    | inl untrusted ↦ rw untrusted (λ h. sanitise-IsClean max_length (some text) room)
    | inr trusted ↦ rw trusted (λ h. absurd (cc (trusted, h)))
  ]

  field_value-IsSafe :
      (key : String) (value : Observation)
      → IsSafe max_length (sanitise_observation max_length value)
      → IsSafe max_length (field_value max_length key value (sanitise_observation max_length value))
  unfolding sanitise_observation IsSafe
  field_value-IsSafe key scalar h = h
  field_value-IsSafe key (listing entries) h = h
  field_value-IsSafe key (mapping fields) h = h
  field_value-IsSafe key (string text) h = elim (Bool-cases (contains key untrusted_keys)) [
    | inl untrusted ↦ rw untrusted tt
    | inr trusted ↦ rw trusted tt
  ]

  mutual
    unfolding sanitise_observation IsSafe

    sanitised-IsSafe :
        (value : Observation) → IsSafe max_length (sanitise_observation max_length value)
    sanitised-IsSafe scalar = tt
    sanitised-IsSafe (string text) = tt
    sanitised-IsSafe (listing entries) = sanitise_entries-AllSafe entries
    sanitised-IsSafe (mapping fields) = sanitise_fields-FieldsSafe fields

    sanitise_entries-AllSafe :
        (entries : Observations) → AllSafe max_length (sanitise_entries max_length entries)
    sanitise_entries-AllSafe nil = tt
    sanitise_entries-AllSafe (cons entry entries) =
        (sanitised-IsSafe entry, sanitise_entries-AllSafe entries)

    sanitise_fields-FieldsSafe :
        (fields : Fields) → FieldsSafe max_length (sanitise_fields max_length fields)
    sanitise_fields-FieldsSafe end = tt
    sanitise_fields-FieldsSafe (field key value fields) = (
      field_value-IsSafeUnder key value,
      field_value-IsSafe key value (sanitised-IsSafe value),
      sanitise_fields-FieldsSafe fields,
    )

  -- In a sanitised observation each text that stands directly under an untrusted key, at any depth, holds
  -- no control character, line break or double space and no space at an end, and is no longer than the
  -- limit, where the limit leaves room for the three dots.
  pub sanitise_observation-IsSafe :
      (value : Observation) → IsSafe max_length (sanitise_observation max_length value)
  sanitise_observation-IsSafe value = sanitised-IsSafe value
