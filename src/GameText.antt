-- ===== src/GameText.antt =====
-- src/nttd/utils/game_text.py: text that a contestant may write, before it reaches an observation. A text
-- is the list of its code points.
pub mod Passes
pub mod Safety
pub mod Observation
use nttd.Prelude.{
  ℕ, zero, suc, ◌+◌, ◌-◌, Bool, true, false, not, ◌&&◌, ◌||◌, Option, none, some, List, [], ◌∷◌,
  ◌++◌, length, filter, ltb, leb, ◌==◌, nat_eq, if◌then◌else◌,
}

abbrev pub Text : Type 0
Text = List ℕ

abbrev pub max_text_length : ℕ
max_text_length = 64

-- "..."
abbrev pub truncation_marker : Text
truncation_marker = 46 ∷ 46 ∷ 46 ∷ []

abbrev between : ℕ → ℕ → ℕ → Bool
between low high c = leb low c && leb c high

-- `_CONTROL_CHARS`: the control codes, the two separators, and the bidirectional overrides.
unfoldable pub is_control : ℕ → Bool
is_control c =
    between 0 8 c
    || between 11 31 c
    || between 127 159 c
    || between 8232 8233 c
    || between 8234 8238 c
    || between 8294 8297 c

-- A character of `_WHITESPACE`: a tab, a line feed or a carriage return.
unfoldable pub is_break : ℕ → Bool
is_break c = c == 9 || c == 10 || c == 13

-- What `strip` takes off: `str.isspace`.
unfoldable pub is_space : ℕ → Bool
is_space c =
    between 9 13 c
    || between 28 32 c
    || c == 133
    || c == 160
    || c == 5760
    || between 8192 8202 c
    || between 8232 8233 c
    || c == 8239
    || c == 8287
    || c == 12288

-- A run of breaks becomes one space; the flag says that the run has its space.
unfoldable pub fold_breaks : (in_run : Bool) → Text → Text
fold_breaks in_run [] = []
fold_breaks in_run (c ∷ cs) =
    let same_run = fold_breaks true cs in
    let after = fold_breaks false cs in
    if is_break c then (if in_run then same_run else 32 ∷ same_run) else c ∷ after

-- A run of spaces becomes one.
unfoldable pub collapse : (in_run : Bool) → Text → Text
collapse in_run [] = []
collapse in_run (c ∷ cs) =
    let same_run = collapse true cs in
    let after = collapse false cs in
    if c == 32 then (if in_run then same_run else 32 ∷ same_run) else c ∷ after

unfoldable pub lstrip : Text → Text
lstrip [] = []
lstrip (c ∷ cs) = let rest = lstrip cs in if is_space c then rest else c ∷ cs

abbrev pub ends_here : Text → Bool
ends_here [] = true
ends_here (c ∷ cs) = false

unfoldable pub rstrip : Text → Text
rstrip [] = []
rstrip (c ∷ cs) = let rest = rstrip cs in if ends_here rest && is_space c then [] else c ∷ rest

-- `cleaned[:keep]`
abbrev pub take : ℕ → Text → Text
take zero cs = []
take (suc n) [] = []
take (suc n) (c ∷ cs) = c ∷ take n cs

unfoldable pub clean : Text → Text
clean text =
    rstrip (lstrip (collapse false (filter (λ c. not (is_control c)) (fold_breaks false text))))

unfoldable pub truncate : (max_length : ℕ) → Text → Text
truncate max_length cleaned =
    if ltb max_length (length cleaned)
    then rstrip (take (max_length - 3) cleaned) ++ truncation_marker
    else cleaned

-- none is Python's None; a value that is no text is coerced before.
unfoldable pub sanitise : (max_length : ℕ) → Option Text → Text
sanitise max_length none = []
sanitise max_length (some text) = truncate max_length (clean text)

-- `<label>…</label>`
abbrev pub opening : Text → Text
opening label = 60 ∷ (label ++ 62 ∷ [])

abbrev pub closing : Text → Text
closing label = 60 ∷ 47 ∷ (label ++ 62 ∷ [])

unfoldable pub as_data_block : Text → Text → Text
as_data_block label text = opening label ++ sanitise max_text_length (some text) ++ closing label
