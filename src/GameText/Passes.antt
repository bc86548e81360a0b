-- ===== src/GameText/Passes.antt =====
-- The passes of src/nttd/utils/game_text.py, one by one: what each leaves, and the texts that it leaves as
-- they are.
use nttd.Prelude.{
  ℕ, zero, suc, ◌≤◌, ◌≡◌, refl, sym, ap, Bool, true, false, not, ◌&&◌, [], ◌∷◌, ◌++◌, length,
  filter, ◌==◌, nat_eq, All, Bool-cases, inl, inr, arith,
}
use mathlib.Core.Path.{subst}
use nttd.GameText.{
  Text, is_control, is_break, is_space, fold_breaks, collapse, lstrip, rstrip, ends_here,
  truncation_marker, take,
}

-- A character that stays.
abbrev pub IsPlain : ℕ → Type 0
IsPlain c = (is_control c ≡ false) × (is_break c ≡ false)

module _ (P : ℕ → Type 0) where
  pub lstrip-All : (cs : Text) → All P cs → All P (lstrip cs)
  unfolding lstrip
  lstrip-All [] h = tt
  lstrip-All (c ∷ cs) h = elim (Bool-cases (is_space c)) [
    | inl space ↦ rw space (lstrip-All cs h.1)
    | inr visible ↦ rw visible h
  ]

  pub rstrip-All : (cs : Text) → All P cs → All P (rstrip cs)
  unfolding rstrip
  rstrip-All [] h = tt
  rstrip-All (c ∷ cs) h = elim (Bool-cases (ends_here (rstrip cs) && is_space c)) [
    | inl last ↦ rw last tt
    | inr more ↦ rw more (h.0, rstrip-All cs h.1)
  ]

  pub take-All : (n : ℕ) (cs : Text) → All P cs → All P (take n cs)
  take-All zero cs h = tt
  take-All (suc n) [] h = tt
  take-All (suc n) (c ∷ cs) h = (h.0, take-All n cs h.1)

  pub collapse-All : (in_run : Bool) (cs : Text) → P 32 → All P cs → All P (collapse in_run cs)
  unfolding collapse
  collapse-All in_run [] space h = tt
  collapse-All in_run (c ∷ cs) space h =
      let same = collapse-All true cs space h.1 in
      let after = collapse-All false cs space h.1 in
      elim (Bool-cases (c == 32)) [
        | inr other ↦ rw other (h.0, after)
        | inl is_it ↦ elim (Bool-cases in_run) [
          | inl run ↦ rw (is_it, run) same
          | inr first ↦ rw (is_it, first) (space, same)
        ]
      ]

pub fold_breaks-All :
    (in_run : Bool) (cs : Text) → All (λ c. is_break c ≡ false) (fold_breaks in_run cs)
unfolding fold_breaks is_break
fold_breaks-All in_run [] = tt
fold_breaks-All in_run (c ∷ cs) =
    let same = fold_breaks-All true cs in
    let after = fold_breaks-All false cs in
    elim (Bool-cases (is_break c)) [
      | inr other ↦ rw other (other, after)
      | inl is_it ↦ elim (Bool-cases in_run) [
        | inl run ↦ rw (is_it, run) same
        | inr first ↦ rw (is_it, first) (refl, same)
      ]
    ]

pub filter-IsPlain :
    (cs : Text)
    → All (λ c. is_break c ≡ false) cs
    → All IsPlain (filter (λ c. not (is_control c)) cs)
unfolding filter
filter-IsPlain [] h = tt
filter-IsPlain (c ∷ cs) h = elim (Bool-cases (is_control c)) [
  | inl bad ↦ rw bad (filter-IsPlain cs h.1)
  | inr good ↦ rw good ((good, h.0), filter-IsPlain cs h.1)
]

pub rstrip-length : (cs : Text) → length (rstrip cs) ≤ length cs
unfolding rstrip
rstrip-length [] = omega arith
rstrip-length (c ∷ cs) = ground (arith, rstrip-length cs)

pub take-length : (n : ℕ) (cs : Text) → length (take n cs) ≤ n
take-length zero cs = omega arith
take-length (suc n) [] = omega arith
take-length (suc n) (c ∷ cs) = omega (arith, take-length n cs)

-- No space follows a space, nor stands first where the flag says that one came before.
abbrev pub Singles : Bool → Text → Type 0
Singles after_space [] = Unit
Singles after_space (c ∷ cs) = ((c == 32 && after_space) ≡ false) × Singles (c == 32) cs

pub collapse-Singles : (in_run : Bool) (cs : Text) → Singles in_run (collapse in_run cs)
unfolding collapse
collapse-Singles in_run [] = tt
collapse-Singles in_run (c ∷ cs) =
    let same = collapse-Singles true cs in
    let after = collapse-Singles false cs in
    elim (Bool-cases (c == 32)) [
      | inr other ↦ rw other (rw other (refl, after))
      | inl is_it ↦ elim (Bool-cases in_run) [
        | inl run ↦ rw (is_it, run) same
        | inr first ↦ rw (is_it, first) (refl, same)
      ]
    ]

Singles-first : (after_space : Bool) (cs : Text) → Singles after_space cs → Singles false cs
Singles-first after_space [] h = tt
Singles-first after_space (c ∷ cs) h = (ground arith, h.1)

pub lstrip-Singles : (cs : Text) → Singles false cs → Singles false (lstrip cs)
unfolding lstrip
lstrip-Singles [] h = tt
lstrip-Singles (c ∷ cs) h = elim (Bool-cases (is_space c)) [
  | inl space ↦ rw space (lstrip-Singles cs (Singles-first (c == 32) cs h.1))
  | inr visible ↦ rw visible h
]

pub rstrip-Singles :
    (after_space : Bool) (cs : Text) → Singles after_space cs → Singles after_space (rstrip cs)
unfolding rstrip
rstrip-Singles after_space [] h = tt
rstrip-Singles after_space (c ∷ cs) h = elim (Bool-cases (ends_here (rstrip cs) && is_space c)) [
  | inl last ↦ rw last tt
  | inr more ↦ rw more (h.0, rstrip-Singles (c == 32) cs h.1)
]

pub take-Singles :
    (n : ℕ) (after_space : Bool) (cs : Text)
    → Singles after_space cs
    → Singles after_space (take n cs)
take-Singles zero after_space cs h = tt
take-Singles (suc n) after_space [] h = tt
take-Singles (suc n) after_space (c ∷ cs) h = (h.0, take-Singles n (c == 32) cs h.1)

-- A text that no pass changes.
pub fold_breaks_fixed :
    (in_run : Bool) (cs : Text) → All (λ c. is_break c ≡ false) cs → fold_breaks in_run cs ≡ cs
unfolding fold_breaks
fold_breaks_fixed in_run [] h = refl
fold_breaks_fixed in_run (c ∷ cs) h = rw (h.0, fold_breaks_fixed false cs h.1) refl

pub filter_fixed :
    (cs : Text) → All (λ c. is_control c ≡ false) cs → filter (λ c. not (is_control c)) cs ≡ cs
unfolding filter
filter_fixed [] h = refl
filter_fixed (c ∷ cs) h = rw (h.0, filter_fixed cs h.1) refl

pub collapse_fixed : (in_run : Bool) (cs : Text) → Singles in_run cs → collapse in_run cs ≡ cs
unfolding collapse
collapse_fixed in_run [] h = refl
collapse_fixed in_run (c ∷ cs) h =
    let first = h.0 in
    elim (Bool-cases (c == 32)) [
      | inr other ↦ rw other (ap (◌∷◌ c) (collapse_fixed false cs (Singles-first (c == 32) cs h.1)))
      | inl is_it ↦
          let rest = collapse_fixed true cs (subst (λ b. Singles b cs) is_it h.1) in
          let is_space : c ≡ 32 = ground arith in
          let starts : in_run ≡ false = ground arith in
          rw (is_it, starts, rest) (ap (λ n. n ∷ cs) (sym is_space))
    ]

-- The first character is visible, if there is one.
abbrev pub Starts : Text → Type 0
Starts [] = Unit
Starts (c ∷ cs) = is_space c ≡ false

pub lstrip-Starts : (cs : Text) → Starts (lstrip cs)
unfolding lstrip
lstrip-Starts [] = tt
lstrip-Starts (c ∷ cs) = elim (Bool-cases (is_space c)) [
  | inl space ↦ rw space (lstrip-Starts cs)
  | inr visible ↦ rw visible visible
]

pub lstrip_fixed : (cs : Text) → Starts cs → lstrip cs ≡ cs
unfolding lstrip
lstrip_fixed [] h = refl
lstrip_fixed (c ∷ cs) h = rw h refl

pub rstrip-Starts : (cs : Text) → Starts cs → Starts (rstrip cs)
unfolding rstrip
rstrip-Starts [] h = tt
rstrip-Starts (c ∷ cs) h = elim (Bool-cases (ends_here (rstrip cs) && is_space c)) [
  | inl last ↦ rw last tt
  | inr more ↦ rw more h
]

pub take-Starts : (n : ℕ) (cs : Text) → Starts cs → Starts (take n cs)
take-Starts zero cs h = tt
take-Starts (suc n) [] h = tt
take-Starts (suc n) (c ∷ cs) h = h

pub rstrip_fixed : (cs : Text) → rstrip (rstrip cs) ≡ rstrip cs
unfolding rstrip
rstrip_fixed [] = refl
rstrip_fixed (c ∷ cs) = elim (Bool-cases (ends_here (rstrip cs) && is_space c)) [
  | inl last ↦ rw last refl
  | inr more ↦ rw (more, rstrip_fixed cs, more) refl
]

-- The marker ends a text visibly.
pub Singles-marker :
    (after_space : Bool) (cs : Text)
    → Singles after_space cs
    → Singles after_space (cs ++ truncation_marker)
Singles-marker after_space [] h = (refl, (refl, (refl, tt)))
Singles-marker after_space (c ∷ cs) h = (h.0, Singles-marker (c == 32) cs h.1)

pub Starts-marker : (cs : Text) → Starts cs → Starts (cs ++ truncation_marker)
unfolding is_space
Starts-marker [] h = refl
Starts-marker (c ∷ cs) h = h

pub rstrip-marker : (cs : Text) → rstrip (cs ++ truncation_marker) ≡ cs ++ truncation_marker
unfolding rstrip is_space
rstrip-marker [] = refl
rstrip-marker (c ∷ []) = refl
rstrip-marker (c ∷ d ∷ cs) = rw (rstrip-marker (d ∷ cs)) refl
