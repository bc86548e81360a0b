-- ===== src/GameText/Safety.antt =====
-- What src/nttd/utils/game_text.py lets into an observation, and into a prompt.
use nttd.Prelude.{
  ℕ, ◌-◌, ◌≤◌, ◌≡◌, refl, false, Option, none, some, [], ◌++◌, length, length-append, ltb, All,
  All-append, All-map, Bool-cases, inl, inr, arith,
}
use nttd.GameText.{
  Text, is_control, is_break, fold_breaks, rstrip, take, truncation_marker, max_text_length, clean,
  truncate, sanitise, opening, closing, as_data_block,
}
use nttd.GameText.Passes.{
  IsPlain, Singles, Starts, lstrip-All, rstrip-All, take-All, collapse-All, fold_breaks-All,
  filter-IsPlain, rstrip-length, take-length, collapse-Singles, lstrip-Singles, rstrip-Singles,
  take-Singles, fold_breaks_fixed, filter_fixed, collapse_fixed, lstrip-Starts, lstrip_fixed,
  rstrip-Starts, take-Starts, rstrip_fixed, Singles-marker, Starts-marker, rstrip-marker,
}

-- No control characters, no breaks, no two spaces in a row, and no space at either end.
pub record IsClean (cs : Text) : Type 0 where
  pub plain : All IsPlain cs
  pub singles : Singles false cs
  pub starts : Starts cs
  pub ends : rstrip cs ≡ cs

clean-IsClean : (text : Text) → IsClean (clean text)
unfolding clean is_control is_break
clean-IsClean text =
    let folded = fold_breaks false text in
    let kept = filter-IsPlain folded (fold_breaks-All false text) in
    let one = collapse-All IsPlain false _ (refl, refl) kept in
    let singles = collapse-Singles false _ in
    record {
      plain = rstrip-All IsPlain _ (lstrip-All IsPlain _ one);
      singles = rstrip-Singles false _ (lstrip-Singles _ singles);
      starts = rstrip-Starts _ (lstrip-Starts _);
      ends = rstrip_fixed _;
    }

clean_fixed : (text : Text) → IsClean text → clean text ≡ text
unfolding clean
clean_fixed text h =
    rw
      (
        fold_breaks_fixed false text (All-map IsPlain text (λ c p. p.1) h.plain),
        filter_fixed text (All-map IsPlain text (λ c p. p.0) h.plain),
        collapse_fixed false text h.singles,
        lstrip_fixed text h.starts,
      )
      h.ends

shorten-IsClean :
    (n : ℕ) (cs : Text) → IsClean cs → IsClean (rstrip (take n cs) ++ truncation_marker)
unfolding is_control is_break
shorten-IsClean n cs h =
    let kept = rstrip (take n cs) in
    record {
      plain =
          All-append IsPlain kept truncation_marker
            (rstrip-All IsPlain _ (take-All IsPlain n cs h.plain))
            ((refl, refl), ((refl, refl), ((refl, refl), tt)));
      singles =
          Singles-marker false kept (rstrip-Singles false _ (take-Singles n false cs h.singles));
      starts = Starts-marker kept (rstrip-Starts _ (take-Starts n cs h.starts));
      ends = rstrip-marker kept;
    }

truncate-IsClean : (max_length : ℕ) (cs : Text) → IsClean cs → IsClean (truncate max_length cs)
unfolding truncate
truncate-IsClean max_length cs h = elim (Bool-cases (ltb max_length (length cs))) [
  | inl long ↦ rw long (shorten-IsClean (max_length - 3) cs h)
  | inr short ↦ rw short h
]

truncate-length :
    (max_length : ℕ) (cs : Text) → 3 ≤ max_length → length (truncate max_length cs) ≤ max_length
unfolding truncate
truncate-length max_length cs room = elim (Bool-cases (ltb max_length (length cs))) [
  | inr short ↦ rw short (ground arith)
  | inl long ↦ rw long (
      omega (
        arith,
        room,
        length-append (rstrip (take (max_length - 3) cs)) truncation_marker,
        rstrip-length (take (max_length - 3) cs),
        take-length (max_length - 3) cs,
      ))
]

empty-IsClean : IsClean []
unfolding rstrip
empty-IsClean = record { plain = tt; singles = tt; starts = tt; ends = refl }

-- A sanitised text holds no control character and no line break, no two spaces in a row and none at
-- either end, and is no longer than the limit, where the limit leaves room for the three dots.
pub sanitise-IsClean :
    (max_length : ℕ) (text : Option Text)
    → 3 ≤ max_length
    → IsClean (sanitise max_length text) × (length (sanitise max_length text) ≤ max_length)
unfolding sanitise
sanitise-IsClean max_length none room = (empty-IsClean, omega arith)
sanitise-IsClean max_length (some text) room = (
  truncate-IsClean max_length (clean text) (clean-IsClean text),
  truncate-length max_length (clean text) room,
)

sanitise_fixed :
    (max_length : ℕ) (text : Text)
    → IsClean text
    → length text ≤ max_length
    → sanitise max_length (some text) ≡ text
unfolding sanitise truncate
sanitise_fixed max_length text h short =
    let fits : ltb max_length (length text) ≡ false = ground arith in
    rw (clean_fixed text h, fits) refl

-- Sanitising a sanitised text changes nothing, where the limit leaves room for the three dots.
sanitise_idempotent :
    (max_length : ℕ) (text : Option Text)
    → 3 ≤ max_length
    → sanitise max_length (some (sanitise max_length text)) ≡ sanitise max_length text
sanitise_idempotent max_length text room =
    let (safe, short) = sanitise-IsClean max_length text room in
    sanitise_fixed max_length (sanitise max_length text) safe short

-- The block around a text that is clean and within the limit keeps the text as it is, so that a text that
-- begins with the closing mark of the block ends the block there, and the rest of it stands outside.
pub as_data_block_broken :
    (label rest : Text)
    → IsClean (closing label ++ rest)
    → length (closing label ++ rest) ≤ 64
    → as_data_block label (closing label ++ rest)
      ≡ opening label ++ (closing label ++ rest) ++ closing label
unfolding as_data_block
as_data_block_broken label rest safe short =
    rw (sanitise_fixed max_text_length (closing label ++ rest) safe short) refl
