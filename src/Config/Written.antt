-- ===== src/Config/Written.antt =====
-- What the settings of src/nttd/config/scenario_config.py hold under a key.
use nttd.Prelude.{
  ◌≡◌, ◌≢◌, refl, sym, ap, ◌∙◌, String, Bool, true, false, Option, none, some, List, [], ◌∷◌, ◌++◌,
  ◌==◌, string_eq, if◌then◌else◌, Bool-cases, inl, inr, arith, ==-self,
}
use Prim.Native.String.{◌++◌ as append}
use nttd.Prelude.Dict.{lookup, insert, lookup-insert}
use nttd.Prelude.Int.{ℤ, eqb_ℤ}
use nttd.Config.Settings.{
  Setting, word, number, millionths, Settings, Piece, join, join_all, assign, say, code, count,
  minutes, only_if, unless,
}

-- The later of two values.
abbrev pub later : Option Setting → Option Setting → Option Setting
later old none = old
later old (some value) = some value

-- The last value that is written under a key.
unfoldable pub written : String → List (String × Setting) → Option Setting
written key [] = none
written key ((k, value) ∷ entries) =
    later (if k == key then some value else none) (written key entries)

later_assoc : (a b c : Option Setting) → later (later a b) c ≡ later a (later b c)
later_assoc a b none = refl
later_assoc a b (some c) = refl

pub later-none : (a : Option Setting) → later none a ≡ a
later-none none = refl
later-none (some a) = refl

written-append :
    (key : String) (xs ys : List (String × Setting))
    → written key (xs ++ ys) ≡ later (written key xs) (written key ys)
unfolding written
written-append key [] ys = sym (later-none (written key ys))
written-append key ((k, v) ∷ xs) ys =
    rw (written-append key xs ys)
      (sym (later_assoc (if k == key then some v else none) (written key xs) (written key ys)))

later_if :
    (b : Bool) (v : Setting) (old new : Option Setting)
    → later (if b then some v else old) new ≡ later old (later (if b then some v else none) new)
later_if true v old none = refl
later_if true v old (some new) = refl
later_if false v old none = refl
later_if false v old (some new) = refl

pub lookup-assign :
    (key : String) (entries : List (String × Setting)) (d : Settings)
    → lookup key (assign entries d) ≡ later (lookup key d) (written key entries)
unfolding written assign
lookup-assign key [] d = refl
lookup-assign key ((k, v) ∷ entries) d =
    lookup-assign key entries (insert k v d)
    ∙ rw (lookup-insert k key v d) (later_if (k == key) v (lookup key d) (written key entries))

-- Where the piece can be written, it leaves this value under the key.
pub record Writes (key : String) (piece : Piece) (value : Option Setting) : Type 0 where
  pub holds :
      (entries : List (String × Setting)) → piece ≡ some entries → written key entries ≡ value

one_written :
    (key k : String) (v : Setting) (entries : List (String × Setting))
    → some ((k, v) ∷ []) ≡ some entries
    → written key entries ≡ (if k == key then some v else none)
unfolding written
one_written key k v entries h = let same : (k, v) ∷ [] ≡ entries = cc in rw (sym same) refl

written_nothing :
    (key : String) (entries : List (String × Setting))
    → some [] ≡ some entries
    → written key entries ≡ none
unfolding written
written_nothing key entries h = let same : [] ≡ entries = cc in rw (sym same) refl

module _ {key : String} where
  pub Writes-join :
      {p q : Piece} {a b : Option Setting}
      → Writes key p a
      → Writes key q b
      → Writes key (join p q) (later a b)
  Writes-join {p} {q} {a} {b} wp wq = record { holds = joined p q a b wp wq }
    where
      joined :
          (p q : Piece) (a b : Option Setting)
          → Writes key p a
          → Writes key q b
          → (entries : List (String × Setting)) → join p q ≡ some entries
          → written key entries ≡ later a b
      joined none q a b wp wq entries h = absurd (cc)
      joined (some xs) none a b wp wq entries h = absurd (cc)
      joined (some xs) (some ys) a b wp wq entries h =
          let same : xs ++ ys ≡ entries = cc in
          rw (sym same) (rw (written-append key xs ys, wp.holds xs refl, wq.holds ys refl) refl)

  pub silent_join :
      {p q : Piece} → Writes key p none → Writes key q none → Writes key (join p q) none
  silent_join wp wq = Writes-join wp wq

  pub silent_nothing : Writes key (some []) none
  silent_nothing = record { holds = written_nothing key }

  pub silent_nil : Writes key (join_all []) none
  unfolding join_all
  silent_nil = silent_nothing

  pub Writes-cons :
      (p : Piece) (ps : List Piece) {a b : Option Setting}
      → Writes key p a
      → Writes key (join_all ps) b
      → Writes key (join_all (p ∷ ps)) (later a b)
  unfolding join_all
  Writes-cons p ps wp wq = Writes-join wp wq

  pub silent_cons :
      (p : Piece) (ps : List Piece)
      → Writes key p none
      → Writes key (join_all ps) none
      → Writes key (join_all (p ∷ ps)) none
  silent_cons p ps wp wq = Writes-cons p ps wp wq

  pub Writes-head :
      (p : Piece) (ps : List Piece) (a : Option Setting)
      → Writes key p a
      → Writes key (join_all ps) none
      → Writes key (join_all (p ∷ ps)) a
  Writes-head p ps a wp wq = Writes-cons p ps wp wq

  pub Writes-tail :
      (p : Piece) (ps : List Piece) (a : Option Setting)
      → Writes key p none
      → Writes key (join_all ps) a
      → Writes key (join_all (p ∷ ps)) a
  Writes-tail p ps none wp wq = Writes-cons p ps wp wq
  Writes-tail p ps (some a) wp wq = Writes-cons p ps wp wq

  pub Writes-one :
      (k : String) (v : Setting)
      → Writes key (some ((k, v) ∷ [])) (if k == key then some v else none)
  Writes-one k v = record { holds = one_written key k v }

  pub silent_say : (k v : String) → (k == key) ≡ false → Writes key (say k v) none
  silent_say k v other = record {
    holds = λ entries h. one_written key k (word v) entries h ∙ rw other refl;
  }

  pub silent_code :
      (k : String) (c : Option String) → (k == key) ≡ false → Writes key (code k c) none
  silent_code k none other = record { holds = λ entries h. absurd (cc) }
  silent_code k (some v) other = silent_say k v other

  pub silent_count : (k : String) (n : Option ℤ) → (k == key) ≡ false → Writes key (count k n) none
  silent_count k none other = record { holds = λ entries h. absurd (cc) }
  silent_count k (some n) other = record {
    holds = λ entries h. one_written key k (number n) entries h ∙ rw other refl;
  }

  pub silent_minutes :
      (k : String) (n : Option ℤ) → (k == key) ≡ false → Writes key (minutes k n) none
  silent_minutes k none other = record { holds = λ entries h. absurd (cc) }
  silent_minutes k (some n) other = record {
    holds = λ entries h. one_written key k (millionths n) entries h ∙ rw other refl;
  }

  pub silent_unless :
      (usual : ℤ) (k : String) (n : Option ℤ)
      → (k == key) ≡ false
      → Writes key (unless usual k n) none
  silent_unless usual k none other = record { holds = λ entries h. absurd (cc) }
  silent_unless usual k (some n) other = elim (Bool-cases (eqb_ℤ n usual)) [
    | inl same ↦ rw same silent_nothing
    | inr new ↦ rw new (silent_count k (some n) other)
  ]

  pub Writes-if :
      (b : Bool) {p : Piece} {a : Option Setting}
      → Writes key p a
      → Writes key (only_if b p) (if b then a else none)
  Writes-if true w = w
  Writes-if false w = silent_nothing

  pub silent_if : (b : Bool) {p : Piece} → Writes key p none → Writes key (only_if b p) none
  silent_if true w = w
  silent_if false w = silent_nothing

-- What a conversion that did not raise leaves.
abbrev pub number_written : Option ℤ → Option Setting
number_written none = none
number_written (some n) = some (number n)

abbrev pub minutes_written : Option ℤ → Option Setting
minutes_written none = none
minutes_written (some n) = some (millionths n)

pub Writes-count : (k : String) (n : Option ℤ) → Writes k (count k n) (number_written n)
Writes-count k none = record { holds = λ entries h. absurd (cc) }
Writes-count k (some n) = record {
  holds = λ entries h. one_written k k (number n) entries h ∙ rw (==-self k) refl;
}

pub Writes-minutes : (k : String) (n : Option ℤ) → Writes k (minutes k n) (minutes_written n)
Writes-minutes k none = record { holds = λ entries h. absurd (cc) }
Writes-minutes k (some n) = record {
  holds = λ entries h. one_written k k (millionths n) entries h ∙ rw (==-self k) refl;
}

pub Writes-say : (k v : String) → Writes k (say k v) (some (word v))
Writes-say k v = record {
  holds = λ entries h. one_written k k (word v) entries h ∙ rw (==-self k) refl;
}

-- The readable copies have keys of their own.
pub silent_entry :
    {key : String} (k v : String) (entries : List (String × Setting))
    → (append "_dim_" k == key) ≡ false
    → Writes key (some entries) none
    → Writes key (some ((append "_dim_" k, word v) ∷ entries)) none
unfolding written
silent_entry {key} k v entries other w = record { holds = λ xs h. extended xs h }
  where
    extended :
        (xs : List (String × Setting))
        → some ((append "_dim_" k, word v) ∷ entries) ≡ some xs
        → written key xs ≡ none
    extended xs h =
        let same : (append "_dim_" k, word v) ∷ entries ≡ xs = cc in
        rw (sym same) (rw (other, w.holds entries refl) refl)

pub ruleset writing =
    (Writes-head, Writes-tail, Writes-if, Writes-count, Writes-minutes, Writes-say)

pub ruleset silent = (
  silent_cons, silent_nil, silent_say, silent_code, silent_count, silent_minutes, silent_unless,
  silent_if, refl,
)
