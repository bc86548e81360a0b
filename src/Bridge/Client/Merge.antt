-- ===== src/Bridge/Client/Merge.antt =====
-- The end of a request in src/nttd/bridge/admin_client.py: `_merge_chunks`, and both ways on from the
-- await of `send_gamescript`.
use nttd.Prelude.{
  ℕ, ◌<◌, ◌≡◌, ◌≢◌, refl, sym, ◌∙◌, String, Bool, true, false, Option, none, some, List, [], ◌∷◌,
  ◌++◌, ◌==◌, string_eq, nat_eq, ltb, leb, arith, if◌then◌else◌, All, length,
}
use mathlib.Core.List.{Permᴰ}
use nttd.Prelude.Dict.{Dict, lookup, insert, erase}
use nttd.Prelude.Distinct.{contains, Distinct}
use nttd.Bridge.Client.{
  CorrelationId, id_eq, Outcome, items, value, Explanation, Chunk, AdminClient, or_else,
}

-- `chunk.get("result", [])`, and the records of it.
abbrev pub items_of : {J : Type 0} → Outcome J → List J
items_of (items entries) = entries
items_of (value single) = single ∷ []

abbrev pub entries_of : {J : Type 0} → Chunk J → List J
entries_of chunk = items_of (or_else chunk.result (items []))

abbrev pub number_of : {J : Type 0} → Chunk J → ℕ
number_of chunk = or_else chunk.number 0

-- `chunks.sort(key=…)`: stable, so a chunk goes before those with its own number.
abbrev pub place : {J : Type 0} → Chunk J → List (Chunk J) → List (Chunk J)
place chunk [] = chunk ∷ []
place chunk (first ∷ rest) =
    if leb (number_of chunk) (number_of first)
    then chunk ∷ first ∷ rest
    else first ∷ place chunk rest

unfoldable pub sort : {J : Type 0} → List (Chunk J) → List (Chunk J)
sort [] = []
sort (chunk ∷ rest) = place chunk (sort rest)

-- The records of all chunks, in their order.
unfoldable pub extend : {J : Type 0} → List (Chunk J) → List J
extend [] = []
extend (chunk ∷ rest) = entries_of chunk ++ extend rest

-- The `result` of a merged reply: the list, or the table put back together.
pub data Bulk (J : Type 0) : Type 0 where
  plain : List J → Bulk J
  table : Dict String J → Bulk J

-- What a request answers: an error of the client's own, the only packet as it came, or the chunks in
-- one.
pub data Reply (J : Type 0) : Type 0 where
  failed : CorrelationId → (error : String) → Reply J
  whole : Chunk J → Reply J
  merged : CorrelationId → (success : Bool) → Explanation J → Bulk J → Reply J

module _ {J : Type 0} (array : List J → J) where
  -- An empty key counts as none.
  abbrev pub rebuild : Option String → Option (Dict String J) → List J → Bulk J
  rebuild none meta entries = plain entries
  rebuild (some key) meta entries =
      if key == "" then plain entries else table (insert key (array entries) (or_else meta []))

  abbrev pub merge_sorted : CorrelationId → List (Chunk J) → Reply J
  merge_sorted id [] = failed id "empty"
  merge_sorted id (first ∷ rest) =
      merged id (or_else first.success true) first.explanation
        (rebuild first.key first.meta (extend (first ∷ rest)))

  unfoldable pub merge : CorrelationId → List (Chunk J) → Reply J
  unfolding sort extend
  merge id [] = failed id "empty"
  merge id (chunk ∷ []) = whole chunk
  merge id (first ∷ second ∷ rest) = merge_sorted id (sort (first ∷ second ∷ rest))

  -- `_merge_chunks`, which forgets the chunks.
  unfoldable pub merge_chunks : CorrelationId → AdminClient J → AdminClient J × Reply J
  unfolding merge
  merge_chunks id c = (
    record c { gs_responses = erase id c.gs_responses },
    merge id (or_else (lookup id c.gs_responses) []),
  )

  -- `send_gamescript` after its event was set.
  unfoldable pub finish : CorrelationId → AdminClient J → AdminClient J × Reply J
  unfolding merge_chunks
  finish id c =
      merge_chunks id
        (record c { gs_events = erase id c.gs_events; gs_totals = erase id c.gs_totals })

-- `send_gamescript` after its deadline; `garbled_before` is the count that it noted when it sent.
unfoldable pub time_out :
    {J : Type 0} → CorrelationId → (garbled_before : ℕ) → AdminClient J → AdminClient J × Reply J
time_out id garbled_before c = (
  record c {
    gs_responses = erase id c.gs_responses;
    gs_events = erase id c.gs_events;
    gs_totals = erase id c.gs_totals;
  },
  failed id (if ltb garbled_before c.unparseable_total then "transport" else "timeout"),
)

module _ {J : Type 0} where
  abbrev pub numbers : List (Chunk J) → List ℕ
  numbers [] = []
  numbers (chunk ∷ chunks) = number_of chunk ∷ numbers chunks

  -- Every chunk stands before those with a greater number.
  abbrev pub IsAscending : List (Chunk J) → Type 0
  IsAscending [] = Unit
  IsAscending (chunk ∷ chunks) =
      All (λ later. number_of chunk < number_of later) chunks × IsAscending chunks

  place-below :
      (chunk : Chunk J) (chunks : List (Chunk J))
      → All (λ later. number_of chunk < number_of later) chunks
      → place chunk chunks ≡ chunk ∷ chunks
  place-below chunk [] h = refl
  place-below chunk (first ∷ rest) h = let below = h.0 in ground arith

  sort-ascending : (chunks : List (Chunk J)) → IsAscending chunks → sort chunks ≡ chunks
  unfolding sort
  sort-ascending [] h = refl
  sort-ascending (chunk ∷ chunks) (below, rest) =
      rw (sort-ascending chunks rest) (place-below chunk chunks below)

  place_commutes :
      (a b : Chunk J) (chunks : List (Chunk J))
      → number_of a ≢ number_of b
      → place a (place b chunks) ≡ place b (place a chunks)
  place_commutes a b [] apart = ground arith
  place_commutes a b (first ∷ rest) apart = ground (arith, place_commutes a b rest apart)

  contains-Perm :
      {xs ys : List (Chunk J)} (n : ℕ)
      → Permᴰ xs ys
      → contains n (numbers xs) ≡ contains n (numbers ys)
  unfolding contains
  contains-Perm n Permᴰ.nil = refl
  contains-Perm n (Permᴰ.cons e d) = ground (arith, contains-Perm n d)
  contains-Perm n (Permᴰ.swap e₁ e₂) = ground arith
  contains-Perm n (Permᴰ.trans d₁ d₂) = contains-Perm n d₁ ∙ contains-Perm n d₂

  numbers-Perm :
      {xs ys : List (Chunk J)} → Permᴰ xs ys → Distinct (numbers xs) → Distinct (numbers ys)
  unfolding contains
  numbers-Perm Permᴰ.nil h = h
  numbers-Perm (Permᴰ.cons {a = a} e d) (new, rest) =
      (cc (contains-Perm (number_of a) d, e, new), numbers-Perm d rest)
  numbers-Perm (Permᴰ.swap e₁ e₂) h = ground arith
  numbers-Perm (Permᴰ.trans d₁ d₂) h = numbers-Perm d₂ (numbers-Perm d₁ h)

  pub sort-Perm : {xs ys : List (Chunk J)} → Permᴰ xs ys → Distinct (numbers xs) → sort xs ≡ sort ys
  unfolding sort contains
  sort-Perm Permᴰ.nil h = refl
  sort-Perm (Permᴰ.cons e d) h = rw (e, sort-Perm d h.1) refl
  sort-Perm (Permᴰ.swap {a = a} {b = b} {l = l} e₁ e₂) h =
      rw (sym e₁, sym e₂)
        (place_commutes a b (sort l) (ground (arith, nat_eq.same_iff (number_of b) (number_of a))))
  sort-Perm (Permᴰ.trans d₁ d₂) h = sort-Perm d₁ h ∙ sort-Perm d₂ (numbers-Perm d₁ h)

  absent-above :
      (n : ℕ) (chunks : List (Chunk J))
      → All (λ later. n < number_of later) chunks
      → contains n (numbers chunks) ≡ false
  unfolding contains
  absent-above n [] h = refl
  absent-above n (chunk ∷ chunks) (first, rest) = ground (arith, absent-above n chunks rest)

  ascending-Distinct : (chunks : List (Chunk J)) → IsAscending chunks → Distinct (numbers chunks)
  ascending-Distinct [] h = tt
  ascending-Distinct (chunk ∷ chunks) (below, rest) =
      (absent-above (number_of chunk) chunks below, ascending-Distinct chunks rest)

  -- Chunks in any order of arrival are sorted into the order of the game.
  pub sort-arrived :
      (arrived chunks : List (Chunk J))
      → Permᴰ chunks arrived
      → IsAscending chunks
      → sort arrived ≡ chunks
  sort-arrived arrived chunks shuffled up =
      sym (sort-Perm shuffled (ascending-Distinct chunks up)) ∙ sort-ascending chunks up

  pub length-Perm : {xs ys : List (Chunk J)} → Permᴰ xs ys → length xs ≡ length ys
  length-Perm Permᴰ.nil = refl
  length-Perm (Permᴰ.cons e d) = omega (arith, length-Perm d)
  length-Perm (Permᴰ.swap e₁ e₂) = omega arith
  length-Perm (Permᴰ.trans d₁ d₂) = length-Perm d₁ ∙ length-Perm d₂
