-- ===== src/ScoredLock.antt =====
-- src/nttd/runtime/scored_lock.py: a scored session refuses operator operations and records every
-- refusal. The clock that dates an attempt is read outside.
use nttd.Prelude.{ℕ, ◌≡◌, refl, String, Bool, true, false, List, [], ◌∷◌, ◌++◌, map, if◌then◌else◌}

pub record BlockedAttempt : Type 0 where
  pub operation : String
  pub detail : String
  pub game_date : ℕ
  pub attempted_at : ℕ

pub record ScoredLock : Type 0 where
  pub scored : Bool
  pub blocked : List BlockedAttempt

unfoldable pub check : BlockedAttempt → ScoredLock → ScoredLock × Bool
check attempt lock =
    if lock.scored
    then (record lock { blocked = lock.blocked ++ (attempt ∷ []) }, false)
    else (lock, true)

unfoldable pub clean_run : ScoredLock → Bool
clean_run lock = elim lock.blocked [ [] ↦ true | _ ∷ _ ↦ false ]

-- The life of a session: its operator operations in order, with the answer to each.
unfoldable checks : List BlockedAttempt → ScoredLock → ScoredLock × List Bool
unfolding check
checks [] lock = (lock, [])
checks (attempt ∷ attempts) lock =
    let (next, permitted) = check attempt lock in
    let (last, answers) = checks attempts next in (last, permitted ∷ answers)

append_one :
    {A : Type 0} (xs : List A) (y : A) (zs : List A) → (xs ++ (y ∷ [])) ++ zs ≡ xs ++ (y ∷ zs)
append_one [] y zs = refl
append_one (x ∷ xs) y zs = rw (append_one xs y zs) refl

append_nil : {A : Type 0} (xs : List A) → xs ++ [] ≡ xs
append_nil [] = refl
append_nil (x ∷ xs) = rw (append_nil xs) refl

-- A scored session refuses each operator operation of its life and records it, in order; a session
-- that is not scored permits each and records none. Neither changes whether it is scored.
checks_lem :
    (attempts : List BlockedAttempt) (scored : Bool) (blocked : List BlockedAttempt)
    → checks attempts (record { scored = scored; blocked = blocked }) ≡ (
        if scored
        then (record { scored = true; blocked = blocked ++ attempts }, map (λ _. false) attempts)
        else (record { scored = false; blocked = blocked }, map (λ _. true) attempts))
unfolding checks check
checks_lem [] true b = rw (append_nil b) refl
checks_lem [] false b = refl
checks_lem (attempt ∷ attempts) true b =
    rw (checks_lem attempts true (b ++ (attempt ∷ [])), append_one b attempt attempts) refl
checks_lem (attempt ∷ attempts) false b = rw (checks_lem attempts false b) refl
