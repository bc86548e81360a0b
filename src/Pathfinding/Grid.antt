-- ===== src/Pathfinding/Grid.antt =====
-- The four directions of src/nttd/pathfinding, N E S W, and moving along them.
use nttd.Prelude.{ℕ, suc, ◌*◌, List, [], ◌∷◌}
use nttd.Prelude.Int.{ℤ, pos, negsuc, ◌+ℤ◌, ◌-ℤ◌, abs}

pub record Direction : Type 0 where
  pub index : ℕ
  pub dx : ℤ
  pub dy : ℤ

-- `enumerate(_DIRS)`
abbrev pub directions : List Direction
directions =
    record { index = 0; dx = pos 0; dy = negsuc 0 }
    ∷ record { index = 1; dx = pos 1; dy = pos 0 }
    ∷ record { index = 2; dx = pos 0; dy = pos 1 }
    ∷ record { index = 3; dx = negsuc 0; dy = pos 0 }
    ∷ []

abbrev scale : ℤ → ℕ → ℤ
scale (pos n) k = pos (n * k)
scale (negsuc n) k = pos 0 -ℤ pos (suc n * k)

-- `s + d * length`
unfoldable pub along : ℕ → ℤ → ℕ → ℤ
unfolding ◌+ℤ◌ ◌-ℤ◌
along s d length = pos s +ℤ scale d length

-- `abs(a - b)`
unfoldable pub distance : ℕ → ℕ → ℕ
unfolding ◌-ℤ◌ abs
distance a b = abs (pos a -ℤ pos b)
