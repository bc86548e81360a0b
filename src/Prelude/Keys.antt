-- ===== src/Prelude/Keys.antt =====
-- Equality tests as an interface, for the keys of dictionaries.
use mathlib.Core.Bool.{Bool, true}
use mathlib.Core.Logic.{◌↔◌}
use mathlib.Core.Path.{◌≡◌, refl}
use text.Mathlib.TextEquality.{eq_iff}
use text.Mathlib.Text.{◌==◌ as text_same}
use Prim.Native.String.{String}
use Prim.Native.Nat.{ℕ}
use nttd.Prelude.Tests.{nat_eqb, nat_eqb_iff}

-- A test that decides when two keys are one.
pub record HasEq {ℓ} (K : Type ℓ) : Type ℓ where
  pub same : K → K → Bool
  pub same_iff : (j k : K) → (same j k ≡ true) ↔ (j ≡ k)

instance abbrev pub string_eq : HasEq String
string_eq = record { same_iff = eq_iff; same = text_same }

infix 50 ◌==◌
abbrev pub ◌==◌ {ℓ} : {K : Type ℓ} ⦃e : HasEq K⦄ → K → K → Bool
◌==◌ ⦃e⦄ j k = e.same j k

instance abbrev pub nat_eq : HasEq ℕ
nat_eq = record { same_iff = nat_eqb_iff; same = nat_eqb }

pub ==-self {ℓ} : {K : Type ℓ} ⦃e : HasEq K⦄ (k : K) → (k == k) ≡ true
==-self ⦃e⦄ k = (e.same_iff k k).1 refl
