-- ===== src/Prelude/Equality.antt =====
-- Decidable equality of map keys, as an interface with one operator.
use Prim.Native.Nat.{ℕ}
use mathlib.Core.Path.{◌≡◌, refl}
use mathlib.Core.Logic.{◌↔◌, ◌≢◌, ◌⊎◌, inl, inr}
use mathlib.Core.Bool.{Bool, true, false}
use Prim.Native.String.{String}
use text.Mathlib.Text
use text.Mathlib.TextEquality
use taildog.Prelude.Tests.{nat_beq, nat_beq_iff, Bool-cases}

-- Go's comparable types, as far as the relay keys maps by them.
pub record Comparable {ℓ} (K : Type ℓ) : Type ℓ where
  pub same : K → K → Bool
  pub same_iff : (j k : K) → (same j k ≡ true) ↔ (j ≡ k)

module _ {ℓ} {K : Type ℓ} ⦃c : Comparable K⦄ where
  infix 50 ◌==◌
  abbrev pub ◌==◌ : K → K → Bool
  j == k = c.same j k

  -- Two keys are equal or their test fails.
  pub beq-cases : (j k : K) → (j ≡ k) ⊎ ((j ≢ k) × ((j == k) ≡ false))
  beq-cases j k = elim (Bool-cases (j == k)) [
    | inr fails ↦ inr (λ p. cc ((c.same_iff j k).1 p), fails)
    | inl holds ↦ inl ((c.same_iff j k).0 holds)
  ]

  pub beq_refl : (k : K) → (k == k) ≡ true
  beq_refl k = (c.same_iff k k).1 refl

  pub beq_ne : (j k : K) → j ≢ k → (j == k) ≡ false
  beq_ne j k apart = elim (beq-cases j k) [ inl p ↦ absurd (apart p) | inr q ↦ q.1 ]

instance abbrev pub string_key : Comparable String
string_key = record { same_iff = TextEquality.eq_iff; same = Text.◌==◌ }

instance abbrev pub nat_key : Comparable ℕ
nat_key = record { same_iff = nat_beq_iff; same = nat_beq }
