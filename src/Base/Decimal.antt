-- ===== src/Base/Decimal.antt =====
-- Numbers in decimal notation can be read back.
use Prim.Native.Nat.{ℕ, zero, suc, ◌+◌, ◌-◌, ◌*◌, ◌/◌, ◌<◌}
use mathlib.Core.Path.{◌≡◌, sym, ap, ◌∙◌}
use mathlib.Core.Logic.{inl, inr}
use mathlib.Core.List.{[], ◌∷◌}
use native.Mathlib.Omega.{arith}
use snapshot_sequencer_valid.Base.Tests.{ltb, Bool-cases}
use snapshot_sequencer_valid.Base.Lists.{All}
use snapshot_sequencer_valid.Base.Strings.{Text, digits, decimal}

-- The number that the digits after `n` make of it.
unfoldable pub value : ℕ → Text → ℕ
value n [] = n
value n (c ∷ s) = value (n * 10 + (c - 48)) s

value-digits : (f n : ℕ) (acc : Text) → n < f → value 0 (digits f n acc) ≡ value n acc
unfolding value digits
value-digits zero n acc h = absurd (omega arith)
value-digits (suc f) n acc h = elim (Bool-cases (ltb n 10)) [
  | inl small ↦ rw small (ap (λ m. value m acc) (omega arith))
  | inr large ↦
      rw large (value-digits f (n / 10) _ (ground arith) ∙ ap (λ m. value m acc) (omega arith))
]

pub value-decimal : (n : ℕ) → value 0 (decimal n) ≡ n
unfolding decimal value
value-decimal n = value-digits (suc n) n [] (omega arith)

pub decimal-injective : (m n : ℕ) → decimal m ≡ decimal n → m ≡ n
decimal-injective m n e = sym (value-decimal m) ∙ ap (value 0) e ∙ value-decimal n

digits_below : (f n : ℕ) (acc : Text) → All (λ c. c < 58) acc → All (λ c. c < 58) (digits f n acc)
unfolding digits
digits_below zero n acc h = h
digits_below (suc f) n acc h = elim (Bool-cases (ltb n 10)) [
  | inl small ↦ rw small (ground arith, h)
  | inr large ↦ rw large (digits_below f (n / 10) _ (omega arith, h))
]

-- The digits are below the colon, which has the code 58.
pub decimal_below : (n : ℕ) → All (λ c. c < 58) (decimal n)
unfolding decimal
decimal_below n = digits_below (suc n) n [] tt
