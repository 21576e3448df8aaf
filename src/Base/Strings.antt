-- ===== src/Base/Strings.antt =====
-- Go strings: lists of bytes, with `len`, `==`, slicing, hexadecimal and decimal printing.
use Prim.Native.Nat.{ℕ, zero, suc, ◌+◌, ◌*◌, ◌/◌, ◌%◌}
use Prim.Native.Char.{code}
use Prim.Native.String.{String}
use mathlib.Core.Path.{◌≡◌, refl}
use mathlib.Core.Logic.{◌↔◌}
use mathlib.Core.Bool.{Bool, true, false, ◌&&◌}
use mathlib.Core.List.{List, [], ◌∷◌}
use native.Mathlib.Omega.{arith}
use snapshot_sequencer_valid.Base.Tests.{Comparable, ltb, nat_eqb, nat_eqb_iff, if◌then◌else◌}
use snapshot_sequencer_valid.Base.Lists.{length}

abbrev pub Text : Type 0
Text = List ℕ

-- The bytes of an ASCII literal.
abbrev pub bytes : String → Text
bytes String.[] = []
bytes (String.◌∷◌ c s) = code c ∷ bytes s

unfoldable pub text_eqb : Text → Text → Bool
text_eqb [] [] = true
text_eqb (a ∷ s) (b ∷ t) = nat_eqb a b && text_eqb s t
text_eqb _ _ = false

pub text_eqb_iff : (s t : Text) → (text_eqb s t ≡ true) ↔ (s ≡ t)
unfolding text_eqb
text_eqb_iff [] [] = (λ _. refl, λ _. refl)
text_eqb_iff [] (b ∷ t) = (λ h. cc, λ h. cc)
text_eqb_iff (a ∷ s) [] = (λ h. cc, λ h. cc)
text_eqb_iff (a ∷ s) (b ∷ t) = (
  λ h. ground (arith, text_eqb_iff s t, nat_eqb_iff a b),
  λ h. ground (arith, text_eqb_iff s t, nat_eqb_iff a b),
)

instance abbrev pub text_eq : Comparable Text
text_eq = record { is_equal = text_eqb; is_equal_iff = text_eqb_iff }

-- `s == ""`
abbrev pub is_empty : Text → Bool
is_empty [] = true
is_empty (_ ∷ _) = false

abbrev hex_digit : ℕ → ℕ
hex_digit d = if ltb d 10 then 48 + d else 87 + d

-- hex.EncodeToString
unfoldable pub hex_encode : List ℕ → Text
hex_encode [] = []
hex_encode (b ∷ bs) = hex_digit (b / 16) ∷ hex_digit (b % 16) ∷ hex_encode bs

pub length-hex_encode : (bs : List ℕ) → length (hex_encode bs) ≡ 2 * length bs
unfolding hex_encode
length-hex_encode [] = omega arith
length-hex_encode (b ∷ bs) = omega (arith, length-hex_encode bs)

-- `%d` of an unsigned integer, the fuel being the number of digits allowed.
unfoldable pub digits : ℕ → ℕ → Text → Text
digits zero n acc = acc
digits (suc f) n acc =
    let rest = digits f (n / 10) ((48 + n % 10) ∷ acc) in if ltb n 10 then (48 + n) ∷ acc else rest

-- `%d`: `n + 1` digits are always enough.
unfoldable pub decimal : ℕ → Text
unfolding digits
decimal n = digits (suc n) n []
