-- ===== src/Prelude/Decimal.antt =====
-- Laws of `itoa`: its digits spell the number, so different numbers have different texts.
use Prim.Native.Nat.{ℕ, zero, suc, ◌+◌, ◌-◌, ◌*◌, ◌/◌, ◌%◌, ◌<◌}
use mathlib.Core.Path.{◌≡◌, refl, ◌∙◌, ap, sym}
use mathlib.Core.List.{[], ◌∷◌, ◌++◌}
use native.Mathlib.Omega.{arith}
use xdev.Prelude.Strings.{Text, itoa_fuel, itoa}

-- The number that digits spell behind `n`.
abbrev pub value : ℕ → Text → ℕ
value n [] = n
value n (c ∷ s) = value (n * 10 + (c - b'0')) s

value-append : (n : ℕ) (s t : Text) → value n (s ++ t) ≡ value (value n s) t
value-append n [] t = refl
value-append n (c ∷ s) t = value-append (n * 10 + (c - b'0')) s t

value-itoa_fuel : (f n : ℕ) → n < f → value 0 (itoa_fuel f n) ≡ n
unfolding itoa_fuel
value-itoa_fuel zero n h = absurd (omega arith)
value-itoa_fuel (suc f) n h = ground (
  arith,
  value-append 0 (itoa_fuel f (n / 10)) ((b'0' + n % 10) ∷ []),
  value-itoa_fuel f (n / 10),
)

pub value-itoa : (n : ℕ) → value 0 (itoa n) ≡ n
unfolding itoa
value-itoa n = value-itoa_fuel (suc n) n (omega arith)

pub itoa-injective : (m n : ℕ) → itoa m ≡ itoa n → m ≡ n
itoa-injective m n e = sym (value-itoa m) ∙ ap (value 0) e ∙ value-itoa n
