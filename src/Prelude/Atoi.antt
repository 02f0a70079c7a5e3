-- ===== src/Prelude/Atoi.antt =====
-- strconv.Atoi on a 64-bit machine: the value and whether the text is a number in range.
-- Out of range the value is the nearest int, and a text that is no number gives 0.
use Prim.Native.Nat.{ℕ, ◌+◌, ◌-◌, ◌*◌, ◌^◌}
use mathlib.Core.Bool.{Bool, true, false, ◌&&◌}
use mathlib.Core.List.{[], ◌∷◌}
use mathlib.Core.Option.{Option, none, some}
use xdev.Prelude.Tests.{leb, ◌==◌, if◌then◌else◌}
use xdev.Prelude.Strings.{Text}
use xdev.Prelude.Int.{ℤ, pos, negsuc}

abbrev pub max_int : ℕ
max_int = 2 ^ 63 - 1

-- The value of one or more digits.
unfoldable pub digits : ℕ → Text → Option ℕ
digits n [] = some n
digits n (c ∷ s) =
    let rest = digits (n * 10 + (c - b'0')) s in if leb b'0' c && leb c b'9' then rest else none

unfoldable pub natural : Text → Option ℕ
unfolding digits
natural [] = none
natural (c ∷ s) = digits 0 (c ∷ s)

unfoldable pub positive : Option ℕ → ℤ × Bool
positive none = (pos 0, false)
positive (some n) = if leb n max_int then (pos n, true) else (pos max_int, false)

unfoldable pub negative : Option ℕ → ℤ × Bool
negative none = (pos 0, false)
negative (some n) =
    if n == 0
    then (pos 0, true)
    else if leb n (max_int + 1)
    then (negsuc (n - 1), true)
    else (negsuc max_int, false)

unfoldable pub atoi : Text → ℤ × Bool
unfolding natural positive negative
atoi [] = (pos 0, false)
atoi (c ∷ s) =
    if c == b'-'
    then negative (natural s)
    else if c == b'+'
    then positive (natural s)
    else positive (natural (c ∷ s))
