-- ===== src/Naming.antt =====
-- internal/naming/naming.go: slugs from names, and the choice of a free one.
-- A string is the list of its runes. `fold` is unicode.ToLower above ASCII, which the program takes
-- from Go's tables; every theorem holds for any such function.
pub mod Slug
pub mod Collisions
mod Examples
use xdev.Prelude.{
  ℕ, zero, suc, ◌+◌, Bool, true, false, not, ◌&&◌, ◌||◌, List, [], ◌∷◌, ◌++◌, map, Option, none,
  some, ltb, leb, ◌==◌, if◌then◌else◌, is_empty, Text, codes, trim, trim_space, lower_rune, itoa,
}

abbrev pub dash : ℕ
dash = b'-'

-- A rune that Slugify keeps.
pub is_word : ℕ → Bool
is_word r = (leb b'a' r && leb r b'z') || (leb b'0' r && leb r b'9')

-- One round of the loop: the builder `b` and `lastDash` after reading `r`.
pub slug_step : ℕ → Text → Bool → Text × Bool
unfolding is_word
slug_step r b last_dash =
    if is_word r
    then (b ++ r ∷ [], false)
    else if not (is_empty b) && not last_dash
    then (b ++ dash ∷ [], true)
    else (b, last_dash)

pub slug_loop : Text → Text → Bool → Text
unfolding slug_step
slug_loop [] b last_dash = b
slug_loop (r ∷ s) b last_dash =
    let (b', last_dash') = slug_step r b last_dash in slug_loop s b' last_dash'

pub is_dash : ℕ → Bool
is_dash c = c == dash

pub or_app : Text → Text
or_app [] = codes "app"
or_app (c ∷ s) = c ∷ s

unfoldable pub slugify : (ℕ → ℕ) → Text → Text
unfolding slug_loop is_dash or_app
slugify fold s = or_app (trim is_dash (slug_loop (map (lower_rune fold) (trim_space s)) [] false))

-- The loop of Unique from `i`; none means that the fuel ran out.
pub unique_loop : ℕ → (Text → Bool) → Text → ℕ → Option Text
unique_loop zero taken base i = none
unique_loop (suc f) taken base i =
    let candidate = base ++ dash ∷ itoa i in
    let rest = unique_loop f taken base (i + 1) in if taken candidate then rest else some candidate

unfoldable pub unique : ℕ → (ℕ → ℕ) → Text → (Text → Bool) → Option Text
unfolding unique_loop
unique fuel fold name taken =
    let base = slugify fold name in
    if not (taken base) then some base else unique_loop fuel taken base 2
