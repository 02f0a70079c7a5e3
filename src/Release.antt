-- ===== src/Release.antt =====
-- internal/selfupdate/release.go: which asset to fetch, and how versions compare.
pub mod Tags
mod Examples
use xdev.Prelude.{
  ℕ, ◌&&◌, ◌||◌, Bool, true, false, not, List, [], ◌∷◌, ◌++◌, Option, none, some, ltb,
  if◌then◌else◌, ◌==◌, is_empty, Text, codes, text_eq, split, trim_space,
}
use xdev.Prelude.Atoi.{atoi}
use xdev.Prelude.Int.{ℤ, pos, negsuc}

pub data Comparison : Type 0 where
  unknown same newer older : Comparison

-- none stands for the error: no binaries are published for the platform.
unfoldable pub asset_name : Text → Text → Option Text
asset_name goos goarch =
    if not (text_eq goos (codes "linux") || text_eq goos (codes "darwin"))
    then none
    else if not (text_eq goarch (codes "amd64") || text_eq goarch (codes "arm64"))
    then none
    else some (codes "xdev-" ++ goos ++ codes "-" ++ goarch)

-- v[:strings.IndexByte(v, ' ')], or all of it.
unfoldable pub first_field : Text → Text
first_field [] = []
first_field (c ∷ s) = let rest = first_field s in if c == b' ' then [] else c ∷ rest

-- strings.TrimPrefix(v, "v")
unfoldable pub trim_v : Text → Text
trim_v [] = []
trim_v (c ∷ s) = if c == b'v' then s else c ∷ s

unfoldable pub non_negative : ℤ × Bool → Option ℕ
non_negative (pos n, true) = some n
non_negative (pos n, false) = none
non_negative (negsuc n, b) = none

unfoldable pub part : Text → Option ℕ
part p = non_negative (atoi p)

abbrev pub Version : Type 0
Version = ℕ × ℕ × ℕ

unfoldable pub three_parts : List Text → Option Version
three_parts (a ∷ b ∷ c ∷ []) = elim (part a) [
  | none ↦ none
  | some x ↦ elim (part b) [
    | none ↦ none
    | some y ↦ elim (part c) [ none ↦ none | some z ↦ some (x, y, z) ]
  ]
]
three_parts _ = none

unfoldable pub parse_version : Text → Option Version
parse_version v = three_parts (split b'.' (trim_v (first_field (trim_space v))))

-- The loop over the three numbers.
unfoldable pub compare_parts : Version → Version → Comparison
compare_parts (a, b, c) (x, y, z) =
    if ltb a x
    then newer
    else if ltb x a
    then older
    else if ltb b y
    then newer
    else if ltb y b
    then older
    else if ltb c z
    then newer
    else if ltb z c
    then older
    else same

unfoldable pub compare_parsed : Option Version → Option Version → Text → Text → Comparison
compare_parsed (some a) (some b) installed release = compare_parts a b
compare_parsed (some a) none installed release =
    if text_eq installed release && not (is_empty installed) then same else unknown
compare_parsed none b installed release =
    if text_eq installed release && not (is_empty installed) then same else unknown

unfoldable pub compare_versions : Text → Text → Comparison
compare_versions installed release =
    compare_parsed (parse_version installed) (parse_version release) installed release
