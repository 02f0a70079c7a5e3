-- ===== src/Release/Tags.antt =====
-- CompareVersions on the tags of releases.
use xdev.Prelude.{
  ℕ, ◌≤◌, sym, Bool-cases, zero, suc, ◌+◌, ◌-◌, ◌*◌, ◌/◌, ◌%◌, ◌<◌, ◌≡◌, refl, ap, ◌∙◌, ◌↔◌, ◌⊎◌,
  inl, inr, ◌==◌, ◌&&◌, ◌||◌, Bool, true, false, not, [], ◌∷◌, ◌++◌, some, arith, if◌then◌else◌,
  leb, ltb, all, Text, codes, split, trim_space, is_space, itoa, itoa_fuel,
}
use xdev.Prelude.Int.{pos}
use xdev.Prelude.Atoi.{atoi, digits, natural, positive, max_int}
use xdev.Prelude.Decimal.{value, value-itoa}
use xdev.Prelude.Strings.Parts.{all-append, all-lacks, trim-none, split-first, split-lacking}
use xdev.Release.{
  Comparison, newer, older, same, Version, first_field, trim_v, non_negative, part, three_parts,
  parse_version, compare_parts, compare_parsed, compare_versions,
}

abbrev is_digit : ℕ → Bool
is_digit c = leb b'0' c && leb c b'9'

-- The characters of a tag.
abbrev in_tag : ℕ → Bool
in_tag c = is_digit c || c == b'.' || c == b'v'

itoa_fuel-digits : (f n : ℕ) → all is_digit (itoa_fuel f n) ≡ true
unfolding itoa_fuel all
itoa_fuel-digits zero n = refl
itoa_fuel-digits (suc f) n = ground (
  arith,
  itoa_fuel-digits f (n / 10),
  all-append is_digit (itoa_fuel f (n / 10)) ((b'0' + n % 10) ∷ []),
)

itoa-digits : (n : ℕ) → all is_digit (itoa n) ≡ true
unfolding itoa
itoa-digits n = itoa_fuel-digits (suc n) n

digits-value : (n : ℕ) (s : Text) → all is_digit s ≡ true → digits n s ≡ some (value n s)
unfolding digits all
digits-value n [] h = refl
digits-value n (c ∷ s) h = ground (arith, h, digits-value (n * 10 + (c - b'0')) s)

append-front : (s t : Text) (d : ℕ) → (c : ℕ) × (u : Text) × (s ++ d ∷ t ≡ c ∷ u)
append-front [] t d = (d, t, refl)
append-front (c ∷ s) t d = (c, s ++ d ∷ t, refl)

some_digit : (n : ℕ) → (c : ℕ) × (s : Text) × (itoa n ≡ c ∷ s)
unfolding itoa itoa_fuel
some_digit n = elim (Bool-cases (ltb n 10)) [
  | inl e ↦ (b'0' + n, [], rw (itoa, e) refl)
  | inr e ↦
      let front = append-front (itoa_fuel n (n / 10)) [] (b'0' + n % 10) in
      (front.0, front.1, rw (itoa, e) front.2)
]

atoi-digits :
    (c : ℕ) (t : Text) (n : ℕ)
    → all is_digit (c ∷ t) ≡ true
    → value 0 (c ∷ t) ≡ n
    → leb n max_int ≡ true
    → atoi (c ∷ t) ≡ (pos n, true)
unfolding atoi natural positive all
atoi-digits c t n h v b = ground (arith, h, v, b, digits-value 0 (c ∷ t) h)

part-itoa : (n : ℕ) → leb n max_int ≡ true → part (itoa n) ≡ some n
unfolding part non_negative
part-itoa n b =
    let first = some_digit n in
    rw
      (
        first.2,
        atoi-digits first.0 first.1 n (ap (all is_digit) (sym first.2) ∙ itoa-digits n)
            (ap (value 0) (sym first.2) ∙ value-itoa n) b,
      )
      refl

in_tag-bounds : (c : ℕ) → in_tag c ≡ true → (46 ≤ c) × (c ≤ 118)
in_tag-bounds c h = ground (arith, h)

bounds-no_space : (c : ℕ) → 46 ≤ c → c ≤ 118 → is_space c ≡ false
unfolding is_space
bounds-no_space c l u = ground (arith, l, u)

in_tag-kept : (s : Text) → all in_tag s ≡ true → all (λ c. not (is_space c)) s ≡ true
unfolding all
in_tag-kept [] h = refl
in_tag-kept (c ∷ s) h =
    let b = in_tag-bounds c (ground (arith, h)) in
    ground (arith, h, bounds-no_space c b.0 b.1, in_tag-kept s)

first_field-tag : (s : Text) → all in_tag s ≡ true → first_field s ≡ s
unfolding first_field all
first_field-tag [] h = refl
first_field-tag (c ∷ s) h = ground (arith, h, first_field-tag s)

digits-in_tag : (s : Text) → all is_digit s ≡ true → all in_tag s ≡ true
unfolding all
digits-in_tag [] h = refl
digits-in_tag (c ∷ s) h = ground (arith, h, digits-in_tag s)

-- Three numbers with dots between them.
unfoldable pub dotted : Version → Text
dotted (a, b, c) = itoa a ++ (b'.' ∷ (itoa b ++ (b'.' ∷ itoa c)))

-- A tag, with or without the v in front.
abbrev pub tag : Bool → Version → Text
tag v version = (if v then codes "v" else []) ++ dotted version

dotted-in_tag : (a b c : ℕ) → all in_tag (dotted (a, b, c)) ≡ true
unfolding dotted all
dotted-in_tag a b c = ground (
  arith,
  all-append in_tag (itoa a) (b'.' ∷ (itoa b ++ (b'.' ∷ itoa c))),
  all-append in_tag (itoa b) (b'.' ∷ itoa c),
  digits-in_tag (itoa a) (itoa-digits a),
  digits-in_tag (itoa b) (itoa-digits b),
  digits-in_tag (itoa c) (itoa-digits c),
)

tag-in_tag : (v : Bool) (a b c : ℕ) → all in_tag (tag v (a, b, c)) ≡ true
unfolding all
tag-in_tag true a b c = dotted-in_tag a b c
tag-in_tag false a b c = dotted-in_tag a b c

-- A text that starts with a digit has no v to take away.
trim_v-digit : (c : ℕ) (u : Text) → is_digit c ≡ true → trim_v (c ∷ u) ≡ c ∷ u
unfolding trim_v
trim_v-digit c u h = ground (arith, h)

trim_v-digits :
    (s t : Text) (c : ℕ) (u : Text) → s ≡ c ∷ u → all is_digit s ≡ true → trim_v (s ++ t) ≡ s ++ t
unfolding all
trim_v-digits s t c u e h =
    rw e (trim_v-digit c (u ++ t) (ground (arith, ap (all is_digit) (sym e) ∙ h)))

trim_v-tag : (v : Bool) (a b c : ℕ) → trim_v (tag v (a, b, c)) ≡ dotted (a, b, c)
unfolding trim_v dotted
trim_v-tag true a b c = refl
trim_v-tag false a b c =
    let first = some_digit a in
    trim_v-digits (itoa a) (b'.' ∷ (itoa b ++ (b'.' ∷ itoa c))) first.0 first.1 first.2
      (itoa-digits a)

split-dotted : (a b c : ℕ) → split b'.' (dotted (a, b, c)) ≡ itoa a ∷ itoa b ∷ itoa c ∷ []
unfolding dotted
split-dotted a b c =
    split-first b'.' (itoa a) (itoa b ++ (b'.' ∷ itoa c))
      (all-lacks is_digit (itoa a) b'.' (itoa-digits a) refl)
    ∙ ap (λ ps. itoa a ∷ ps)
        (split-first b'.' (itoa b) (itoa c) (all-lacks is_digit (itoa b) b'.' (itoa-digits b) refl)
          ∙ ap (λ ps. itoa b ∷ ps)
              (split-lacking b'.' (itoa c) (all-lacks is_digit (itoa c) b'.' (itoa-digits c) refl)))

-- The numbers fit an int.
abbrev pub fits : Version → Bool
fits (a, b, c) = leb a max_int && leb b max_int && leb c max_int

parse_version-tag :
    (v : Bool) (a b c : ℕ)
    → fits (a, b, c) ≡ true
    → parse_version (tag v (a, b, c)) ≡ some (a, b, c)
unfolding parse_version three_parts trim_space
parse_version-tag v a b c h =
    rw
      (
        parse_version,
        trim-none is_space (tag v (a, b, c)) (in_tag-kept (tag v (a, b, c)) (tag-in_tag v a b c)),
        first_field-tag (tag v (a, b, c)) (tag-in_tag v a b c),
        trim_v-tag v a b c,
        split-dotted a b c,
        three_parts,
        part-itoa a (ground (arith, h)),
        part-itoa b (ground (arith, h)),
        part-itoa c (ground (arith, h)),
      )
      refl

-- A version comes before another one in the order of its numbers, the first number first.
abbrev pub Earlier : Version → Version → Type 0
Earlier (a, b, c) (x, y, z) = (a < x) ⊎ ((a ≡ x) × ((b < y) ⊎ ((b ≡ y) × (c < z))))

abbrev pub Ordered : Comparison → Version → Version → Type 0
Ordered r (a, b, c) (x, y, z) =
    ((r ≡ newer) ↔ Earlier (a, b, c) (x, y, z))
    × ((r ≡ older) ↔ Earlier (x, y, z) (a, b, c))
    × ((r ≡ same) ↔ ((a ≡ x) × (b ≡ y) × (c ≡ z)))

compare_parts-Ordered :
    (a b c x y z : ℕ) → Ordered (compare_parts (a, b, c) (x, y, z)) (a, b, c) (x, y, z)
unfolding compare_parts
compare_parts-Ordered a b c x y z = (
  (λ h. ground arith, λ h. ground arith),
  (λ h. ground arith, λ h. ground arith),
  (λ h. ground arith, λ h. ground arith),
)

-- CompareVersions orders release tags by their numbers: with or without a v in front, a release is
-- newer exactly if its version comes after the installed one, older exactly if it comes before it,
-- and the same exactly if the three numbers are equal. The numbers fit an int.
pub compare_versions-Ordered :
    (v w : Bool) (a b c x y z : ℕ)
    → fits (a, b, c) ≡ true
    → fits (x, y, z) ≡ true
    → Ordered (compare_versions (tag v (a, b, c)) (tag w (x, y, z))) (a, b, c) (x, y, z)
unfolding compare_versions compare_parsed
compare_versions-Ordered v w a b c x y z h k =
    rw (compare_versions, parse_version-tag v a b c h, parse_version-tag w x y z k)
      (compare_parts-Ordered a b c x y z)
