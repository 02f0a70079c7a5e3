-- ===== src/Prelude/Strings/Parts.antt =====
-- Laws of trimming, cutting and splitting texts that hold no separator.
use Prim.Native.Nat.{ℕ}
use mathlib.Core.Path.{◌≡◌, refl, ◌∙◌}
use mathlib.Core.Logic.{inl, inr}
use mathlib.Core.Bool.{Bool, true, false, not, ◌&&◌, ◌||◌}
use mathlib.Core.List.{List, [], ◌∷◌, ◌++◌, reverse, reverse-append, reverse-reverse, append_assoc}
use mathlib.Core.Option.{none, some}
use native.Mathlib.Omega.{arith}
use xdev.Prelude.Tests.{◌==◌, ==_refl, Bool-cases}
use xdev.Prelude.Lists.{is_empty, all}
use xdev.Prelude.Strings.{
  Text, contains_rune, trim_left, trim_right, trim, cut, before, split, cut_prefix, has_prefix,
  has_suffix, trim_suffix,
}

pub contains_rune-append :
    (s t : Text) (c : ℕ) → contains_rune (s ++ t) c ≡ (contains_rune s c || contains_rune t c)
unfolding contains_rune
contains_rune-append [] t c = refl
contains_rune-append (d ∷ s) t c = ground (arith, contains_rune-append s t c)

pub all-append : (p : ℕ → Bool) (s t : Text) → all p (s ++ t) ≡ (all p s && all p t)
unfolding all
all-append p [] t = refl
all-append p (c ∷ s) t = ground (arith, all-append p s t)

-- What fails a test at one character lacks it, where all pass the test.
pub all-lacks :
    (p : ℕ → Bool) (s : Text) (c : ℕ) → all p s ≡ true → p c ≡ false → contains_rune s c ≡ false
unfolding all contains_rune
all-lacks p [] c h e = refl
all-lacks p (d ∷ s) c h e = ground (arith, all-lacks p s c)

trim_right-none : (p : ℕ → Bool) (s : Text) → all (λ c. not (p c)) s ≡ true → trim_right p s ≡ s
unfolding trim_right all
trim_right-none p [] h = refl
trim_right-none p (c ∷ []) h = ground arith
trim_right-none p (c ∷ d ∷ s) h = rw (trim_right-none p (d ∷ s) (ground arith)) refl

pub trim_right-kept :
    (p : ℕ → Bool) (s t : Text)
    → is_empty t ≡ false
    → all (λ c. not (p c)) t ≡ true
    → trim_right p (s ++ t) ≡ s ++ t
unfolding trim_right
trim_right-kept p [] t e h = trim_right-none p t h
trim_right-kept p (c ∷ []) [] e h = absurd (ground arith)
trim_right-kept p (c ∷ []) (d ∷ t) e h = rw (trim_right-none p (d ∷ t) h) refl
trim_right-kept p (c ∷ d ∷ s) t e h = rw (trim_right-kept p (d ∷ s) t e h) refl

-- A text that holds nothing to trim.
pub trim-none : (p : ℕ → Bool) (s : Text) → all (λ c. not (p c)) s ≡ true → trim p s ≡ s
unfolding trim trim_left all
trim-none p [] h = refl
trim-none p (c ∷ s) h =
    let k : p c ≡ false = ground (arith, h) in rw (trim_right-none p (c ∷ s) h, k) refl

-- A text is trimmed already, if its first character and those at its end are to stay.
pub trim-kept :
    (p : ℕ → Bool) (c : ℕ) (s t : Text)
    → p c ≡ false
    → is_empty t ≡ false
    → all (λ c. not (p c)) t ≡ true
    → trim p (c ∷ s ++ t) ≡ c ∷ s ++ t
unfolding trim trim_left
trim-kept p c s t k e h = rw (trim_right-kept p (c ∷ s) t e h, k) refl

pub cut-lacking : (sep : ℕ) (s : Text) → contains_rune s sep ≡ false → cut sep s ≡ none
unfolding cut contains_rune
cut-lacking sep [] h = refl
cut-lacking sep (c ∷ s) h = ground (arith, cut-lacking sep s)

pub cut-first :
    (sep : ℕ) (s t : Text) → contains_rune s sep ≡ false → cut sep (s ++ sep ∷ t) ≡ some (s, t)
unfolding cut contains_rune
cut-first sep [] t h = ground arith
cut-first sep (c ∷ s) t h = ground (arith, cut-first sep s t)

pub before-lacking : (sep : ℕ) (s : Text) → contains_rune s sep ≡ false → before sep s ≡ s
unfolding before contains_rune
before-lacking sep [] h = refl
before-lacking sep (c ∷ s) h = ground (arith, before-lacking sep s)

pub split-lacking : (sep : ℕ) (s : Text) → contains_rune s sep ≡ false → split sep s ≡ s ∷ []
unfolding split contains_rune
split-lacking sep [] h = refl
split-lacking sep (c ∷ s) h = ground (arith, split-lacking sep s)

split-inside :
    (sep c : ℕ) (s part : Text) (parts : List Text)
    → (c == sep) ≡ false
    → split sep s ≡ part ∷ parts
    → split sep (c ∷ s) ≡ (c ∷ part) ∷ parts
unfolding split
split-inside sep c s part parts h e = rw (e, h) refl

split-part :
    (sep : ℕ) (s : Text) → (part : Text) × (parts : List Text) × (split sep s ≡ part ∷ parts)
unfolding split
split-part sep [] = ([], [], refl)
split-part sep (c ∷ s) =
    let rest = split-part sep s in
    elim (Bool-cases (c == sep)) [
      | inl e ↦ ([], rest.0 ∷ rest.1, rw (split, rest.2, e) refl)
      | inr e ↦ (c ∷ rest.0, rest.1, rw (split, rest.2, e) refl)
    ]

split-sep : (sep : ℕ) (t : Text) → split sep (sep ∷ t) ≡ [] ∷ split sep t
unfolding split
split-sep sep t = let rest = split-part sep t in rw (rest.2, ==_refl sep) refl

pub split-first :
    (sep : ℕ) (s t : Text)
    → contains_rune s sep ≡ false
    → split sep (s ++ sep ∷ t) ≡ s ∷ split sep t
unfolding contains_rune
split-first sep [] t h = split-sep sep t
split-first sep (c ∷ s) t h =
    split-inside sep c (s ++ sep ∷ t) s (split sep t) (ground arith)
      (split-first sep s t (ground arith))

pub cut_prefix-append : (p s : Text) → cut_prefix (p ++ s) p ≡ some s
unfolding cut_prefix
cut_prefix-append [] s = refl
cut_prefix-append (c ∷ p) s = ground (arith, cut_prefix-append p s)

pub cut_prefix-none : (s p : Text) → has_prefix s p ≡ false → cut_prefix s p ≡ none
unfolding cut_prefix has_prefix
cut_prefix-none s [] h = absurd (ground arith)
cut_prefix-none [] (c ∷ p) h = refl
cut_prefix-none (d ∷ s) (c ∷ p) h = ground (arith, cut_prefix-none s p)

pub trim_suffix-append : (s p : Text) → trim_suffix (s ++ p) p ≡ s
unfolding trim_suffix
trim_suffix-append s p =
    rw (trim_suffix, reverse-append s p, cut_prefix-append (reverse p) (reverse s))
      (reverse-reverse s)

-- A prefix that lacks a separator does not reach beyond it.
has_prefix-beyond :
    (sep : ℕ) (s t p : Text)
    → contains_rune p sep ≡ false
    → has_prefix (s ++ sep ∷ t) p ≡ has_prefix s p
unfolding has_prefix contains_rune
has_prefix-beyond sep s t [] h = refl
has_prefix-beyond sep [] t (c ∷ p) h = ground arith
has_prefix-beyond sep (d ∷ s) t (c ∷ p) h = ground (arith, has_prefix-beyond sep s t p)

pub trim_suffix-none :
    (sep : ℕ) (s t p : Text)
    → contains_rune (reverse p) sep ≡ false
    → has_suffix t p ≡ false
    → trim_suffix (s ++ sep ∷ t) p ≡ s ++ sep ∷ t
unfolding trim_suffix has_suffix
trim_suffix-none sep s t p l h =
    rw
      (
        trim_suffix,
        reverse-append s (sep ∷ t),
        reverse-append (sep ∷ []) t,
        append_assoc (reverse t) (sep ∷ []) (reverse s),
        cut_prefix-none (reverse t ++ sep ∷ reverse s) (reverse p)
            (has_prefix-beyond sep (reverse t) (reverse s) (reverse p) l ∙ h),
      )
      refl
