-- ===== src/Naming/Slug.antt =====
-- What Slugify produces: the grammar of slugs, and that slugs are left alone.
use xdev.Prelude.{
  ℕ, ◌≡◌, refl, ◌∙◌, ◌⊎◌, inl, inr, Bool, true, false, not, ◌&&◌, ◌||◌, [], ◌∷◌, ◌++◌, map, arith,
  append_assoc, append-nil, ==_iff, ◌==◌, is_empty, Text, trim, trim_left, trim_right, trim_space,
  is_space, lower_rune,
}
use xdev.Naming.{dash, is_word, slug_step, slug_loop, is_dash, or_app, slugify}

-- Runs of word runes with single dashes between them; `word` says whether a word rune came before.
unfoldable pub runs : Bool → Text → Bool
unfolding is_word
runs word [] = true
runs word (c ∷ s) = (is_word c || ((c == dash) && word)) && runs (is_word c) s

-- Whether the last rune is a word rune.
unfoldable pub ends_word : Bool → Text → Bool
unfolding is_word
ends_word word [] = word
ends_word word (c ∷ s) = ends_word (is_word c) s

-- A slug: [a-z0-9]+ joined by single dashes, not empty.
unfoldable pub is_slug : Text → Bool
unfolding runs ends_word
is_slug s = runs false s && ends_word false s

runs-append : (w : Bool) (s t : Text) → runs w (s ++ t) ≡ (runs w s && runs (ends_word w s) t)
unfolding runs ends_word
runs-append w [] t = refl
runs-append w (c ∷ s) t = ground (arith, runs-append (is_word c) s t)

ends_word-append : (w : Bool) (s t : Text) → ends_word w (s ++ t) ≡ ends_word (ends_word w s) t
unfolding ends_word
ends_word-append w [] t = refl
ends_word-append w (c ∷ s) t = ends_word-append (is_word c) s t

-- The builder and the flag agree.
record Built (b : Text) (last_dash : Bool) : Type 0 where
  shape : runs false b ≡ true
  flag : last_dash ≡ (not (is_empty b) && not (ends_word false b))

is_empty-snoc : (b : Text) (r : ℕ) → is_empty (b ++ r ∷ []) ≡ false
is_empty-snoc [] r = refl
is_empty-snoc (c ∷ b) r = refl

step-Built :
    (r : ℕ) (b : Text) (l : Bool) → Built b l → Built (slug_step r b l).0 (slug_step r b l).1
unfolding slug_step runs ends_word
step-Built r b l h = ground (
  arith,
  runs-append false b (r ∷ []),
  runs-append false b (dash ∷ []),
  ends_word-append false b (r ∷ []),
  ends_word-append false b (dash ∷ []),
  is_empty-snoc b r,
  is_empty-snoc b dash,
)

loop-runs : (s b : Text) (l : Bool) → Built b l → runs false (slug_loop s b l) ≡ true
unfolding slug_loop
loop-runs [] b l h = h.shape
loop-runs (r ∷ s) b l h = loop-runs s (slug_step r b l).0 (slug_step r b l).1 (step-Built r b l h)

trim_right-runs :
    (w : Bool) (s : Text)
    → runs w s ≡ true
    → (trim_right is_dash s ≡ [])
      ⊎ ((runs w (trim_right is_dash s) ≡ true) × (ends_word w (trim_right is_dash s) ≡ true))
unfolding trim_right runs ends_word is_dash
trim_right-runs w [] h = inl refl
trim_right-runs w (c ∷ s) h = ground (arith, trim_right-runs (is_word c) s)

trim_left-runs : (s : Text) → runs false s ≡ true → trim_left is_dash s ≡ s
unfolding trim_left runs is_dash is_word
trim_left-runs [] h = refl
trim_left-runs (c ∷ s) h = ground arith

or_app-slug : (s : Text) → (s ≡ []) ⊎ (is_slug s ≡ true) → is_slug (or_app s) ≡ true
unfolding or_app is_slug
or_app-slug [] h = refl
or_app-slug (c ∷ s) h = ground arith

trim-slug :
    (s : Text) → runs false s ≡ true → (trim is_dash s ≡ []) ⊎ (is_slug (trim is_dash s) ≡ true)
unfolding trim is_slug trim_left
trim-slug s h = elim (trim_right-runs false s h) [
  | inl e ↦ inl (rw e)
  | inr (shape, word) ↦ inr (ground (arith, trim_left-runs (trim_right is_dash s)))
]

Built-empty : Built [] false
unfolding runs ends_word
Built-empty = record { shape = refl; flag = refl }

-- Slugify returns a slug for every string.
pub slugify-is_slug : (fold : ℕ → ℕ) (s : Text) → is_slug (slugify fold s) ≡ true
unfolding slugify
slugify-is_slug fold s =
    or_app-slug _
      (trim-slug _ (loop-runs (map (lower_rune fold) (trim_space s)) [] false Built-empty))

-- A rune of a slug.
abbrev slug_rune : ℕ → Bool
unfolding is_word
slug_rune c = is_word c || (c == dash)

trim_right-slug : (w : Bool) (s : Text) → runs w s ≡ true → trim_right is_space s ≡ s
unfolding trim_right runs is_space is_word
trim_right-slug w [] h = refl
trim_right-slug w (c ∷ []) h = ground arith
trim_right-slug w (c ∷ d ∷ s) h = ground (arith, trim_right-slug (is_word c) (d ∷ s))

trim_space-slug : (s : Text) → runs false s ≡ true → trim_space s ≡ s
unfolding trim_space trim_left runs is_space is_word
trim_space-slug [] h = refl
trim_space-slug (c ∷ s) h = rw (trim_right-slug false (c ∷ s) h) (ground arith)

lower-slug : (fold : ℕ → ℕ) (w : Bool) (s : Text) → runs w s ≡ true → map (lower_rune fold) s ≡ s
unfolding runs lower_rune is_word
lower-slug fold w [] h = refl
lower-slug fold w (c ∷ s) h = ground (arith, lower-slug fold (is_word c) s)

-- A rune that continues a slug is appended as it is.
step-slug :
    (r : ℕ) (b : Text) (l : Bool)
    → Built b l
    → (is_word r || ((r == dash) && ends_word false b)) ≡ true
    → slug_step r b l ≡ (b ++ r ∷ [], not (is_word r))
unfolding slug_step
step-slug r [] l h ok = unfold ends_word is_word in ground arith
step-slug r (c ∷ b) l h ok = unfold is_word in ground (arith, ==_iff r dash)

loop-slug :
    (s b : Text) (l : Bool)
    → Built b l
    → runs (ends_word false b) s ≡ true
    → slug_loop s b l ≡ b ++ s
unfolding slug_loop runs
loop-slug [] b l h ok = rw append-nil
loop-slug (r ∷ s) b l h ok =
    let next = step-slug r b l h (ground arith) in
    let built = step-Built r b l h in
    rw next (
      loop-slug s (b ++ r ∷ []) (not (is_word r)) (rw next at built)
        (rw (ends_word-append false b (r ∷ [])) (unfold ends_word in ground arith))
      ∙ append_assoc b (r ∷ []) s)

trim_right-ends : (w : Bool) (s : Text) → ends_word w s ≡ true → trim_right is_dash s ≡ s
unfolding trim_right ends_word is_dash is_word
trim_right-ends w [] h = refl
trim_right-ends w (c ∷ []) h = ground arith
trim_right-ends w (c ∷ d ∷ s) h = ground (arith, trim_right-ends (is_word c) (d ∷ s))

or_app-ne : (s : Text) → ends_word false s ≡ true → or_app s ≡ s
unfolding or_app ends_word
or_app-ne [] h = cc
or_app-ne (c ∷ s) h = refl

-- Slugify leaves a slug as it is, so slugs survive being slugified again.
pub slug-fixed : (fold : ℕ → ℕ) (s : Text) → is_slug s ≡ true → slugify fold s ≡ s
unfolding slugify is_slug trim
slug-fixed fold s h =
    let shape : runs false s ≡ true = ground arith in
    let word : ends_word false s ≡ true = ground arith in
    rw
      (
        trim_space-slug s shape,
        lower-slug fold false s shape,
        loop-slug s [] false Built-empty shape,
      )
      (rw (trim_right-ends false s word, trim_left-runs s shape) (or_app-ne s word))
