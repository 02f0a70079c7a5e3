-- ===== src/Naming/Examples.antt =====
-- Runs of internal/naming/naming.go.
use xdev.Prelude.{
  ℕ, ◌≡◌, refl, inl, inr, Bool, true, false, ◌||◌, List, [], ◌∷◌, some, In, codes, Text, text_eq,
  text_eq_sound, cut_prefix, lower_rune, arith,
}
use xdev.Naming.{slugify, unique}
use xdev.Naming.Slug.{is_slug, slugify-is_slug, slug-fixed}
use xdev.Naming.Collisions.{Chosen, unique-Chosen}

-- Folding that leaves every rune above ASCII alone.
abbrev keep_rune : ℕ → ℕ
keep_rune r = r

slugify_test : slugify keep_rune (codes "  Mon  Été! ") ≡ codes "mon-t"
unfolding slugify xdev.Prelude.trim xdev.Prelude.trim_space lower_rune
slugify_test = refl

slugify-is_slug_example : is_slug (slugify keep_rune (codes " Hello, World! ")) ≡ true
slugify-is_slug_example = slugify-is_slug keep_rune (codes " Hello, World! ")

shop_is_slug : is_slug (codes "shop-2") ≡ true
unfolding is_slug
shop_is_slug = refl

slug-fixed_example : slugify keep_rune (codes "shop-2") ≡ codes "shop-2"
slug-fixed_example = slug-fixed keep_rune (codes "shop-2") shop_is_slug

abbrev shops : List Text
shops = codes "shop" ∷ codes "shop-2" ∷ []

abbrev is_shop : Text → Bool
is_shop t = text_eq t (codes "shop") || text_eq t (codes "shop-2")

is_shop-In : (t : Text) → is_shop t ≡ true → In t shops
is_shop-In t h = ground (arith, text_eq_sound t (codes "shop"), text_eq_sound t (codes "shop-2"))

unique-Chosen_example :
    (t : Text) × (unique 3 keep_rune (codes "Shop") is_shop ≡ some t)
    × (is_shop t ≡ false)
    × Chosen is_shop (slugify keep_rune (codes "Shop")) t
unique-Chosen_example =
    unique-Chosen 3 keep_rune (codes "Shop") is_shop shops is_shop-In (omega arith)

unique_test : unique 3 keep_rune (codes "Shop") is_shop ≡ some (codes "shop-3")
unfolding unique slugify text_eq xdev.Prelude.trim xdev.Prelude.trim_space lower_rune
    xdev.Prelude.itoa
unique_test = refl
