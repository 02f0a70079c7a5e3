-- ===== src/Store/Rows.antt =====
-- What UPDATE, DELETE and INSERT keep of a table: properties of all rows, keys, uniqueness.
use xdev.Prelude.{
  ℕ, suc, ◌≤◌, ◌≡◌, refl, sym, ap, ◌∙◌, ◌⊎◌, inl, inr, Bool, true, false, not, ◌||◌, ◌&&◌, List, [],
  ◌∷◌, ◌++◌, map, arith, Bool-cases, if◌then◌else◌, ◌==◌, ==_iff, ==_refl, All, filter, any, find,
  some,
}
use xdev.Store.Ranking.{member, Distinct, Ranked, renumber}
use xdev.Store.Table.{update_where}

module _ {A : Type 0} where
  -- No two rows clash: a UNIQUE constraint.
  abbrev pub Unique : (A → A → Bool) → List A → Type 0
  Unique clash [] = Unit
  Unique clash (x ∷ xs) = (any (clash x) xs ≡ false) × Unique clash xs

module _ {A : Type 0} where
  pub All-filter : (P : A → Type 0) (p : A → Bool) (xs : List A) → All P xs → All P (filter p xs)
  unfolding filter
  All-filter P p [] h = tt
  All-filter P p (x ∷ xs) h = elim (Bool-cases (p x)) [
    | inl e ↦ rw e (h.0, All-filter P p xs h.1)
    | inr e ↦ rw e (All-filter P p xs h.1)
  ]

  -- The rows that a DELETE leaves fail its test.
  pub All-kept :
      (P Q : A → Type 0) (p : A → Bool) (xs : List A)
      → ((x : A) → p x ≡ true → P x → Q x)
      → All P xs
      → All Q (filter p xs)
  unfolding filter
  All-kept P Q p [] f h = tt
  All-kept P Q p (x ∷ xs) f h = elim (Bool-cases (p x)) [
    | inl e ↦ rw e (f x e h.0, All-kept P Q p xs f h.1)
    | inr e ↦ rw e (All-kept P Q p xs f h.1)
  ]

  pub All-map : (P Q : A → Type 0) (xs : List A) → ((x : A) → P x → Q x) → All P xs → All Q xs
  All-map P Q [] f h = tt
  All-map P Q (x ∷ xs) f h = (f x h.0, All-map P Q xs f h.1)

  pub All-update :
      (P Q : A → Type 0) (p : A → Bool) (f : A → A) (xs : List A)
      → ((x : A) → p x ≡ true → P x → Q (f x))
      → ((x : A) → p x ≡ false → P x → Q x)
      → All P xs
      → All Q (update_where p f xs)
  unfolding update_where
  All-update P Q p f [] hit miss h = tt
  All-update P Q p f (x ∷ xs) hit miss h = elim (Bool-cases (p x)) [
    | inl e ↦ rw e (hit x e h.0, All-update P Q p f xs hit miss h.1)
    | inr e ↦ rw e (miss x e h.0, All-update P Q p f xs hit miss h.1)
  ]

  pub any-snoc : (p : A → Bool) (xs : List A) (n : A) → any p (xs ++ n ∷ []) ≡ (any p xs || p n)
  unfolding any
  any-snoc p [] n = ground arith
  any-snoc p (x ∷ xs) n = ground (arith, any-snoc p xs n)

  pub any-filter : (p q : A → Bool) (xs : List A) → any p xs ≡ false → any p (filter q xs) ≡ false
  unfolding any filter
  any-filter p q [] h = refl
  any-filter p q (x ∷ xs) h = ground (arith, any-filter p q xs)

  pub any-update :
      (p q : A → Bool) (f : A → A) (xs : List A)
      → ((x : A) → p (f x) ≡ p x)
      → any p (update_where q f xs) ≡ any p xs
  unfolding any update_where
  any-update p q f [] h = refl
  any-update p q f (x ∷ xs) h = ground (arith, h x, any-update p q f xs h)

  pub Unique-snoc :
      (clash : A → A → Bool) (xs : List A) (n : A)
      → any (λ x. clash x n) xs ≡ false
      → Unique clash xs
      → Unique clash (xs ++ n ∷ [])
  unfolding any
  Unique-snoc clash [] n h u = (refl, tt)
  Unique-snoc clash (x ∷ xs) n h u =
      (ground (arith, any-snoc (clash x) xs n), Unique-snoc clash xs n (ground arith) u.1)

  pub Unique-filter :
      (clash : A → A → Bool) (p : A → Bool) (xs : List A)
      → Unique clash xs
      → Unique clash (filter p xs)
  unfolding filter
  Unique-filter clash p [] u = tt
  Unique-filter clash p (x ∷ xs) u = elim (Bool-cases (p x)) [
    | inl e ↦ rw e (any-filter (clash x) p xs u.0, Unique-filter clash p xs u.1)
    | inr e ↦ rw e (Unique-filter clash p xs u.1)
  ]

  -- An UPDATE that leaves the unique columns alone.
  pub Unique-update :
      (clash : A → A → Bool) (p : A → Bool) (f : A → A) (xs : List A)
      → ((a b : A) → clash (f a) b ≡ clash a b)
      → ((a b : A) → clash a (f b) ≡ clash a b)
      → Unique clash xs
      → Unique clash (update_where p f xs)
  unfolding update_where
  Unique-update clash p f [] left right u = tt
  Unique-update clash p f (x ∷ xs) left right u = (
    any-update (clash (if p x then f x else x)) p f xs (right (if p x then f x else x))
        ∙ same (p x)
        ∙ u.0,
    Unique-update clash p f xs left right u.1,
  )
    where
      same : (b : Bool) → any (clash (if b then f x else x)) xs ≡ any (clash x) xs
      same true = ap (λ g. any g xs) (λ i y. left x y i)
      same false = refl

module _ {A : Type 0} where
  -- An UPDATE of rows that a SELECT does not read.
  pub filter-update :
      (p q : A → Bool) (f : A → A) (xs : List A)
      → ((x : A) → q x ≡ true → p x ≡ false)
      → ((x : A) → q x ≡ true → p (f x) ≡ false)
      → filter p (update_where q f xs) ≡ filter p xs
  unfolding filter update_where
  filter-update p q f [] h k = refl
  filter-update p q f (x ∷ xs) h k = elim (Bool-cases (q x)) [
    | inl e ↦ rw (e, h x e, k x e) (filter-update p q f xs h k)
    | inr e ↦ rw (e, filter-update p q f xs h k)
  ]

module _ {A : Type 0} (key : A → ℕ) where
  abbrev pub keys : List A → List ℕ
  keys xs = map key xs

  pub member-snoc :
      (a : ℕ) (xs : List A) (n : A)
      → member a (keys (xs ++ n ∷ [])) ≡ (member a (keys xs) || (a == key n))
  unfolding member
  member-snoc a [] n = ground arith
  member-snoc a (x ∷ xs) n = ground (arith, member-snoc a xs n)

  pub member-above :
      (n : ℕ) (xs : List A) → All (λ x. key x ≤ n) xs → member (suc n) (keys xs) ≡ false
  unfolding member
  member-above n [] h = refl
  member-above n (x ∷ xs) h = ground (arith, member-above n xs h.1)

  pub Distinct-snoc :
      (xs : List A) (n : A)
      → member (key n) (keys xs) ≡ false
      → Distinct (keys xs)
      → Distinct (keys (xs ++ n ∷ []))
  unfolding member
  Distinct-snoc [] n h d = (refl, tt)
  Distinct-snoc (x ∷ xs) n h d =
      (ground (arith, member-snoc (key x) xs n), Distinct-snoc xs n (ground arith) d.1)

  member-filter-false :
      (p : A → Bool) (a : ℕ) (xs : List A)
      → member a (keys xs) ≡ false
      → member a (keys (filter p xs)) ≡ false
  unfolding member filter
  member-filter-false p a [] h = refl
  member-filter-false p a (x ∷ xs) h = ground (arith, member-filter-false p a xs)

  pub Distinct-filter :
      (p : A → Bool) (xs : List A) → Distinct (keys xs) → Distinct (keys (filter p xs))
  unfolding filter
  Distinct-filter p [] d = tt
  Distinct-filter p (x ∷ xs) d = elim (Bool-cases (p x)) [
    | inl e ↦ rw e (member-filter-false p (key x) xs d.0, Distinct-filter p xs d.1)
    | inr e ↦ rw e (Distinct-filter p xs d.1)
  ]

  -- An UPDATE keeps the key column.
  pub keys-update :
      (p : A → Bool) (f : A → A) (xs : List A)
      → ((x : A) → key (f x) ≡ key x)
      → keys (update_where p f xs) ≡ keys xs
  unfolding update_where
  keys-update p f [] h = refl
  keys-update p f (x ∷ xs) h = ground (arith, h x, keys-update p f xs h)

  pub member-le :
      (a n : ℕ) (xs : List A) → All (λ x. key x ≤ n) xs → member a (keys xs) ≡ true → a ≤ n
  unfolding member
  member-le a n [] h m = absurd (cc)
  member-le a n (x ∷ xs) h m = ground (arith, member-le a n xs h.1)

  -- A row that is not deleted keeps its key in the table.
  pub member-filter :
      (p : A → Bool) (a : ℕ) (xs : List A)
      → ((x : A) → key x ≡ a → p x ≡ true)
      → member a (keys xs) ≡ true
      → member a (keys (filter p xs)) ≡ true
  unfolding member filter
  member-filter p a [] keep h = cc
  member-filter p a (x ∷ xs) keep h = elim (Bool-cases (a == key x)) [
    | inl e ↦ rw (keep x (sym ((==_iff a (key x)).0 e))) (ground arith)
    | inr e ↦ ground (arith, member-filter p a xs keep)
  ]

-- What one UPDATE keeps, the renumbering keeps.
pub renumber_induction :
    {R : Type 0} (t : Ranked R) (P : List R → Type 0)
    → ((p : R → Bool) (i : ℕ) (rows : List R)
        → P rows
        → P (update_where p (t.move (xdev.Prelude.Int.ℤ.pos i)) rows))
    → (i : ℕ) (ids : List ℕ) (rows : List R) → P rows
    → P (renumber t i ids rows)
unfolding renumber
renumber_induction t P step i [] rows h = h
renumber_induction t P step i (id ∷ ids) rows h =
    renumber_induction t P step (suc i) ids _ (step _ i rows h)
