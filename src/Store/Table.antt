-- ===== src/Store/Table.antt =====
-- Tables as lists of rows, in the order of insertion, and what the SQL statements do with them.
pub mod Select
use xdev.Prelude.{
  suc, ◌≡◌, refl, ◌⊎◌, inl, inr, Bool, true, false, List, [], ◌∷◌, ◌++◌, arith, Bool-cases,
  if◌then◌else◌, length, In, All,
}

module _ {A : Type 0} (le : A → A → Bool) where
  unfoldable pub insert_by : A → List A → List A
  insert_by x [] = x ∷ []
  insert_by x (y ∷ ys) = let rest = insert_by x ys in if le x y then x ∷ y ∷ ys else y ∷ rest

  -- ORDER BY: rows that compare equal keep their order.
  unfoldable pub order_by : List A → List A
  unfolding insert_by
  order_by [] = []
  order_by (x ∷ xs) = insert_by x (order_by xs)

-- UPDATE … SET f WHERE p.
unfoldable pub update_where : {A : Type 0} → (A → Bool) → (A → A) → List A → List A
update_where p f [] = []
update_where p f (x ∷ xs) = (if p x then f x else x) ∷ update_where p f xs

module _ {A : Type 0} (le : A → A → Bool) where
  abbrev pub Sorted : List A → Type 0
  Sorted [] = Unit
  Sorted (x ∷ xs) = All (λ y. le x y ≡ true) xs × Sorted xs

module _ {A : Type 0} (le : A → A → Bool) where
  pub In-insert_by : (x a : A) (ys : List A) → In a (insert_by le x ys) → (a ≡ x) ⊎ In a ys
  unfolding insert_by
  In-insert_by x a [] m = m
  In-insert_by x a (y ∷ ys) m = ground (arith, In-insert_by x a ys)

  pub insert_by-In : (x a : A) (ys : List A) → (a ≡ x) ⊎ In a ys → In a (insert_by le x ys)
  unfolding insert_by
  insert_by-In x a [] m = m
  insert_by-In x a (y ∷ ys) m = ground (arith, insert_by-In x a ys)

  pub In-order_by : (a : A) (xs : List A) → In a (order_by le xs) → In a xs
  unfolding order_by
  In-order_by a [] m = m
  In-order_by a (x ∷ xs) m = ground (arith, In-insert_by x a (order_by le xs), In-order_by a xs)

  pub order_by-In : (a : A) (xs : List A) → In a xs → In a (order_by le xs)
  unfolding order_by
  order_by-In a [] m = m
  order_by-In a (x ∷ xs) m = ground (arith, insert_by-In x a (order_by le xs), order_by-In a xs)

  pub All-order_by : (P : A → Type 0) (xs : List A) → All P xs → All P (order_by le xs)
  unfolding order_by
  All-order_by P [] h = tt
  All-order_by P (x ∷ xs) h = insert_case x (order_by le xs) h.0 (All-order_by P xs h.1)
    where
      insert_case : (x : A) (ys : List A) → P x → All P ys → All P (insert_by le x ys)
      insert_case x [] px h = (px, tt)
      insert_case x (y ∷ ys) px h =
          elim (le x y) as (λ b. All P (if b then x ∷ y ∷ ys else y ∷ insert_by le x ys)) [
            | true ↦ (px, h)
            | false ↦ (h.0, insert_case x ys px h.1)
          ]

  length-insert_by : (x : A) (ys : List A) → length (insert_by le x ys) ≡ suc (length ys)
  unfolding insert_by
  length-insert_by x [] = refl
  length-insert_by x (y ∷ ys) = ground (arith, length-insert_by x ys)

  pub length-order_by : (xs : List A) → length (order_by le xs) ≡ length xs
  unfolding order_by
  length-order_by [] = refl
  length-order_by (x ∷ xs) = ground (arith, length-insert_by x (order_by le xs), length-order_by xs)

  -- A row before all others comes out first, wherever it stands.
  insert_by-after :
      (x n : A) (ys : List A) → le x n ≡ false → insert_by le x (n ∷ ys) ≡ n ∷ insert_by le x ys
  unfolding insert_by
  insert_by-after x n ys h = rw h

  pub order_by-first :
      (n : A) (xs : List A)
      → All (λ x. le x n ≡ false) xs
      → order_by le (xs ++ n ∷ []) ≡ n ∷ order_by le xs
  unfolding order_by
  order_by-first n [] h = refl
  order_by-first n (x ∷ xs) h =
      rw (order_by-first n xs h.1) (insert_by-after x n (order_by le xs) h.0)

  -- A row that no other comes after stays last.
  insert_by-before :
      (x n : A) (ys : List A)
      → le x n ≡ true
      → insert_by le x (ys ++ n ∷ []) ≡ insert_by le x ys ++ n ∷ []
  unfolding insert_by
  insert_by-before x n [] h = rw h
  insert_by-before x n (y ∷ ys) h = ground (arith, insert_by-before x n ys h)

  pub order_by-last :
      (n : A) (xs : List A)
      → All (λ x. le x n ≡ true) xs
      → order_by le (xs ++ n ∷ []) ≡ order_by le xs ++ n ∷ []
  unfolding order_by
  order_by-last n [] h = refl
  order_by-last n (x ∷ xs) h =
      rw (order_by-last n xs h.1) (insert_by-before x n (order_by le xs) h.0)

-- A comparison that ORDER BY can sort by.
pub record IsOrder {A : Type 0} (le : A → A → Bool) : Type 0 where
  pub total : (a b : A) → le a b ≡ false → le b a ≡ true
  pub trans : (a b c : A) → le a b ≡ true → le b c ≡ true → le a c ≡ true

module _ {A : Type 0} (le : A → A → Bool) (order : IsOrder le) where
  All-le_trans :
      (x y : A) (ys : List A)
      → le x y ≡ true
      → All (λ z. le y z ≡ true) ys
      → All (λ z. le x z ≡ true) ys
  All-le_trans x y [] h all = tt
  All-le_trans x y (z ∷ ys) h all = (order.trans x y z h all.0, All-le_trans x y ys h all.1)

  All-le-insert :
      (x y : A) (ys : List A)
      → le y x ≡ true
      → All (λ z. le y z ≡ true) ys
      → All (λ z. le y z ≡ true) (insert_by le x ys)
  unfolding insert_by
  All-le-insert x y [] h all = (h, tt)
  All-le-insert x y (z ∷ ys) h all =
      elim (le x z)
        as (λ b. All (λ w. le y w ≡ true) (if b then x ∷ z ∷ ys else z ∷ insert_by le x ys)) [
          | true ↦ (h, all)
          | false ↦ (all.0, All-le-insert x y ys h all.1)
        ]

  insert_by-Sorted : (x : A) (ys : List A) → Sorted le ys → Sorted le (insert_by le x ys)
  unfolding insert_by
  insert_by-Sorted x [] s = (tt, tt)
  insert_by-Sorted x (y ∷ ys) s = elim (Bool-cases (le x y)) [
    | inl h ↦ rw h ((h, All-le_trans x y ys h s.0), s)
    | inr h ↦ rw h (All-le-insert x y ys (order.total x y h) s.0, insert_by-Sorted x ys s.1)
  ]

  pub order_by-Sorted : (xs : List A) → Sorted le (order_by le xs)
  unfolding order_by
  order_by-Sorted [] = tt
  order_by-Sorted (x ∷ xs) = insert_by-Sorted x (order_by le xs) (order_by-Sorted xs)
