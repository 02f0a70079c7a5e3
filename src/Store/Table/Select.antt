-- ===== src/Store/Table/Select.antt =====
-- SELECT … WHERE p ORDER BY: selecting and sorting commute.
use xdev.Prelude.{
  ◌≡◌, refl, sym, ◌∙◌, inl, inr, Bool, true, List, [], ◌∷◌, Bool-cases, if◌then◌else◌, filter, All,
}
use xdev.Store.Table.{order_by, insert_by, Sorted, IsOrder, order_by-Sorted}

module _ {A : Type 0} (le : A → A → Bool) (order : IsOrder le) where
  -- A row before all of a list is inserted in front.
  insert_front : (x : A) (ys : List A) → All (λ y. le x y ≡ true) ys → insert_by le x ys ≡ x ∷ ys
  unfolding insert_by
  insert_front x [] h = refl
  insert_front x (y ∷ ys) h = rw h.0

  below :
      (p : A → Bool) (x y : A) (ys : List A)
      → le x y ≡ true
      → All (λ z. le y z ≡ true) ys
      → All (λ z. le x z ≡ true) (filter p ys)
  unfolding filter
  below p x y [] h a = tt
  below p x y (z ∷ ys) h a = elim (Bool-cases (p z)) [
    | inl e ↦ rw e (order.trans x y z h a.0, below p x y ys h a.1)
    | inr e ↦ rw e (below p x y ys h a.1)
  ]

  filter-insert_by :
      (p : A → Bool) (x : A) (ys : List A)
      → Sorted le ys
      → filter p (insert_by le x ys) ≡ (if p x then insert_by le x (filter p ys) else filter p ys)
  unfolding insert_by filter
  filter-insert_by p x [] s = refl
  filter-insert_by p x (y ∷ ys) s = elim (Bool-cases (le x y)) [
    | inl h ↦ elim (Bool-cases (p x)) [
      | inr out ↦ rw (h, out)
      | inl kept ↦ elim (Bool-cases (p y)) [
        | inl yk ↦ rw (h, kept, yk) (rw h)
        | inr yo ↦ rw (h, kept, yo) (sym (insert_front x (filter p ys) (below p x y ys h s.0)))
      ]
    ]
    | inr h ↦ elim (Bool-cases (p y)) [
      | inl yk ↦ elim (Bool-cases (p x)) [
        | inl kept ↦ rw (h, yk, filter-insert_by p x ys s.1, kept) (rw h)
        | inr out ↦ rw (h, yk, filter-insert_by p x ys s.1, out)
      ]
      | inr yo ↦ rw (h, yo, filter-insert_by p x ys s.1)
    ]
  ]

  pub filter-order_by :
      (p : A → Bool) (xs : List A) → filter p (order_by le xs) ≡ order_by le (filter p xs)
  unfolding order_by filter
  filter-order_by p [] = refl
  filter-order_by p (x ∷ xs) = elim (Bool-cases (p x)) [
    | inl h ↦
        filter-insert_by p x (order_by le xs) (order_by-Sorted le order xs)
        ∙ rw (h, filter-order_by p xs)
    | inr h ↦
        filter-insert_by p x (order_by le xs) (order_by-Sorted le order xs)
        ∙ rw (h, filter-order_by p xs)
  ]
