-- ===== src/Store/Ranking/Keys.antt =====
-- ORDER BY keeps the ids of a table, and no id comes twice.
use xdev.Prelude.{
  ℕ, ◌≡◌, refl, ◌∙◌, inl, inr, Bool, false, ◌||◌, List, [], ◌∷◌, map, arith, Bool-cases, ◌==◌,
}
use xdev.Store.Ranking.{member, Distinct}
use xdev.Store.Table.{order_by, insert_by}

module _ {R : Type 0} (ident : R → ℕ) where
  -- ORDER BY keeps the ids of a table.
  member-insert :
      (le : R → R → Bool) (a : ℕ) (r : R) (rows : List R)
      → member a (map ident (insert_by le r rows)) ≡ ((a == ident r) || member a (map ident rows))
  unfolding insert_by member
  member-insert le a r [] = refl
  member-insert le a r (s ∷ rows) = ground (arith, member-insert le a r rows)

  pub member-order :
      (le : R → R → Bool) (a : ℕ) (rows : List R)
      → member a (map ident (order_by le rows)) ≡ member a (map ident rows)
  unfolding order_by member
  member-order le a [] = refl
  member-order le a (r ∷ rows) =
      ground (arith, member-insert le a r (order_by le rows), member-order le a rows)

  Distinct-insert :
      (le : R → R → Bool) (r : R) (rows : List R)
      → member (ident r) (map ident rows) ≡ false
      → Distinct (map ident rows)
      → Distinct (map ident (insert_by le r rows))
  unfolding insert_by
  Distinct-insert le r [] h d = (h, d)
  Distinct-insert le r (s ∷ rows) h d = elim (Bool-cases (le r s)) [
    | inl e ↦ rw e (h, d)
    | inr e ↦ rw e (
      member-insert le (ident s) r rows ∙ unfold member in ground arith,
      Distinct-insert le r rows (unfold member in ground arith) d.1,
    )
  ]

  pub Distinct-order :
      (le : R → R → Bool) (rows : List R)
      → Distinct (map ident rows)
      → Distinct (map ident (order_by le rows))
  unfolding order_by
  Distinct-order le [] d = tt
  Distinct-order le (r ∷ rows) d =
      Distinct-insert le r (order_by le rows) (member-order le (ident r) rows ∙ d.0)
        (Distinct-order le rows d.1)
