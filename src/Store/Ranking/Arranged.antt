-- ===== src/Store/Ranking/Arranged.antt =====
-- After the renumbering, ORDER BY position brings the rows out in the submitted order.
use xdev.Prelude.{
  ℕ, suc, ◌≤◌, ◌≡◌, refl, ◌∙◌, inl, inr, Bool, true, false, ◌&&◌, List, [], ◌∷◌, map, arith,
  Bool-cases, if◌then◌else◌, ◌==◌, ==_iff, All, filter,
}
use xdev.Prelude.Int.{pos, ◌≤ℤ◌}
use xdev.Store.Table.{order_by, update_where, Sorted, IsOrder, order_by-Sorted, All-order_by}
use xdev.Store.Ranking.{member, Distinct, Arranges, Ranked, renumber}
use xdev.Store.Ranking.Keys.{member-order, Distinct-order}
use xdev.Store.Ranking.Cover.{Rising, align, covers}
use xdev.Store.Ranking.Renumber.{rank, rank-Increasing}

module _ {R : Type 0} (t : Ranked R) where
  open t use {ident, place, move, scope, ident-move, place-move, scope-move}

  -- What the loop does to one row.
  row_after : ℕ → List ℕ → R → R
  row_after i [] r = r
  row_after i (id ∷ ids) r =
      row_after (suc i) ids (if (ident r == id) && scope r then move (pos i) r else r)

  step_row : (i id : ℕ) → R → R
  step_row i id r = if (ident r == id) && scope r then move (pos i) r else r

  ident-step : (i id : ℕ) (r : R) → ident (step_row i id r) ≡ ident r
  unfolding step_row
  ident-step i id r = ground (arith, ident-move (pos i) r)

  scope-step : (i id : ℕ) (r : R) → scope (step_row i id r) ≡ scope r
  unfolding step_row
  scope-step i id r = ground (arith, scope-move (pos i) r)

  ident-row : (i : ℕ) (ids : List ℕ) (r : R) → ident (row_after i ids r) ≡ ident r
  unfolding row_after step_row
  ident-row i [] r = refl
  ident-row i (id ∷ ids) r = ident-row (suc i) ids (step_row i id r) ∙ ident-step i id r

  scope-row : (i : ℕ) (ids : List ℕ) (r : R) → scope (row_after i ids r) ≡ scope r
  unfolding row_after step_row
  scope-row i [] r = refl
  scope-row i (id ∷ ids) r = scope-row (suc i) ids (step_row i id r) ∙ scope-step i id r

  place_untouched :
      (i : ℕ) (ids : List ℕ) (r : R)
      → member (ident r) ids ≡ false
      → place (row_after i ids r) ≡ place r
  unfolding row_after member
  place_untouched i [] r h = refl
  place_untouched i (id ∷ ids) r h = ground (arith, place_untouched (suc i) ids r)

  place-row :
      (i : ℕ) (ids : List ℕ) (r : R)
      → scope r ≡ true
      → Distinct ids
      → member (ident r) ids ≡ true
      → place (row_after i ids r) ≡ pos (rank i ids (ident r))
  unfolding row_after member rank
  place-row i [] r s d h = absurd (cc)
  place-row i (id ∷ ids) r s d h = elim (Bool-cases (ident r == id)) [
    | inl e ↦
        let same : ident r ≡ id = (==_iff (ident r) id).0 e in
        let gone : member (ident r) ids ≡ false = rw same d.0 in
        rw (e, s)
          (place_untouched (suc i) ids (move (pos i) r) (rw ident-move gone) ∙ place-move (pos i) r)
    | inr ne ↦ rw ne (place-row (suc i) ids r s d.1 (ground arith))
  ]

  renumber-rows :
      (i : ℕ) (ids : List ℕ) (rows : List R) → renumber t i ids rows ≡ map (row_after i ids) rows
  unfolding renumber row_after
  renumber-rows i [] [] = refl
  renumber-rows i [] (r ∷ rows) = rw (← renumber-rows i [] rows)
  renumber-rows i (id ∷ ids) rows = renumber-rows (suc i) ids _ ∙ map-update rows
    where
      map-update :
          (rs : List R)
          → map
              (row_after (suc i) ids)
              (update_where (λ r. (ident r == id) && scope r) (move (pos i)) rs)
            ≡ map (row_after i (id ∷ ids)) rs
      map-update [] = refl
      map-update (r ∷ rs) = rw (map-update rs)

  filter-rows :
      (i : ℕ) (ids : List ℕ) (rows : List R)
      → filter scope (map (row_after i ids) rows) ≡ map (row_after i ids) (filter scope rows)
  unfolding filter
  filter-rows i ids [] = refl
  filter-rows i ids (r ∷ rows) = elim (Bool-cases (scope r)) [
    | inl h ↦ rw (scope-row i ids r, h) (rw (filter-rows i ids rows))
    | inr h ↦ rw (scope-row i ids r, h) (filter-rows i ids rows)
  ]

  map-ident :
      (i : ℕ) (ids : List ℕ) (rows : List R)
      → map ident (map (row_after i ids) rows) ≡ map ident rows
  map-ident i ids [] = refl
  map-ident i ids (r ∷ rows) = rw (ident-row i ids r, map-ident i ids rows)

  -- What an arranged row of the scope carries.
  abbrev Placed : List ℕ → R → Type 0
  Placed ids r = (place r ≡ pos (rank 1 ids (ident r))) × (member (ident r) ids ≡ true)

  Placed-rows :
      (ids : List ℕ) (rows : List R)
      → Distinct ids
      → ((a : ℕ) → member a (map ident (filter scope rows)) ≡ true → member a ids ≡ true)
      → All (Placed ids) (map (row_after 1 ids) (filter scope rows))
  unfolding filter member
  Placed-rows ids [] d known = tt
  Placed-rows ids (r ∷ rows) d known = elim (Bool-cases (scope r)) [
    | inr out ↦ rw out (Placed-rows ids rows d (λ a m. known a (rw out m)))
    | inl inside ↦
        let m : member (ident r) ids ≡ true = known (ident r) (rw inside (ground arith)) in
        rw inside (
          (rw (ident-row 1 ids r) (place-row 1 ids r inside d m), rw (ident-row 1 ids r) m),
          Placed-rows ids rows d (λ a n. known a (rw inside (ground arith))),
        )
  ]

  Sorted-Rising :
      (le : R → R → Bool) (ids : List ℕ) (rows : List R)
      → ((a b : R) → le a b ≡ true → place a ≤ℤ place b)
      → All (Placed ids) rows
      → Sorted le rows
      → Rising (rank 1 ids) (map ident rows)
  Sorted-Rising le ids [] mono p s = tt
  Sorted-Rising le ids (r ∷ rows) mono p s =
      (above rows p.1 s.0, Sorted-Rising le ids rows mono p.1 s.1)
    where
      above :
          (qs : List R)
          → All (Placed ids) qs
          → All (λ y. le r y ≡ true) qs
          → All (λ y. rank 1 ids (ident r) ≤ rank 1 ids y) (map ident qs)
      above [] pq sq = tt
      above (q ∷ qs) pq sq = (ground (arith, mono r q sq.0), above qs pq.1 sq.1)

  -- Reading the scope in ORDER BY order after the renumbering gives the submitted ids.
  pub renumber-order :
      (le : R → R → Bool) (ids : List ℕ) (rows : List R)
      → IsOrder le
      → ((a b : R) → le a b ≡ true → place a ≤ℤ place b)
      → Distinct (map ident (filter scope rows))
      → Arranges (map ident (filter scope rows)) ids
      → map ident (order_by le (filter scope (renumber t 1 ids rows))) ≡ ids
  renumber-order le ids rows order mono pk a =
      let known = covers ids (map ident (filter scope rows)) a.distinct a.same_length a.known in
      let rows' = map (row_after 1 ids) (filter scope rows) in
      let placed = Placed-rows ids rows a.distinct known in
      let sorted = order_by-Sorted le order rows' in
      rw (renumber-rows 1 ids rows, filter-rows 1 ids rows)
        (align (rank 1 ids) (map ident (order_by le rows')) ids
          (Sorted-Rising le ids (order_by le rows') mono (All-order_by le (Placed ids) rows' placed)
            sorted)
          (Distinct-order ident le rows' (rw (map-ident 1 ids (filter scope rows)) pk))
          (rank-Increasing 1 ids a.distinct)
          (λ x.
            member-order ident le x rows'
            ∙ rw (map-ident 1 ids (filter scope rows)) (agree x known)))
    where
      agree :
          (x : ℕ)
          → ((y : ℕ) → member y (map ident (filter scope rows)) ≡ true → member y ids ≡ true)
          → member x (map ident (filter scope rows)) ≡ member x ids
      agree x known = ground (arith, known x, a.known x)
