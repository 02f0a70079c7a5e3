-- ===== src/Store/Ranking/Accepts.antt =====
-- The check of a submitted list accepts exactly the arrangements.
use xdev.Prelude.{ℕ, ◌≡◌, refl, ◌↔◌, true, false, none, List, [], ◌∷◌, arith, ==_iff}
use xdev.Store.Ranking.{member, check_ids, check_order, Distinct, Arranges, check_order-Arranges}

Arranges-check_ids :
    (current seen ids : List ℕ)
    → Distinct ids
    → ((a : ℕ) → member a ids ≡ true → member a current ≡ true)
    → ((a : ℕ) → member a ids ≡ true → member a seen ≡ false)
    → check_ids current seen ids ≡ none
unfolding check_ids
Arranges-check_ids current seen [] d known fresh = refl
Arranges-check_ids current seen (id ∷ ids) d known fresh =
    let tail =
      Arranges-check_ids current (id ∷ seen) ids d.1 (λ a m. known a (in_tail a m))
        (λ a m. unseen a m (fresh a (in_tail a m))) in
    ground (arith, known id here, fresh id here)
  where
    here : member id (id ∷ ids) ≡ true
    here = unfold member in ground arith

    in_tail : (a : ℕ) → member a ids ≡ true → member a (id ∷ ids) ≡ true
    in_tail a m = unfold member in ground arith

    unseen : (a : ℕ) → member a ids ≡ true → member a seen ≡ false → member a (id ∷ seen) ≡ false
    unseen a m f = unfold member in ground (arith, d.0, ==_iff a id)

pub Arranges-check_order :
    (current ids : List ℕ) → Arranges current ids → check_order current ids ≡ none
unfolding check_order
Arranges-check_order current ids a = ground (
  arith,
  a.same_length,
  Arranges-check_ids current [] ids a.distinct a.known (λ x m. unfold member in refl),
)

pub check_order_iff :
    (current ids : List ℕ) → (check_order current ids ≡ none) ↔ Arranges current ids
check_order_iff current ids = (check_order-Arranges current ids, Arranges-check_order current ids)
