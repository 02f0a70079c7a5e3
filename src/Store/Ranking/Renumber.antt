-- ===== src/Store/Ranking/Renumber.antt =====
-- The loop of UPDATEs that saves an arrangement, and the order in which the rows then come out.
use xdev.Prelude.{
  ℕ, suc, ◌≤◌, ◌<◌, ◌≡◌, true, false, List, [], ◌∷◌, arith, if◌then◌else◌, ◌==◌, ==_iff, All,
}
use xdev.Store.Ranking.{member, Distinct}
use xdev.Store.Ranking.Cover.{Increasing}

-- The position that the loop gives to an id, counting from `i`.
unfoldable pub rank : ℕ → List ℕ → ℕ → ℕ
rank i [] x = i
rank i (y ∷ ys) x = let rest = rank (suc i) ys x in if x == y then i else rest

le-rank : (i : ℕ) (ys : List ℕ) (x : ℕ) → i ≤ rank i ys x
unfolding rank
le-rank i [] x = omega arith
le-rank i (y ∷ ys) x = ground (arith, le-rank (suc i) ys x)

Increasing-transfer :
    (f g : ℕ → ℕ) (ys : List ℕ)
    → ((x : ℕ) → member x ys ≡ true → f x ≡ g x)
    → Increasing g ys
    → Increasing f ys
unfolding member
Increasing-transfer f g [] h i = tt
Increasing-transfer f g (y ∷ ys) h i = (
  above ys i.0 (λ x m. h x (ground arith)),
  Increasing-transfer f g ys (λ x m. h x (ground arith)) i.1,
)
  where
    above :
        (zs : List ℕ)
        → All (λ z. g y < g z) zs
        → ((x : ℕ) → member x zs ≡ true → f x ≡ g x)
        → All (λ z. f y < f z) zs
    above [] a e = tt
    above (z ∷ zs) a e = (
      omega (arith, e z (ground arith), h y (ground arith)),
      above zs a.1 (λ x m. e x (ground arith)),
    )

All-rank :
    (i y : ℕ) (ys zs : List ℕ)
    → member y zs ≡ false
    → All (λ z. rank i (y ∷ ys) y < rank i (y ∷ ys) z) zs
unfolding rank member
All-rank i y ys [] d = tt
All-rank i y ys (z ∷ zs) d =
    (ground (arith, le-rank (suc i) ys z), All-rank i y ys zs (ground arith))

pub rank-Increasing : (i : ℕ) (ys : List ℕ) → Distinct ys → Increasing (rank i ys) ys
rank-Increasing i [] d = tt
rank-Increasing i (y ∷ ys) d = (
  All-rank i y ys ys d.0,
  Increasing-transfer (rank i (y ∷ ys)) (rank (suc i) ys) ys
      (λ x m. unfold rank in ground (arith, ==_iff x y)) (rank-Increasing (suc i) ys d.1),
)
