-- ===== src/AppService/Ports/Pick.antt =====
-- Which ports pickPorts picks, and which it leaves.
use xdev.Prelude.{
  ℕ, zero, suc, ◌+◌, ◌≤◌, ◌<◌, ◌≡◌, refl, ◌||◌, inl, inr, Bool, true, false, not, List, [], ◌∷◌,
  arith, Bool-cases, length, All,
}
use xdev.Store.Ranking.{member, Distinct}
use xdev.AppService.Ports.{pick_from}

-- What a picked port is, with the ports from `p` on open and `skip` closed.
pub record Pickable (lo hi : ℕ) (skip : List ℕ) (free : ℕ → Bool) (p : ℕ) : Type 0 where
  pub above : lo ≤ p
  pub below : p < hi
  pub unskipped : member p skip ≡ false
  pub is_free : free p ≡ true

Pickable-weaken :
    (lo hi q : ℕ) (skip : List ℕ) (free : ℕ → Bool) (ps : List ℕ)
    → All (Pickable (suc lo) hi (q ∷ skip) free) ps
    → All (Pickable lo hi skip free) ps
unfolding member
Pickable-weaken lo hi q skip free [] a = tt
Pickable-weaken lo hi q skip free (p ∷ ps) a = (
  record {
    above = omega (arith, a.0.above);
    below = a.0.below;
    unskipped = ground (arith, a.0.unskipped);
    is_free = a.0.is_free;
  },
  Pickable-weaken lo hi q skip free ps a.1,
)

Pickable-next :
    (lo hi : ℕ) (skip : List ℕ) (free : ℕ → Bool) (ps : List ℕ)
    → All (Pickable (suc lo) hi skip free) ps
    → All (Pickable lo hi skip free) ps
Pickable-next lo hi skip free [] a = tt
Pickable-next lo hi skip free (p ∷ ps) a = (
  record {
    above = omega (arith, a.0.above);
    below = a.0.below;
    unskipped = a.0.unskipped;
    is_free = a.0.is_free;
  },
  Pickable-next lo hi skip free ps a.1,
)

unpicked :
    (lo hi : ℕ) (skip : List ℕ) (free : ℕ → Bool) (q : ℕ) (ps : List ℕ)
    → q < lo
    → All (Pickable lo hi skip free) ps
    → member q ps ≡ false
unfolding member
unpicked lo hi skip free q [] h a = refl
unpicked lo hi skip free q (p ∷ ps) h a =
    ground (arith, a.0.above, unpicked lo hi skip free q ps h a.1)

pub pick_from-Pickable :
    (rounds p hi n : ℕ) (skip : List ℕ) (free : ℕ → Bool)
    → p + rounds ≤ hi
    → All (Pickable p hi skip free) (pick_from rounds p n skip free)
unfolding pick_from
pick_from-Pickable zero p hi n skip free h = tt
pick_from-Pickable (suc rounds) p hi zero skip free h = tt
pick_from-Pickable (suc rounds) p hi (suc n) skip free h =
    elim (Bool-cases (member p skip || not (free p))) [
      | inl passed ↦ rw passed (
          Pickable-next p hi skip free _
            (pick_from-Pickable rounds (suc p) hi (suc n) skip free (omega arith)))
      | inr picked ↦ rw picked (
        record {
          above = omega arith;
          below = omega arith;
          unskipped = ground arith;
          is_free = ground arith;
        },
        Pickable-weaken p hi p skip free _
            (pick_from-Pickable rounds (suc p) hi n (p ∷ skip) free (omega arith)),
      )
    ]

pub pick_from-Distinct :
    (rounds p n : ℕ) (skip : List ℕ) (free : ℕ → Bool) → Distinct (pick_from rounds p n skip free)
unfolding pick_from
pick_from-Distinct zero p n skip free = tt
pick_from-Distinct (suc rounds) p zero skip free = tt
pick_from-Distinct (suc rounds) p (suc n) skip free =
    elim (Bool-cases (member p skip || not (free p))) [
      | inl passed ↦ rw passed (pick_from-Distinct rounds (suc p) (suc n) skip free)
      | inr picked ↦ rw picked (
        unpicked (suc p) (suc p + rounds) (p ∷ skip) free p _ (omega arith)
            (pick_from-Pickable rounds (suc p) (suc p + rounds) n (p ∷ skip) free (omega arith)),
        pick_from-Distinct rounds (suc p) n (p ∷ skip) free,
      )
    ]

pub length-pick_from-le :
    (rounds p n : ℕ) (skip : List ℕ) (free : ℕ → Bool) → length (pick_from rounds p n skip free) ≤ n
unfolding pick_from
length-pick_from-le zero p n skip free = omega arith
length-pick_from-le (suc rounds) p zero skip free = omega arith
length-pick_from-le (suc rounds) p (suc n) skip free = ground (
  arith,
  length-pick_from-le rounds (suc p) (suc n) skip free,
  length-pick_from-le rounds (suc p) n (p ∷ skip) free,
)

-- Where fewer ports are picked than wanted, every port of the range is picked, skipped or busy.
pub pick_from_complete :
    (rounds p n : ℕ) (skip : List ℕ) (free : ℕ → Bool) (q : ℕ)
    → length (pick_from rounds p n skip free) < n
    → p ≤ q
    → q < p + rounds
    → (member q (pick_from rounds p n skip free) || member q skip || not (free q)) ≡ true
unfolding pick_from member
pick_from_complete zero p n skip free q short lo hi = absurd (omega arith)
pick_from_complete (suc rounds) p zero skip free q short lo hi = absurd (omega arith)
pick_from_complete (suc rounds) p (suc n) skip free q short lo hi = ground (
  arith,
  pick_from_complete rounds (suc p) (suc n) skip free q,
  pick_from_complete rounds (suc p) n (p ∷ skip) free q,
)
