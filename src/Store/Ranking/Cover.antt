-- ===== src/Store/Ranking/Cover.antt =====
-- Lists of ids: a list that arranges another holds all of it, and an increasing list is determined
-- by its members.
use xdev.Prelude.{
  ℕ, suc, ◌≤◌, ◌<◌, ◌≡◌, ◌≢◌, refl, sym, ap, ◌∙◌, inl, inr, true, false, List, [], ◌∷◌, arith,
  Bool-cases, if◌then◌else◌, ◌==◌, ==_iff, length, All,
}
use xdev.Store.Ranking.{member, Distinct}

remove : ℕ → List ℕ → List ℕ
remove a [] = []
remove a (x ∷ xs) = let rest = remove a xs in if a == x then xs else x ∷ rest

length-remove : (a : ℕ) (xs : List ℕ) → member a xs ≡ true → suc (length (remove a xs)) ≡ length xs
unfolding remove member
length-remove a [] h = cc
length-remove a (x ∷ xs) h = ground (arith, length-remove a xs)

member-remove : (a b : ℕ) (xs : List ℕ) → a ≢ b → member b (remove a xs) ≡ member b xs
unfolding remove member
member-remove a b [] h = refl
member-remove a b (x ∷ xs) h = ground (arith, member-remove a b xs h)

pub covers :
    (ids current : List ℕ)
    → Distinct ids
    → length ids ≡ length current
    → ((a : ℕ) → member a ids ≡ true → member a current ≡ true)
    → (a : ℕ) → member a current ≡ true
    → member a ids ≡ true
unfolding member
covers [] [] d len known a m = cc
covers [] (y ∷ current) d len known a m = absurd (omega arith)
covers (x ∷ ids) current d len known a m =
    let x_known : member x current ≡ true = known x (ground arith) in
    elim (Bool-cases (a == x)) [
      | inl e ↦ rw e
      | inr ne ↦
          let ne' : x ≢ a = ground arith in
          let found =
            covers ids (remove x current) d.1 (omega (arith, length-remove x current x_known))
              (λ b mb.
                let away : x ≢ b = (λ e. cc (e, mb, d.0)) in
                member-remove x b current away ∙ known b (ground arith))
              a (member-remove x a current ne' ∙ m) in
          rw (ne, found)
    ]

module _ (f : ℕ → ℕ) where
  abbrev pub Increasing : List ℕ → Type 0
  Increasing [] = Unit
  Increasing (x ∷ xs) = All (λ y. f x < f y) xs × Increasing xs

  abbrev pub Rising : List ℕ → Type 0
  Rising [] = Unit
  Rising (x ∷ xs) = All (λ y. f x ≤ f y) xs × Rising xs

pub All-member : (P : ℕ → Type 0) (a : ℕ) (xs : List ℕ) → All P xs → member a xs ≡ true → P a
unfolding member
All-member P a [] h m = absurd (cc)
All-member P a (x ∷ xs) h m = elim (Bool-cases (a == x)) [
  | inl e ↦ let same : a ≡ x = (==_iff a x).0 e in rw same h.0
  | inr ne ↦ All-member P a xs h.1 (ground arith)
]

same_head :
    (f : ℕ → ℕ) (x y : ℕ) (xs ys : List ℕ)
    → Rising f (x ∷ xs)
    → Increasing f (y ∷ ys)
    → member x (y ∷ ys) ≡ true
    → member y (x ∷ xs) ≡ true
    → x ≡ y
unfolding member
same_head f x y xs ys r i mx my = elim (Bool-cases (x == y)) [
  | inl e ↦ (==_iff x y).0 e
  | inr ne ↦
      let lt = All-member (λ z. f y < f z) x ys i.0 (ground arith) in
      let le = All-member (λ z. f x ≤ f z) y xs r.0 (ground arith) in absurd (omega arith)
]

member_self : (x : ℕ) (xs : List ℕ) → member x (x ∷ xs) ≡ true
unfolding member
member_self x xs = ground arith

not_member_above : (f : ℕ → ℕ) (x : ℕ) (xs : List ℕ) → All (λ y. f x < f y) xs → member x xs ≡ false
not_member_above f x xs h = elim (Bool-cases (member x xs)) [
  | inl m ↦ absurd (omega (arith, All-member (λ y. f x < f y) x xs h m))
  | inr m ↦ m
]

same_tail :
    (x a : ℕ) (xs ys : List ℕ)
    → member x xs ≡ false
    → member x ys ≡ false
    → member a (x ∷ xs) ≡ member a (x ∷ ys)
    → member a xs ≡ member a ys
unfolding member
same_tail x a xs ys hx hy h = elim (Bool-cases (a == x)) [
  | inl e ↦ let same : a ≡ x = (==_iff a x).0 e in rw same (hx ∙ sym hy)
  | inr ne ↦ ground arith
]

-- A rising list without repetition that has the members of an increasing list is that list.
pub align :
    (f : ℕ → ℕ) (xs ys : List ℕ)
    → Rising f xs
    → Distinct xs
    → Increasing f ys
    → ((a : ℕ) → member a xs ≡ member a ys)
    → xs ≡ ys
align f [] [] r d i same = refl
align f [] (y ∷ ys) r d i same = unfold member in cc (same y, member_self y ys)
align f (x ∷ xs) [] r d i same = unfold member in cc (same x, member_self x xs)
align f (x ∷ xs) (y ∷ ys) r d i same =
    let e : x ≡ y =
      same_head f x y xs ys r i (sym (same x) ∙ member_self x xs) (same y ∙ member_self y ys) in
    let away : member x ys ≡ false = rw e (not_member_above f y ys i.0) in
    let tails =
      align f xs ys r.1 d.1 i.1
        (λ a. same_tail x a xs ys d.0 away (same a ∙ ap (λ z. member a (z ∷ ys)) (sym e))) in
    cc
