-- ===== src/Store/Ranking.antt =====
-- The hand-arranged order of rows: the check of a submitted list of ids, and the renumbering.
-- It serves SetProjectOrder and SetAppOrder alike: `ident`, `place` and `move` are the id column,
-- the position column and the UPDATE of the position.
pub mod Cover
pub mod Renumber
pub mod Keys
pub mod Arranged
pub mod Accepts
use xdev.Prelude.Int.{ℤ, pos}
use xdev.Store.Table.{update_where}
use xdev.Prelude.{
  suc, ◌&&◌, ℕ, ◌≡◌, Bool, true, false, not, ◌||◌, Option, none, some, List, [], ◌∷◌, arith,
  if◌then◌else◌, ◌==◌, length, In,
}

-- current[id], seen[id]
unfoldable pub member : ℕ → List ℕ → Bool
member a [] = false
member a (x ∷ xs) = (a == x) || member a xs

-- Why a list of ids is refused.
pub data Refusal : Type 0 where
  wrong_length not_current listed_twice : Refusal

-- The loop over the submitted ids; `seen` is the set of those before.
unfoldable pub check_ids : List ℕ → List ℕ → List ℕ → Option Refusal
unfolding member
check_ids current seen [] = none
check_ids current seen (id ∷ ids) =
    let rest = check_ids current (id ∷ seen) ids in
    if not (member id current)
    then some not_current
    else if member id seen
    then some listed_twice
    else rest

unfoldable pub check_order : List ℕ → List ℕ → Option Refusal
unfolding check_ids
check_order current ids =
    if not (length ids == length current) then some wrong_length else check_ids current [] ids

pub member-In : (a : ℕ) (xs : List ℕ) → member a xs ≡ true → In a xs
unfolding member
member-In a [] h = cc
member-In a (x ∷ xs) h = ground (arith, member-In a xs)

pub In-member : (a : ℕ) (xs : List ℕ) → In a xs → member a xs ≡ true
unfolding member
In-member a [] h = elim h [ ]
In-member a (x ∷ xs) h = ground (arith, In-member a xs)

-- No id twice.
abbrev pub Distinct : List ℕ → Type 0
Distinct [] = Unit
Distinct (x ∷ xs) = (member x xs ≡ false) × Distinct xs

-- A list of ids that arranges `current`: each id once, and no other.
pub record Arranges (current ids : List ℕ) : Type 0 where
  pub same_length : length ids ≡ length current
  pub distinct : Distinct ids
  pub known : (a : ℕ) → member a ids ≡ true → member a current ≡ true

check_ids-known :
    (current seen ids : List ℕ) (a : ℕ)
    → check_ids current seen ids ≡ none
    → member a ids ≡ true
    → (member a current ≡ true) × (member a seen ≡ false)
unfolding check_ids member
check_ids-known current seen [] a h m = cc
check_ids-known current seen (id ∷ ids) a h m =
    ground (arith, check_ids-known current (id ∷ seen) ids a)

check_ids-Distinct : (current seen ids : List ℕ) → check_ids current seen ids ≡ none → Distinct ids
unfolding check_ids
check_ids-Distinct current seen [] h = tt
check_ids-Distinct current seen (id ∷ ids) h = (
  unfold member in ground (arith, check_ids-known current (id ∷ seen) ids id),
  check_ids-Distinct current (id ∷ seen) ids (ground arith),
)

pub check_order-Arranges :
    (current ids : List ℕ) → check_order current ids ≡ none → Arranges current ids
unfolding check_order
check_order-Arranges current ids h = record {
  same_length = ground arith;
  distinct = check_ids-Distinct current [] ids (ground arith);
  known = λ a m. (check_ids-known current [] ids a (ground arith) m).0;
}

-- A table with an id and a position; `scope` picks the rows that are arranged together.
pub record Ranked (R : Type 0) : Type 0 where
  pub ident : R → ℕ
  pub place : R → ℤ
  pub move : ℤ → R → R
  pub scope : R → Bool
  pub ident-move : (p : ℤ) (r : R) → ident (move p r) ≡ ident r
  pub place-move : (p : ℤ) (r : R) → place (move p r) ≡ p
  pub scope-move : (p : ℤ) (r : R) → scope (move p r) ≡ scope r

-- for i, id := range ids { UPDATE … SET position = i+1 WHERE id = id }, from position `i`.
unfoldable pub renumber : {R : Type 0} → Ranked R → ℕ → List ℕ → List R → List R
unfolding update_where
renumber t i [] rows = rows
renumber t i (id ∷ ids) rows =
    renumber t (suc i) ids
      (update_where (λ r. (t.ident r == id) && t.scope r) (t.move (pos i)) rows)
