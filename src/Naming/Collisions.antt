-- ===== src/Naming/Collisions.antt =====
-- Unique ends with a free name, and with the first candidate that is free.
use mathlib.Core.List.{append_cancel_left}
use xdev.Prelude.{
  ℕ, zero, suc, ◌+◌, ◌≤◌, ◌<◌, ◌≡◌, ◌≢◌, refl, inl, inr, Bool, true, false, not, List, [], ◌∷◌,
  ◌++◌, some, arith, Bool-cases, length, In, filter, Text, text_eq, text_eq_sound, text_eq_complete,
  itoa,
}
use native.Mathlib.Decide.{dec_lt}
use xdev.Prelude.Decimal.{itoa-injective}
use xdev.Naming.{dash, unique_loop, slugify, unique}

abbrev pub candidate : Text → ℕ → Text
candidate base i = base ++ dash ∷ itoa i

candidate-injective : (base : Text) (i j : ℕ) → candidate base i ≡ candidate base j → i ≡ j
candidate-injective base i j e =
    itoa-injective i j (cc (append_cancel_left base (dash ∷ itoa i) (dash ∷ itoa j) e))

-- The names without one of them.
without : Text → List Text → List Text
unfolding filter
without t = filter (λ u. not (text_eq t u))

length-without-le : (t : Text) (us : List Text) → length (without t us) ≤ length us
unfolding without
length-without-le t [] = omega arith
length-without-le t (u ∷ us) = ground (arith, length-without-le t us)

without-shrinks : (t : Text) (us : List Text) → In t us → length (without t us) < length us
unfolding without
without-shrinks t [] m = elim m [ ]
without-shrinks t (u ∷ us) (inl e) = ground (arith, length-without-le t us, text_eq_complete t u e)
without-shrinks t (u ∷ us) (inr m) = ground (arith, without-shrinks t us m)

In-without : (t u : Text) (us : List Text) → t ≢ u → In u us → In u (without t us)
unfolding without
In-without t u [] ne m = elim m [ ]
In-without t u (v ∷ us) ne (inl e) = ground (arith, text_eq_sound t v)
In-without t u (v ∷ us) ne (inr m) = ground (arith, In-without t u us ne m)

-- The loop returns the first free candidate from `i` on.
pub record FirstFree (taken : Text → Bool) (base : Text) (i : ℕ) (t : Text) : Type 0 where
  pub index : ℕ
  pub from : i ≤ index
  pub is_candidate : t ≡ candidate base index
  pub free : taken t ≡ false
  pub before : (j : ℕ) → i ≤ j → j < index → taken (candidate base j) ≡ true

later :
    (taken : Text → Bool) (base : Text) (i : ℕ) (t : Text)
    → taken (candidate base i) ≡ true
    → FirstFree taken base (i + 1) t
    → FirstFree taken base i t
later taken base i t h r = record {
  index = r.index;
  from = omega (arith, r.from);
  is_candidate = r.is_candidate;
  free = r.free;
  before = λ j lo hi. elim (dec_lt i j) [
    | yes lt ↦ r.before j (omega arith) hi
    | no ge ↦ let e : j ≡ i = omega arith in rw e h
  ];
}

loop_finds :
    (f : ℕ) (taken : Text → Bool) (base : Text) (i : ℕ) (used : List Text)
    → ((j : ℕ) → i ≤ j → taken (candidate base j) ≡ true → In (candidate base j) used)
    → length used < f
    → (t : Text) × (unique_loop f taken base i ≡ some t) × FirstFree taken base i t
unfolding unique_loop
loop_finds zero taken base i used known fuel = absurd (omega arith)
loop_finds (suc f) taken base i used known fuel = elim (Bool-cases (taken (candidate base i))) [
  | inl busy ↦
      let rest = without (candidate base i) used in
      let (t, found, first) =
        loop_finds f taken base (i + 1) rest
          (λ j lo h.
            In-without (candidate base i) (candidate base j) used
              (λ e. absurd (omega (arith, candidate-injective base i j e)))
              (known j (omega arith) h))
          (omega (arith, without-shrinks (candidate base i) used (known i (omega arith) busy))) in
      (t, rw busy found, later taken base i t busy first)
  | inr open_slot ↦ (
    candidate base i,
    rw open_slot,
    record {
      index = i;
      from = omega arith;
      is_candidate = refl;
      free = open_slot;
      before = λ j lo hi. absurd (omega arith);
    },
  )
]

-- The name that Unique returns: the slug if it is free, else the first free candidate from -2 on.
pub data Chosen (taken : Text → Bool) (base : Text) (t : Text) : Type 0 where
  plain : taken base ≡ false → t ≡ base → Chosen taken base t
  numbered : taken base ≡ true → FirstFree taken base 2 t → Chosen taken base t

-- If only the names of a list are taken, fuel above its length is enough: Unique returns a name,
-- it is not taken, and it is the slug itself or the first free one of slug-2, slug-3, and so on.
pub unique-Chosen :
    (fuel : ℕ) (fold : ℕ → ℕ) (name : Text) (taken : Text → Bool) (used : List Text)
    → ((t : Text) → taken t ≡ true → In t used)
    → length used < fuel
    → (t : Text) × (unique fuel fold name taken ≡ some t)
      × (taken t ≡ false)
      × Chosen taken (slugify fold name) t
unfolding unique
unique-Chosen fuel fold name taken used known enough =
    elim (Bool-cases (taken (slugify fold name))) [
      | inl busy ↦
          let (t, found, first) =
            loop_finds fuel taken (slugify fold name) 2 used (λ j lo h. known _ h) enough in
          (t, rw busy found, first.free, Chosen.numbered busy first)
      | inr open_slot ↦ (slugify fold name, rw open_slot, open_slot, Chosen.plain open_slot refl)
    ]
