-- ===== src/AppService/Ports/Alloc.antt =====
-- What allocPorts and appPorts promise of the ports they give out.
use xdev.Prelude.{
  ℕ, suc, ◌-◌, ◌≤◌, ◌<◌, ◌≡◌, refl, sym, ◌||◌, inl, inr, Bool, true, false, not, List, [], ◌∷◌,
  ◌++◌, none, arith, Bool-cases, Option-cases, length, All, ◌==◌, ltb, Text,
}
use xdev.Prelude.Int.{ℤ}
use xdev.Prelude.Result.{Result, ok, err}
use xdev.Store.Ranking.{member, Distinct}
use xdev.Store.Routes.{used_ports}
use xdev.Store.Schema.{Db}
use xdev.AppService.Ports.{
  pick_ports, port_min, port_max, alloc_ports, app_ports, with_chosen, check_chosen_port,
  valid_port, port_taken, PortError,
}
use xdev.AppService.Ports.Pick.{
  Pickable, pick_from-Pickable, pick_from-Distinct, length-pick_from-le, pick_from_complete,
}

-- A port that an app may serve on: in the range for users, in no row of the store, not
-- among those to avoid, and bindable.
pub record Usable (cast : Text → ℤ) (free : ℕ → Bool) (avoid : List ℕ) (db : Db) (p : ℕ)
    : Type 0 where
  pub above : 1024 ≤ p
  pub below : p ≤ 65535
  pub unused : member p (used_ports cast db) ≡ false
  pub unavoided : member p avoid ≡ false
  pub is_free : free p ≡ true

pub record Allotted (cast : Text → ℤ) (free : ℕ → Bool) (n : ℕ) (avoid : List ℕ) (db : Db)
    (ports : List ℕ) : Type 0 where
  pub exact : length ports ≡ n
  pub distinct : Distinct ports
  pub usable : All (Usable cast free avoid db) ports

member-append : (p : ℕ) (xs ys : List ℕ) → member p (xs ++ ys) ≡ (member p xs || member p ys)
unfolding member
member-append p [] ys = refl
member-append p (x ∷ xs) ys = ground (arith, member-append p xs ys)

Pickable-Usable :
    (cast : Text → ℤ) (free : ℕ → Bool) (avoid : List ℕ) (db : Db) (ps : List ℕ)
    → All (Pickable port_min (suc port_max) (used_ports cast db ++ avoid) free) ps
    → All (Usable cast free avoid db) ps
Pickable-Usable cast free avoid db [] a = tt
Pickable-Usable cast free avoid db (p ∷ ps) a = (
  record {
    above = omega (arith, a.0.above);
    below = omega (arith, a.0.below);
    unused = ground (arith, a.0.unskipped, member-append p (used_ports cast db) avoid);
    unavoided = ground (arith, a.0.unskipped, member-append p (used_ports cast db) avoid);
    is_free = a.0.is_free;
  },
  Pickable-Usable cast free avoid db ps a.1,
)

pick_ports-Distinct :
    (n : ℕ) (taken : List ℕ) (free : ℕ → Bool) → Distinct (pick_ports n taken free)
unfolding pick_ports
pick_ports-Distinct n taken free =
    pick_from-Distinct (suc port_max - port_min) port_min n taken free

pick_ports-Pickable :
    (n : ℕ) (taken : List ℕ) (free : ℕ → Bool)
    → All (Pickable port_min (suc port_max) taken free) (pick_ports n taken free)
unfolding pick_ports
pick_ports-Pickable n taken free =
    pick_from-Pickable (suc port_max - port_min) port_min (suc port_max) n taken free (omega arith)

length-pick_ports-le :
    (n : ℕ) (taken : List ℕ) (free : ℕ → Bool) → length (pick_ports n taken free) ≤ n
unfolding pick_ports
length-pick_ports-le n taken free =
    length-pick_from-le (suc port_max - port_min) port_min n taken free

-- What allocPorts returns is what pickPorts picked, enough of it.
alloc_ports-picks :
    (cast : Text → ℤ) (free : ℕ → Bool) (n : ℕ) (avoid : List ℕ) (db : Db) (ports : List ℕ)
    → alloc_ports cast free n avoid db ≡ ok ports
    → (pick_ports n (used_ports cast db ++ avoid) free ≡ ports)
      × (ltb (length (pick_ports n (used_ports cast db ++ avoid) free)) n ≡ false)
unfolding alloc_ports
alloc_ports-picks cast free n avoid db ports h =
    elim (Bool-cases (ltb (length (pick_ports n (used_ports cast db ++ avoid) free)) n)) [
      | inl short ↦ ground (arith, short, h)
      | inr enough ↦ ground (arith, enough, h)
    ]

pub alloc_ports-Allotted :
    (cast : Text → ℤ) (free : ℕ → Bool) (n : ℕ) (avoid : List ℕ) (db : Db) (ports : List ℕ)
    → alloc_ports cast free n avoid db ≡ ok ports
    → Allotted cast free n avoid db ports
alloc_ports-Allotted cast free n avoid db ports h =
    let taken = used_ports cast db ++ avoid in
    let picks = alloc_ports-picks cast free n avoid db ports h in
    rw (sym picks.0) record {
      exact = ground (arith, length-pick_ports-le n taken free, picks.1);
      distinct = pick_ports-Distinct n taken free;
      usable = Pickable-Usable cast free avoid db _ (pick_ports-Pickable n taken free);
    }

Usable-weaken :
    (cast : Text → ℤ) (free : ℕ → Bool) (avoid : List ℕ) (want : ℕ) (db : Db) (ps : List ℕ)
    → All (Usable cast free (avoid ++ want ∷ []) db) ps
    → All (Usable cast free avoid db) ps
Usable-weaken cast free avoid want db [] a = tt
Usable-weaken cast free avoid want db (p ∷ ps) a = (
  record {
    above = a.0.above;
    below = a.0.below;
    unused = a.0.unused;
    unavoided = ground (arith, a.0.unavoided, member-append p avoid (want ∷ []));
    is_free = a.0.is_free;
  },
  Usable-weaken cast free avoid want db ps a.1,
)

avoided-member :
    (cast : Text → ℤ) (free : ℕ → Bool) (avoid : List ℕ) (want : ℕ) (db : Db) (ps : List ℕ)
    → All (Usable cast free (avoid ++ want ∷ []) db) ps
    → member want ps ≡ false
unfolding member
avoided-member cast free avoid want db [] a = refl
avoided-member cast free avoid want db (p ∷ ps) a = ground (
  arith,
  a.0.unavoided,
  member-append p avoid (want ∷ []),
  avoided-member cast free avoid want db ps a.1,
)

-- A chosen port that passes the check is one an app may serve on.
check_chosen_port-Usable :
    (cast : Text → ℤ) (free : ℕ → Bool) (want : ℕ) (avoid : List ℕ) (db : Db)
    → check_chosen_port cast free want db ≡ none
    → member want avoid ≡ false
    → Usable cast free avoid db want
unfolding check_chosen_port valid_port port_taken member
check_chosen_port-Usable cast free want avoid db h m = record {
  above = ground (arith, h);
  below = ground (arith, h);
  unused = ground (arith, h);
  unavoided = m;
  is_free = ground (arith, h);
}

with_chosen-ok :
    (want : ℕ) (r : Result PortError (List ℕ)) (ports : List ℕ)
    → with_chosen want r ≡ ok ports
    → (rest : List ℕ) × (r ≡ ok rest) × (want ∷ rest ≡ ports)
unfolding with_chosen
with_chosen-ok want (ok rest) ports h = (rest, refl, ground (arith, h))
with_chosen-ok want (err e) ports h = absurd (ground (arith, h))

chosen-Allotted :
    (cast : Text → ℤ) (free : ℕ → Bool) (n want : ℕ) (avoid : List ℕ) (db : Db) (ports : List ℕ)
    → 1 ≤ n
    → Usable cast free avoid db want
    → with_chosen want (alloc_ports cast free (n - 1) (avoid ++ want ∷ []) db) ≡ ok ports
    → Allotted cast free n avoid db ports
chosen-Allotted cast free n want avoid db ports one u h =
    let split =
      with_chosen-ok want (alloc_ports cast free (n - 1) (avoid ++ want ∷ []) db) ports h in
    let rest = alloc_ports-Allotted cast free (n - 1) (avoid ++ want ∷ []) db split.0 split.1 in
    rw (sym split.2) record {
      exact = omega (arith, rest.exact);
      distinct = (avoided-member cast free avoid want db _ rest.usable, rest.distinct);
      usable = (u, Usable-weaken cast free avoid want db _ rest.usable);
    }

-- Where appPorts gives an app with at least one port its ports, it gives exactly as many as
-- asked for, pairwise different, each from 1024 to 65535, used by no row of the store,
-- outside the ports to avoid, and free on the host; whether the user chose the first or not.
pub app_ports-Allotted :
    (cast : Text → ℤ) (free : ℕ → Bool) (n want : ℕ) (avoid : List ℕ) (db : Db) (ports : List ℕ)
    → 1 ≤ n
    → app_ports cast free n want avoid db ≡ ok ports
    → Allotted cast free n avoid db ports
unfolding app_ports
app_ports-Allotted cast free n want avoid db ports one h = elim (Bool-cases (want == 0)) [
  | inl unset ↦ alloc_ports-Allotted cast free n avoid db ports (ground (arith, unset, h))
  | inr chosen ↦ elim (Option-cases (check_chosen_port cast free want db)) [
    | inl passed ↦ elim (Bool-cases (member want avoid)) [
      | inl avoided ↦ absurd (ground (arith, chosen, passed, avoided, h))
      | inr unavoided ↦
          chosen-Allotted cast free n want avoid db ports one
            (check_chosen_port-Usable cast free want avoid db passed unavoided)
            (ground (arith, chosen, passed, unavoided, h))
    ]
    | inr (e, refused) ↦ absurd (ground (arith, chosen, refused, h))
  ]
]

-- Where allocPorts refuses, the ports it picked are fewer than wanted, and every other port
-- from 20000 to 29999 is used by the store, to be avoided, or not free on the host.
pub alloc_ports-exhausted :
    (cast : Text → ℤ) (free : ℕ → Bool) (n : ℕ) (avoid : List ℕ) (db : Db) (e : PortError) (q : ℕ)
    → alloc_ports cast free n avoid db ≡ err e
    → port_min ≤ q
    → q ≤ port_max
    → (length (pick_ports n (used_ports cast db ++ avoid) free) < n)
      × ((member q (pick_ports n (used_ports cast db ++ avoid) free)
            || member q (used_ports cast db ++ avoid)
            || not (free q))
          ≡ true)
unfolding alloc_ports pick_ports
alloc_ports-exhausted cast free n avoid db e q h lo hi =
    elim (Bool-cases (ltb (length (pick_ports n (used_ports cast db ++ avoid) free)) n)) [
      | inl short ↦ (
        ground (arith, short),
        pick_from_complete (suc port_max - port_min) port_min n (used_ports cast db ++ avoid) free q
            (ground (arith, short)) lo (omega arith),
      )
      | inr enough ↦ absurd (ground (arith, enough, h))
    ]
