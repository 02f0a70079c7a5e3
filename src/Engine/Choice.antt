-- ===== src/Engine/Choice.antt =====
-- Which engines can be chosen.
use xdev.Prelude.{
  ◌≡◌, ◌⊎◌, inl, inr, refl, Bool-cases, true, arith, In, Text, text_eq_sound, text_eq_refl,
}
use xdev.Prelude.Result.{ok, err}
use xdev.Engine.{Selector, SetError, podman, docker, is_engine, usable, usable_engines, set_engine}

usable-In :
    (e : Text) (s : Selector) → is_engine e ≡ true → usable s e ≡ true → In e (usable_engines s)
unfolding is_engine usable_engines
usable-In e s known h = ground (arith, text_eq_sound e podman, text_eq_sound e docker)

In-usable :
    (e : Text) (s : Selector) → In e (usable_engines s) → (is_engine e ≡ true) × (usable s e ≡ true)
unfolding is_engine usable_engines
In-usable e s m = ground (arith, text_eq_refl podman, text_eq_refl docker)

-- Set switches to an engine exactly if UsableEngines lists it; otherwise it is refused and the
-- engine in use stays.
pub set_engine-usable :
    (e : Text) (s : Selector)
    → (In e (usable_engines s) × (set_engine e s ≡ (ok tt, record s { current = e })))
      ⊎ ((¬ In e (usable_engines s)) × (why : SetError) × (set_engine e s ≡ (err why, s)))
unfolding set_engine
set_engine-usable e s = elim (Bool-cases (is_engine e)) [
  | inr unknown ↦
      inr ((λ m. cc (unknown, (In-usable e s m).0)), SetError.unknown_engine, rw unknown refl)
  | inl known ↦ elim (Bool-cases (usable s e)) [
    | inl works ↦ inl (usable-In e s known works, rw (known, works) refl)
    | inr broken ↦
        inr ((λ m. cc (broken, (In-usable e s m).1)), SetError.not_usable, rw (known, broken) refl)
  ]
]
