-- ===== src/Jobs/Progress.antt =====
-- What the progress of a job shows.
use xdev.Prelude.{
  ℕ, ◌≡◌, ◌≢◌, refl, false, not, List, [], ◌∷◌, some, arith, Text, text_eq, text_eq_refl,
  text_eq_sound, find, filter,
}
use xdev.Store.Steps.{DeployStep}
use xdev.Jobs.{Job, Registry, open_step, set_step, step, stale, start, get}

set_step-twice :
    (name output : Text) (steps : List DeployStep)
    → set_step name output (set_step name [] steps) ≡ set_step name output steps
unfolding set_step open_step
set_step-twice name output [] = ground (arith, text_eq_refl name)
set_step-twice name output (s ∷ steps) = ground (arith, set_step-twice name output steps)

-- Announcing a step and then reporting its output leaves the same steps as reporting it at once: a
-- long step never shows up twice.
pub step-announced :
    (then now : ℕ) (name output : Text) (j : Job)
    → step now name output (step then name [] j) ≡ step now name output j
unfolding step
step-announced then now name output j = rw (set_step-twice name output j.steps) refl

find-kept :
    (now : ℕ) (id other : Text) (e : Text × Job) (m : Registry)
    → other ≢ id
    → find (λ e. text_eq e.0 other) m ≡ some e
    → stale now e ≡ false
    → find
        (λ e. text_eq e.0 other)
        (filter (λ e. not (text_eq e.0 id)) (filter (λ e. not (stale now e)) m))
      ≡ some e
unfolding find filter
find-kept now id other e [] ne h fresh = cc
find-kept now id other e (x ∷ m) ne h fresh =
    ground (arith, find-kept now id other e m ne, text_eq_sound x.0 other, text_eq_sound x.0 id)

-- A job that is running, or that finished no longer ago than the time to live, is still found after
-- another one has started.
pub start-get :
    (now : ℕ) (id other : Text) (e : Text × Job) (m : Registry)
    → other ≢ id
    → get other m ≡ some e
    → stale now e ≡ false
    → get other (start now id m) ≡ some e
unfolding get start find
start-get now id other e m ne h fresh =
    ground (arith, find-kept now id other e m ne h fresh, text_eq_sound id other)
