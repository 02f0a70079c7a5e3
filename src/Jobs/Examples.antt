-- ===== src/Jobs/Examples.antt =====
-- Runs of internal/server/jobs.go.
use xdev.Prelude.{
  ◌≡◌, ◌≢◌, refl, Bool, true, false, [], ◌∷◌, some, Text, codes, text_eq, text_eq_complete,
}
use xdev.Jobs.{Job, Registry, step, stale, get}
use xdev.Jobs.Progress.{step-announced}

abbrev fresh : Job
fresh = record { steps = []; done = false; error = []; redirect = []; touched = 5 }

abbrev running : Registry
running = (codes "a1", fresh) ∷ []

step-announced_example :
    step 9 (codes "build") (codes "done") (step 7 (codes "build") [] fresh)
    ≡ step 9 (codes "build") (codes "done") fresh
step-announced_example = step-announced 7 9 (codes "build") (codes "done") fresh

differ : codes "a1" ≢ codes "b2"
unfolding text_eq
differ e = cc (text_eq_complete (codes "a1") (codes "b2") e)

is_there : get (codes "a1") running ≡ some (codes "a1", fresh)
unfolding get xdev.Prelude.find text_eq
is_there = refl

is_fresh : stale 5000 (codes "a1", fresh) ≡ false
unfolding stale
is_fresh = refl
