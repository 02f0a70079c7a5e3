-- ===== src/Jobs.antt =====
-- internal/server/jobs.go: progress of work that outlives its request. Each method holds the job's
-- or the registry's lock from start to end, so a method is one step; times are seconds.
pub mod Progress
mod Examples
use xdev.Prelude.{
  ℕ, ◌-◌, ◌&&◌, Bool, true, false, not, List, [], ◌∷◌, Option, ltb, if◌then◌else◌, is_empty, Text,
  text_eq, filter, find,
}
use xdev.Store.Steps.{DeployStep, fail_last}

abbrev pub job_ttl : ℕ
job_ttl = 600

pub record Job : Type 0 where
  pub steps : List DeployStep
  pub done : Bool
  pub error : Text
  pub redirect : Text
  pub touched : ℕ

-- A step that was announced, with no output yet.
unfoldable pub open_step : Text → DeployStep → Bool
open_step name s = text_eq s.name name && is_empty s.output

-- The first open step of the name gets the output; where there is none, a step is added.
unfoldable pub set_step : Text → Text → List DeployStep → List DeployStep
set_step name output [] = record { name = name; output = output; failed = false } ∷ []
set_step name output (s ∷ steps) =
    let rest = set_step name output steps in
    if open_step name s then record s { output = output } ∷ steps else s ∷ rest

unfoldable pub step : ℕ → Text → Text → Job → Job
step now name output j = record j { steps = set_step name output j.steps; touched = now }

unfoldable pub finish : ℕ → Text → Text → Job → Job
finish now message redirect j = record j {
  steps = if is_empty message then j.steps else fail_last j.steps;
  done = true;
  error = message;
  redirect = redirect;
  touched = now;
}

abbrev pub Registry : Type 0
Registry = List (Text × Job)

unfoldable pub stale : ℕ → Text × Job → Bool
stale now e = e.1.done && ltb job_ttl (now - e.1.touched)

-- `start` with the random id that it drew: the sweep, then the entry (which replaces one of its id).
unfoldable pub start : ℕ → Text → Registry → Registry
start now id m =
    (id, record { steps = []; done = false; error = []; redirect = []; touched = now })
    ∷ filter (λ e. not (text_eq e.0 id)) (filter (λ e. not (stale now e)) m)

unfoldable pub get : Text → Registry → Option (Text × Job)
get id m = find (λ e. text_eq e.0 id) m
