-- ===== src/Store/Steps.antt =====
-- Deployment.Steps of internal/store/deployments.go: the log of a deploy as a list of steps.
use xdev.Prelude.{
  ℕ, Bool, true, false, List, [], ◌∷◌, ◌++◌, Option, none, some, ◌==◌, if◌then◌else◌, is_empty,
  Text, codes, text_eq, split, cut_prefix, trim_right, trim_space,
}
use xdev.Store.Schema.{Deployment}
use xdev.Store.Deployments.{deploy_failed}

pub record DeployStep : Type 0 where
  pub name : Text
  pub output : Text
  pub failed : Bool

abbrev pub newline : ℕ
newline = 10

-- The variables of the loop: the steps so far, the name of `cur`, if any, and `body`.
pub record Scan : Type 0 where
  pub steps : List DeployStep
  pub cur : Option Text
  pub body : Text

pub flush_steps : List DeployStep → Option Text → Text → List DeployStep
flush_steps steps none body = steps
flush_steps steps (some name) body =
    steps
    ++ record { name = name; output = trim_right (λ c. c == newline) body; failed = false } ∷ []

pub or_preamble : Option Text → Option Text
or_preamble none = some []
or_preamble (some name) = some name

-- One line of the log.
pub scan_line : Scan → Text → Scan
unfolding flush_steps or_preamble
scan_line s line = elim (cut_prefix line (codes "$ ")) [
  | some name ↦ record {
    steps = flush_steps s.steps s.cur s.body;
    cur = some (trim_space name);
    body = [];
  }
  | none ↦ record {
    steps = s.steps;
    cur = or_preamble s.cur;
    body = s.body ++ line ++ newline ∷ [];
  }
]

pub scan_lines : Scan → List Text → Scan
unfolding scan_line
scan_lines s [] = s
scan_lines s (line ∷ lines) = scan_lines (scan_line s line) lines

-- steps[len(steps)-1].Failed = true, where there is a step.
pub fail_last : List DeployStep → List DeployStep
fail_last [] = []
fail_last (s ∷ []) = record s { failed = true } ∷ []
fail_last (s ∷ t ∷ steps) = s ∷ fail_last (t ∷ steps)

unfoldable pub steps : Deployment → List DeployStep
unfolding scan_lines flush_steps fail_last
steps d =
    if is_empty (trim_space d.log)
    then []
    else let s = scan_lines (record { steps = []; cur = none; body = [] }) (split newline d.log) in
      let all_steps = flush_steps s.steps s.cur s.body in
      if text_eq d.status deploy_failed then fail_last all_steps else all_steps
