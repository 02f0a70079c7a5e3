-- ===== src/Engine.antt =====
-- internal/runtime/selector.go: the container engine in use.
pub mod Choice
mod Examples
use xdev.Prelude.{
  ℕ, ◌+◌, ◌&&◌, Bool, true, false, not, List, [], ◌∷◌, ◌++◌, Option, none, some, if◌then◌else◌,
  ◌||◌, is_empty, Text, codes, text_eq, split, trim_space,
}
use xdev.Prelude.Result.{Result, ok, err}

abbrev pub podman : Text
podman = codes "podman"

abbrev pub docker : Text
docker = codes "docker"

pub record EngineStatus : Type 0 where
  pub installed : Bool
  pub compose_ok : Bool

pub record Info : Type 0 where
  pub default : Text
  pub podman_status : EngineStatus
  pub docker_status : EngineStatus

pub record Selector : Type 0 where
  pub current : Text
  pub info : Info

pub data SetError : Type 0 where
  unknown_engine not_usable : SetError

unfoldable pub is_engine : Text → Bool
is_engine e = text_eq e podman || text_eq e docker

unfoldable pub new_selector : Info → Text → Selector
new_selector info override = record {
  current = if is_engine override then override else info.default;
  info = info;
}

unfoldable pub status_of : Selector → Text → EngineStatus
status_of s e = if text_eq e docker then s.info.docker_status else s.info.podman_status

unfoldable pub usable : Selector → Text → Bool
usable s e = (status_of s e).installed && (status_of s e).compose_ok

unfoldable pub usable_engines : Selector → List Text
usable_engines s =
    (if usable s podman then podman ∷ [] else []) ++ (if usable s docker then docker ∷ [] else [])

unfoldable pub set_engine : Text → Selector → Result SetError (Unit {0}) × Selector
set_engine e s =
    if not (is_engine e)
    then (err unknown_engine, s)
    else if not (usable s e)
    then (err not_usable, s)
    else (ok tt, record s { current = e })

-- Lines that are not blank: one container each.
unfoldable pub count_from : List Text → ℕ
count_from [] = 0
count_from (line ∷ lines) = (if is_empty (trim_space line) then 0 else 1) + count_from lines

unfoldable pub count_lines : Text → ℕ
count_lines out = count_from (split 10 (trim_space out))

-- `ps` is what `<engine> ps -q` prints, or none where it fails.
unfoldable pub add_counts : (Text → Option Text) → List Text → ℕ → Bool → ℕ × Bool
add_counts ps [] total some_answer = (total, some_answer)
add_counts ps (e ∷ engines) total some_answer = elim (ps e) [
  | none ↦ add_counts ps engines total some_answer
  | some out ↦ add_counts ps engines (total + count_lines out) true
]

unfoldable pub running_containers : (Text → Option Text) → Selector → ℕ × Bool
running_containers ps s = add_counts ps (usable_engines s) 0 false
