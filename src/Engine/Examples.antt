-- ===== src/Engine/Examples.antt =====
-- Runs of internal/runtime/selector.go.
use xdev.Prelude.{◌≡◌, ◌⊎◌, true, false, In}
use xdev.Prelude.Result.{ok, err}
use xdev.Engine.{Selector, SetError, podman, docker, usable_engines, set_engine}
use xdev.Engine.Choice.{set_engine-usable}

abbrev selector : Selector
selector = record {
  current = podman;
  info = record {
    default = podman;
    podman_status = record { installed = true; compose_ok = true };
    docker_status = record { installed = true; compose_ok = false };
  };
}

set_engine-usable_example :
    (In docker (usable_engines selector)
      × (set_engine docker selector ≡ (ok tt, record selector { current = docker })))
    ⊎ ((¬ In docker (usable_engines selector))
        × (why : SetError) × (set_engine docker selector ≡ (err why, selector)))
set_engine-usable_example = set_engine-usable docker selector
