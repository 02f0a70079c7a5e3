-- ===== src/AppService/Deploys/Creation.antt =====
-- The first build of a container app, in Create of internal/apps/apps.go.
use xdev.Prelude.{ℕ, zero, suc, List, [], ◌∷◌, Option, none, some, Text, codes}
use xdev.Prelude.Result.{Result, ok, err}
use xdev.Store.Schema.{Db, App, StoreError}
use xdev.Store.Apps.{set_app_status}
use xdev.Store.Deployments.{deploy_ok, deploy_failed, finish_deployment}
use xdev.AppService.Deploys.{first_line, tail_log, app_error, Host, Report}

-- A first build of Create at work, with its row if the row could be made.
pub record FirstBuild : Type 0 where
  pub fresh : App
  pub row : Option ℕ

abbrev pub deploy_create : Text
deploy_create = codes "create"

unfoldable pub made_row : Result StoreError ℕ → Option ℕ
made_row (ok row) = some row
made_row (err e) = none

-- What FinishDeployment is told of a first build.
unfoldable pub first_report : (Text → Text) → Host → App → Report
unfolding first_line tail_log
first_report trim h fresh = elim (h.container.1) [
  | none ↦ record {
    status = deploy_ok;
    sha = fresh.deployed_sha;
    message = codes "first build";
    log = tail_log h.container.0 none;
  }
  | some e ↦ record {
    status = deploy_failed;
    sha = fresh.deployed_sha;
    message = first_line trim e;
    log = tail_log h.container.0 (some e);
  }
]

unfoldable pub finish_made : ℕ → Report → Option ℕ → Db → Db
finish_made now r none db = db
finish_made now r (some row) db = (finish_deployment now row r.status r.sha r.message r.log db).1

-- The status of an app whose first build failed.
unfoldable pub fail_first : ℕ → Host → App → Db → Db
fail_first now h fresh db = elim (h.container.1) [
  | none ↦ db
  | some e ↦ (set_app_status now fresh.id app_error db).1
]

-- A list without the value at a place.
unfoldable pub without {ℓ} : {A : Type ℓ} → ℕ → List A → List A
without n [] = []
without zero (x ∷ xs) = xs
without (suc n) (x ∷ xs) = x ∷ without n xs
