-- ===== src/AppService/Deploys/FirstBuilds.antt =====
-- The first build of Create, internal/apps/apps.go, among the deploys: it has a row and no claim.
use xdev.Prelude.{
  ℕ, zero, suc, ◌≡◌, refl, ◌∙◌, ◌⊎◌, inl, inr, ◌==◌, ==_refl, Bool, true, false, List, [], ◌∷◌,
  ◌++◌, some, arith, Bool-cases, Option-cases, Text, text_eq, any, all, get_elem?,
}
use xdev.Prelude.Result.{Result, ok, err}
use xdev.Store.Schema.{Db, App, Deployment, StoreError}
use xdev.Store.Table.{update_where}
use xdev.Store.Apps.{set_app_status, update_app_row}
use xdev.Store.Deployments.{is_running, start_deployment, finish_deployment}
use xdev.AppService.Deploys.{Host, Report}
use xdev.AppService.Deploys.Creation.{
  FirstBuild, deploy_create, made_row, first_report, finish_made, fail_first, without,
}
use xdev.AppService.Deploys.Steps.{
  DeployJob, Service, built, begin_first_build, end_first_build, advance_first,
}
use xdev.AppService.Deploys.Claims.{settled, backed, has_row, of_create, held, all-implies}
use xdev.AppService.Deploys.Sound.{IsSound, all-append, start_deployment-cases}

held-first :
    (f : FirstBuild) (firsts : List FirstBuild) (jobs : List DeployJob) (d : Deployment)
    → held firsts jobs d ≡ true
    → held (f ∷ firsts) jobs d ≡ true
unfolding held of_create any
held-first f firsts jobs d h = ground (arith, h)

opened-held :
    (fresh : App) (s : Service) (d : Deployment) (db : Db)
    → IsSound s
    → db.deployments ≡ s.db.deployments ++ d ∷ []
    → IsSound (record s {
      first_builds = record { fresh = fresh; row = some d.id } ∷ s.first_builds;
      db = db;
    })
unfolding held of_create any all
opened-held fresh s d db i rows =
    let f : FirstBuild = record { fresh = fresh; row = some d.id } in
    record {
      claims = i.claims;
      distinct = i.distinct;
      rows = rw rows (
          all-append (held (f ∷ s.first_builds) s.jobs) s.db.deployments (d ∷ [])
          ∙ ground (
            arith,
            all-implies (held s.first_builds s.jobs) (held (f ∷ s.first_builds) s.jobs)
                s.db.deployments (held-first f s.first_builds s.jobs) i.rows,
            ==_refl d.id,
          ));
      ends = i.ends;
    }

begun_first-IsSound :
    (fresh : App) (s : Service) (res : Result StoreError ℕ) (db : Db)
    → IsSound s
    → ((e : StoreError) × (res ≡ err e) × (db ≡ s.db))
      ⊎ ((d : Deployment) × (d.app_id ≡ fresh.id)
          × (res ≡ ok d.id)
          × (db.deployments ≡ s.db.deployments ++ d ∷ []))
    → IsSound (record s {
      first_builds = record { fresh = fresh; row = made_row res } ∷ s.first_builds;
      db = db;
    })
unfolding made_row
begun_first-IsSound fresh s res db i (inl (e, r, h)) =
    rw (r, h)
      (record {
        claims = i.claims;
        distinct = i.distinct;
        rows =
            all-implies (held s.first_builds s.jobs) _ s.db.deployments
              (held-first _ s.first_builds s.jobs) i.rows;
        ends = i.ends;
      })
begun_first-IsSound fresh s res db i (inr (d, a, r, h)) = rw r (opened-held fresh s d db i h)

-- A first build that begins keeps the invariant.
pub begin_first_build-IsSound :
    (now : ℕ) (fresh : App) (s : Service) → IsSound s → IsSound (begin_first_build now fresh s)
unfolding begin_first_build
begin_first_build-IsSound now fresh s i =
    begun_first-IsSound fresh s (start_deployment now fresh.id deploy_create s.db).0
      (start_deployment now fresh.id deploy_create s.db).1 i
      (start_deployment-cases now fresh.id deploy_create s.db)

-- The first build at a place is the only one that goes.
any-without :
    (p : FirstBuild → Bool) (n : ℕ) (f : FirstBuild) (firsts : List FirstBuild)
    → get_elem? firsts n ≡ some f
    → p f ≡ false
    → any p (without n firsts) ≡ any p firsts
unfolding any without
any-without p n f [] g h = absurd (ground (arith, g))
any-without p zero f (k ∷ firsts) g h = let same : k ≡ f = ground (arith, g) in rw same (rw h refl)
any-without p (suc n) f (k ∷ firsts) g h = ground (arith, any-without p n f firsts g h)

first_report-settled :
    (trim : Text → Text) (h : Host) (fresh : App)
    → settled (built (first_report trim h fresh)) ≡ true
unfolding settled first_report text_eq
first_report-settled trim h fresh = elim (Option-cases (h.container.1)) [
  | inl e ↦ rw (first_report, e) refl
  | inr (x, e) ↦ rw (first_report, e) refl
]

-- A row that is not that of the first build at a place is held as before when that one goes.
held-without :
    (n : ℕ) (f : FirstBuild) (firsts : List FirstBuild) (jobs : List DeployJob) (d : Deployment)
    → get_elem? firsts n ≡ some f
    → has_row d.id f ≡ false
    → held firsts jobs d ≡ true
    → held (without n firsts) jobs d ≡ true
unfolding held of_create
held-without n f firsts jobs d g k h = ground (arith, h, any-without (has_row d.id) n f firsts g k)

has_row-other :
    (id row : ℕ) (f : FirstBuild) → f.row ≡ some row → (row == id) ≡ false → has_row id f ≡ false
has_row-other id row f e h = rw e h

-- The row of a first build is not running any more, and every other one is held as before.
finished-held :
    (now n : ℕ) (f : FirstBuild) (row : ℕ) (r : Report) (firsts : List FirstBuild)
    (jobs : List DeployJob) (rows : List Deployment)
    → settled (built r) ≡ true
    → get_elem? firsts n ≡ some f
    → f.row ≡ some row
    → all (held firsts jobs) rows ≡ true
    → all (held (without n firsts) jobs) (
        update_where
          (λ d. d.id == row)
          (λ d. record d {
            status = r.status;
            sha = r.sha;
            message = r.message;
            log = r.log;
            finished_at = some now;
          })
          rows)
      ≡ true
unfolding all update_where
finished-held now n f row r firsts jobs [] e g k h = refl
finished-held now n f row r firsts jobs (d ∷ rows) e g k h =
    let rest = finished-held now n f row r firsts jobs rows e g k (ground (arith, h)) in
    elim (Bool-cases (d.id == row)) [
      | inl same ↦ rw (same, rest) (unfold held backed is_running settled in ground (arith, e))
      | inr other ↦
          rw (other, rest)
            (ground (
              arith,
              held-without n f firsts jobs d g (has_row-other d.id row f k (ground (arith, other)))
                  (ground (arith, h)),
            ))
    ]

fail_first-rows :
    (now : ℕ) (h : Host) (fresh : App) (db : Db)
    → (fail_first now h fresh db).deployments ≡ db.deployments
unfolding fail_first set_app_status update_app_row
fail_first-rows now h fresh db = ground arith

finish_made-held :
    (now n : ℕ) (f : FirstBuild) (r : Report) (s : Service)
    → settled (built r) ≡ true
    → get_elem? s.first_builds n ≡ some f
    → IsSound s
    → all (held (without n s.first_builds) s.jobs) (finish_made now r f.row s.db).deployments ≡ true
unfolding finish_made finish_deployment
finish_made-held now n f r s e g i = elim (Option-cases f.row) [
  | inl k ↦ rw k (
      all-implies (held s.first_builds s.jobs) _ s.db.deployments
        (λ d h. held-without n f s.first_builds s.jobs d g (rw k refl) h) i.rows)
  | inr (row, k) ↦
      rw k (finished-held now n f row r s.first_builds s.jobs s.db.deployments e g k i.rows)
]

-- A first build that ends keeps the invariant.
end_first_build-IsSound :
    (trim : Text → Text) (now : ℕ) (h : Host) (n : ℕ) (f : FirstBuild) (s : Service)
    → get_elem? s.first_builds n ≡ some f
    → IsSound s
    → IsSound (end_first_build trim now h n f s)
unfolding end_first_build
end_first_build-IsSound trim now h n f s g i = record {
  claims = i.claims;
  distinct = i.distinct;
  rows =
      rw (fail_first-rows now h f.fresh (finish_made now (first_report trim h f.fresh) f.row s.db))
        (finish_made-held now n f (first_report trim h f.fresh) s
          (first_report-settled trim h f.fresh) g i);
  ends = i.ends;
}

pub advance_first-IsSound :
    (trim : Text → Text) (now : ℕ) (h : Host) (n : ℕ) (s : Service)
    → IsSound s
    → IsSound (advance_first trim now h n s)
unfolding advance_first
advance_first-IsSound trim now h n s i = elim (Option-cases (get_elem? s.first_builds n)) [
  | inl e ↦ rw (advance_first, e) i
  | inr (f, e) ↦ rw (advance_first, e) (end_first_build-IsSound trim now h n f s e i)
]
