-- ===== src/AppService/Deploys/Advance.antt =====
-- Each step of a goroutine keeps the invariant of the deploys.
use xdev.Prelude.{
  ℕ, ◌≡◌, refl, ap, sym, ◌∙◌, ◌⊎◌, inl, inr, ◌==◌, true, false, not, List, [], ◌∷◌, map, Option,
  some, arith, Option-cases, Text, filter, all, get_elem?, In,
}
use xdev.Store.Schema.{Deployment}
use xdev.Store.Table.{update_where}
use xdev.Store.Ranking.{Distinct}
use xdev.Store.Deployments.{is_running, finish_deployment, prune_deployments}
use xdev.AppService.Deploys.{Host, DeployError, Report}
use xdev.AppService.Deploys.Creation.{FirstBuild}
use xdev.AppService.Deploys.Steps.{
  DeployJob, Phase, building, built, finished, Service, is_job, set_phase, work, carry_out,
  finish_row, leave, advance_job, advance,
}
use xdev.AppService.Deploys.Claims.{
  is_open, settled, app_id, backed, of_create, held, all-filter, all-implies, get_elem?-In, all-In,
  any-set_phase, set_phase-apps, set_phase-settled, leave-apps, leave-drives, Distinct-release,
}
use xdev.AppService.Deploys.Rows.{work-rows, work-settled}
use xdev.AppService.Deploys.Sound.{IsSound}

-- A row that is finished is not running, and every other one keeps its goroutine.
finished-backed :
    (fs : List FirstBuild) (now : ℕ) (j : DeployJob) (r : Report) (jobs : List DeployJob)
    (rows : List Deployment)
    → settled (built r) ≡ true
    → all (held fs jobs) rows ≡ true
    → all (held fs (set_phase j.app.id j.row finished jobs)) (
        update_where
          (λ d. d.id == j.row)
          (λ d. record d {
            status = r.status;
            sha = r.sha;
            message = r.message;
            log = r.log;
            finished_at = some now;
          })
          rows)
      ≡ true
unfolding all update_where held of_create backed is_running settled
finished-backed fs now j r jobs [] e h = refl
finished-backed fs now j r jobs (d ∷ rows) e h = ground (
  arith,
  e,
  h,
  finished-backed fs now j r jobs rows e,
  any-set_phase d j.app.id j.row finished jobs,
)

phase-backed :
    (fs : List FirstBuild) (j : DeployJob) (ph : Phase) (jobs : List DeployJob) (d : Deployment)
    → is_open ph ≡ true
    → held fs jobs d ≡ true
    → held fs (set_phase j.app.id j.row ph jobs) d ≡ true
unfolding held backed
phase-backed fs j ph jobs d o b = ground (arith, o, b, any-set_phase d j.app.id j.row ph jobs)

rephased-backed :
    (fs : List FirstBuild) (j : DeployJob) (ph : Phase) (jobs : List DeployJob)
    (rows : List Deployment)
    → is_open ph ≡ true
    → all (held fs jobs) rows ≡ true
    → all (held fs (set_phase j.app.id j.row ph jobs)) rows ≡ true
rephased-backed fs j ph jobs rows o h =
    all-implies (held fs jobs) (held fs (set_phase j.app.id j.row ph jobs)) rows
      (λ d b. phase-backed fs j ph jobs d o b) h

left-backed :
    (fs : List FirstBuild) (j : DeployJob) (jobs : List DeployJob) (d : Deployment)
    → Distinct (map app_id jobs)
    → In j jobs
    → is_open j.phase ≡ false
    → held fs jobs d ≡ true
    → held fs (filter (λ k. not (is_job j.app.id j.row k)) jobs) d ≡ true
unfolding held backed
left-backed fs j jobs d u m o b = ground (arith, b, leave-drives d j jobs u m o)

carry_out-IsSound :
    (say : DeployError → Text) (trim : Text → Text) (now : ℕ) (h : Host) (unpack : Option Text)
    (j : DeployJob) (s : Service)
    → IsSound s
    → IsSound (carry_out say trim now h unpack j s)
unfolding carry_out
carry_out-IsSound say trim now h unpack j s i = record {
  claims = i.claims ∙ sym (set_phase-apps j.app.id j.row _ s.jobs);
  distinct =
      rw (set_phase-apps j.app.id j.row (built (work say trim now h unpack j s.db).0) s.jobs)
        i.distinct;
  rows =
      rw (work-rows say trim now h unpack j s.db)
        (rephased-backed s.first_builds j _ s.jobs s.db.deployments refl i.rows);
  ends =
      set_phase-settled j.app.id j.row _ s.jobs (work-settled say trim now h unpack j s.db) i.ends;
}

finish_row-IsSound :
    (now : ℕ) (j : DeployJob) (r : Report) (s : Service)
    → settled (built r) ≡ true
    → IsSound s
    → IsSound (finish_row now j r s)
unfolding finish_row finish_deployment prune_deployments settled
finish_row-IsSound now j r s e i = record {
  claims = i.claims ∙ sym (set_phase-apps j.app.id j.row finished s.jobs);
  distinct = rw (set_phase-apps j.app.id j.row finished s.jobs) i.distinct;
  rows = all-filter _ _ _ (finished-backed s.first_builds now j r s.jobs s.db.deployments e i.rows);
  ends = set_phase-settled j.app.id j.row finished s.jobs refl i.ends;
}

leave-IsSound :
    (j : DeployJob) (s : Service)
    → In j s.jobs
    → is_open j.phase ≡ false
    → IsSound s
    → IsSound (leave j s)
unfolding leave
leave-IsSound j s m o i = record {
  claims = rw i.claims (sym (leave-apps j s.jobs i.distinct m));
  distinct =
      rw (leave-apps j s.jobs i.distinct m)
        (Distinct-release j.app.id (map app_id s.jobs) i.distinct);
  rows =
      all-implies (held s.first_builds s.jobs)
        (held s.first_builds (filter (λ k. not (is_job j.app.id j.row k)) s.jobs)) s.db.deployments
        (λ d b. left-backed s.first_builds j s.jobs d i.distinct m o b) i.rows;
  ends = all-filter _ _ s.jobs i.ends;
}

phase-cases : (ph : Phase) → (ph ≡ building) ⊎ (((r : Report) × (ph ≡ built r)) ⊎ (ph ≡ finished))
phase-cases building = inl refl
phase-cases (built r) = inr (inl (r, refl))
phase-cases finished = inr (inr refl)

advance_job-IsSound :
    (say : DeployError → Text) (trim : Text → Text) (now : ℕ) (h : Host) (unpack : Option Text)
    (j : DeployJob) (s : Service)
    → In j s.jobs
    → IsSound s
    → IsSound (advance_job say trim now h unpack j s)
unfolding advance_job
advance_job-IsSound say trim now h unpack j s m i = elim (phase-cases j.phase) [
  | inl e ↦ rw (advance_job, e) (carry_out-IsSound say trim now h unpack j s i)
  | inr (inl (r, e)) ↦
      rw (advance_job, e)
        (finish_row-IsSound now j r s
          (ap settled (sym e) ∙ all-In (λ k. settled k.phase) s.jobs j i.ends m) i)
  | inr (inr e) ↦ rw (advance_job, e) (leave-IsSound j s m (ap is_open e) i)
]

pub advance-IsSound :
    (say : DeployError → Text) (trim : Text → Text) (now : ℕ) (h : Host) (unpack : Option Text)
    (n : ℕ) (s : Service)
    → IsSound s
    → IsSound (advance say trim now h unpack n s)
unfolding advance
advance-IsSound say trim now h unpack n s i = elim (Option-cases (get_elem? s.jobs n)) [
  | inl e ↦ rw (advance, e) i
  | inr (j, e) ↦
      rw (advance, e) (advance_job-IsSound say trim now h unpack j s (get_elem?-In s.jobs n j e) i)
]
