-- ===== src/Store/Consistent/ProjectWrites.antt =====
-- The writes of internal/store/projects.go keep the database consistent.
use xdev.Prelude.{
  ℕ, ◌≡◌, refl, inl, inr, Bool, true, not, List, [], ◌∷◌, map, arith, Bool-cases, some, none, ◌==◌,
  filter, any, Text,
}
use xdev.Store.Ranking.{member, check_order}
use xdev.Store.Rows.{keys-update, member-snoc, member-filter, renumber_induction}
use xdev.Store.Schema.{Db, ProjectRow, Project, App}
use xdev.Store.Consistent.{ProjectsOk, IsConsistent, app_ids}
use xdev.Store.Consistent.Tables.{
  Holds, ProjectsOk-insert, ProjectsOk-update, ProjectsOk-delete, AppsOk-parents, AppsOk-delete,
  DomainsOk-update, DomainsOk-delete, DeploymentsOk-delete,
}
use xdev.Store.Projects
use xdev.Store.Projects.{
  project_ids, app_in_project, project_slug_exists, new_project, project_ranked,
}
use xdev.Store.Table.{update_where}

pub keys-hold :
    {A : Type 0} (key : A → ℕ) (p : A → Bool) (f : A → A) (xs : List A)
    → ((x : A) → key (f x) ≡ key x)
    → Holds (map key xs) (map key (update_where p f xs))
keys-hold key p f xs h a m = rw (keys-update key p f xs h) m

pub create_project-IsConsistent :
    (now : ℕ) (p : Project) (db : Db)
    → IsConsistent db
    → IsConsistent (Projects.create_project now p db).1
unfolding Projects.create_project new_project project_slug_exists
create_project-IsConsistent now p db c = elim (Bool-cases (project_slug_exists p.slug db)) [
  | inl taken ↦ rw taken c
  | inr free ↦ rw free (record {
    projects =
        ProjectsOk-insert db.projects db.last_project c.projects (new_project now p db) refl free;
    apps =
        AppsOk-parents (project_ids db) db.apps db.last_app c.apps _
          (λ a m. rw (member-snoc (λ r. r.id) a db.projects (new_project now p db), m));
    domains = c.domains;
    deployments = c.deployments;
    settings = c.settings;
  })
]

pub rename_project-IsConsistent :
    (id : ℕ) (name : Text) (db : Db)
    → IsConsistent db
    → IsConsistent (Projects.rename_project id name db).1
unfolding Projects.rename_project
rename_project-IsConsistent id name db c = record {
  projects = ProjectsOk-update db.projects db.last_project c.projects _ _ (λ r. refl) (λ r. refl);
  apps =
      AppsOk-parents (project_ids db) db.apps db.last_app c.apps _
        (keys-hold (λ r. r.id) _ _ db.projects (λ r. refl));
  domains = c.domains;
  deployments = c.deployments;
  settings = c.settings;
}

pub set_project_config-IsConsistent :
    (id : ℕ) (base env : Text) (local : Bool) (ssl : Text) (db : Db)
    → IsConsistent db
    → IsConsistent (Projects.set_project_config id base env local ssl db).1
unfolding Projects.set_project_config
set_project_config-IsConsistent id base env local ssl db c = record {
  projects = ProjectsOk-update db.projects db.last_project c.projects _ _ (λ r. refl) (λ r. refl);
  apps =
      AppsOk-parents (project_ids db) db.apps db.last_app c.apps _
        (keys-hold (λ r. r.id) _ _ db.projects (λ r. refl));
  domains =
      DomainsOk-update (app_ids db) db.domains db.last_domain c.domains _ _ (λ d. refl) (λ d. refl)
        (λ d h. h);
  deployments = c.deployments;
  settings = c.settings;
}

pub set_project_order-IsConsistent :
    (ids : List ℕ) (db : Db) → IsConsistent db → IsConsistent (Projects.set_project_order ids db).1
unfolding Projects.set_project_order Projects.save_order
set_project_order-IsConsistent ids db c =
    elim (check_order (project_ids db) ids)
      as (λ o. IsConsistent (Projects.save_order o ids db).1) [
        | some why ↦ c
        | none ↦ record {
          projects =
              renumber_induction project_ranked (λ rows. ProjectsOk rows db.last_project)
                (λ p i rows ok.
                  ProjectsOk-update rows db.last_project ok p _ (λ r. refl) (λ r. refl))
                1 ids db.projects c.projects;
          apps = AppsOk-parents (project_ids db) db.apps db.last_app c.apps _ (
              renumber_induction project_ranked
                (λ rows. Holds (project_ids db) (map (λ r. r.id) rows))
                (λ p i rows hold a m. keys-hold (λ r. r.id) p _ rows (λ r. refl) a (hold a m)) 1 ids
                db.projects (λ a m. m));
          domains = c.domains;
          deployments = c.deployments;
          settings = c.settings;
        }
      ]

-- A project that is not deleted keeps its apps, and they keep their rows.
other_project :
    (id : ℕ) (r : ProjectRow) (a : ℕ) → r.id ≡ a → not (a == id) ≡ true → not (r.id == id) ≡ true
other_project id r a e h = rw e h

kept_app :
    (id d : ℕ) (apps : List App)
    → not (app_in_project apps id d) ≡ true
    → member d (map (λ a. a.id) apps) ≡ true
    → member d (map (λ a. a.id) (filter (λ a. not (a.project_id == id)) apps)) ≡ true
unfolding app_in_project any member filter
kept_app id d [] h m = cc
kept_app id d (a ∷ apps) h m = elim (Bool-cases (a.project_id == id)) [
  | inl e ↦ rw e (kept_app id d apps (ground arith) (ground arith))
  | inr e ↦ rw e (ground (arith, kept_app id d apps))
]

pub delete_project-IsConsistent :
    (id : ℕ) (db : Db) → IsConsistent db → IsConsistent (Projects.delete_project id db).1
unfolding Projects.delete_project
delete_project-IsConsistent id db c = record {
  projects = ProjectsOk-delete db.projects db.last_project c.projects _;
  apps = AppsOk-delete (project_ids db) db.apps db.last_app c.apps _ _ (λ a keep m.
      member-filter (λ r. r.id) _ a.project_id db.projects
        (λ r e. other_project id r a.project_id e keep) m);
  domains =
      DomainsOk-delete (app_ids db) db.domains db.last_domain c.domains _ _
        (λ d. kept_app id d.app_id db.apps);
  deployments =
      DeploymentsOk-delete (app_ids db) db.deployments db.last_deployment c.deployments _ _
        (λ d. kept_app id d.app_id db.apps);
  settings = c.settings;
}
