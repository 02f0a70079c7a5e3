-- ===== src/Store/Consistent/AppWrites.antt =====
-- The writes of apps keep the database consistent.
use xdev.Prelude.{
  ℕ, ◌≡◌, refl, inl, inr, Bool, true, not, ◌||◌, List, [], ◌∷◌, ◌++◌, map, arith, Bool-cases, some,
  none, ◌==◌,
}
use xdev.Store.Ranking.{member, Distinct, check_order}
use xdev.Store.Rows.{Unique, Unique-update, member-snoc, member-filter, renumber_induction}
use xdev.Store.Schema.{Db, App}
use xdev.Store.Consistent.{same_hook, AppsOk, IsConsistent, app_ids}
use xdev.Store.Consistent.Tables.{
  Holds, AppsOk-insert, AppsOk-update, AppsOk-delete, DomainsOk-parents, DomainsOk-delete,
  DeploymentsOk-parents, DeploymentsOk-delete,
}
use xdev.Store.Consistent.ProjectWrites.{keys-hold}
use xdev.Store.Projects.{project_ids}
use xdev.Store.Apps
use xdev.Store.Apps.{new_app, app_slug_exists, update_app_row, app_ranked, app_ids_of}
use xdev.Store.Table.{update_where}

pub create_app-IsConsistent :
    (now : ℕ) (a : App) (db : Db) → IsConsistent db → IsConsistent (Apps.create_app now a db).1
unfolding Apps.create_app
create_app-IsConsistent now a db c =
    elim (Bool-cases
      (app_slug_exists a.project_id a.slug db || not (member a.project_id (project_ids db)))) [
        | inl refused ↦ rw refused c
        | inr accepted ↦ rw accepted (record {
          projects = c.projects;
          apps =
              AppsOk-insert (project_ids db) db.apps db.last_app c.apps (new_app now a db)
                (unfold new_app in refl) (unfold new_app app_slug_exists in ground arith)
                (unfold new_app in refl) (unfold new_app in ground arith);
          domains = DomainsOk-parents (app_ids db) db.domains db.last_domain c.domains _ hold;
          deployments =
              DeploymentsOk-parents (app_ids db) db.deployments db.last_deployment c.deployments _
                hold;
          settings = c.settings;
        })
      ]
  where
    hold : Holds (app_ids db) (map (λ b. b.id) (db.apps ++ new_app now a db ∷ []))
    hold x m = rw (member-snoc (λ b. b.id) x db.apps (new_app now a db), m)

-- An UPDATE of one app that leaves its identity and its webhook alone.
pub update_app_row-IsConsistent :
    (id : ℕ) (f : App → App) (db : Db)
    → ((a : App) → (f a).id ≡ a.id)
    → ((a : App) → (f a).project_id ≡ a.project_id)
    → ((a : App) → (f a).slug ≡ a.slug)
    → Unique same_hook (update_where (λ a. a.id == id) f db.apps)
    → IsConsistent db
    → IsConsistent (update_app_row id f db).1
unfolding update_app_row
update_app_row-IsConsistent id f db same_id same_project same_slug_of hooks c = record {
  projects = c.projects;
  apps =
      AppsOk-update (project_ids db) db.apps db.last_app c.apps _ f same_id same_project
        same_slug_of hooks;
  domains =
      DomainsOk-parents (app_ids db) db.domains db.last_domain c.domains _
        (keys-hold (λ a. a.id) _ f db.apps same_id);
  deployments =
      DeploymentsOk-parents (app_ids db) db.deployments db.last_deployment c.deployments _
        (keys-hold (λ a. a.id) _ f db.apps same_id);
  settings = c.settings;
}

pub same_hooks :
    (f : App → App) (p : App → Bool) (rows : List App)
    → ((a : App) → (f a).hook_id ≡ a.hook_id)
    → Unique same_hook rows
    → Unique same_hook (update_where p f rows)
unfolding same_hook
same_hooks f p rows h u = Unique-update same_hook p f rows (λ a b. rw (h a)) (λ a b. rw (h b)) u

pub set_app_order-IsConsistent :
    (project : ℕ) (ids : List ℕ) (db : Db)
    → IsConsistent db
    → IsConsistent (Apps.set_app_order project ids db).1
unfolding Apps.set_app_order Apps.save_order
set_app_order-IsConsistent project ids db c =
    elim (check_order (app_ids_of project db) ids)
      as (λ o. IsConsistent (Apps.save_order o project ids db).1) [
        | some why ↦ c
        | none ↦ record {
          projects = c.projects;
          apps =
              renumber_induction (app_ranked project)
                (λ rows. AppsOk (project_ids db) rows db.last_app)
                (λ p i rows ok.
                  AppsOk-update (project_ids db) rows db.last_app ok p _ (λ a. refl) (λ a. refl)
                    (λ a. refl) (same_hooks _ p rows (λ a. refl) ok.hooks))
                1 ids db.apps c.apps;
          domains = DomainsOk-parents (app_ids db) db.domains db.last_domain c.domains _ hold;
          deployments =
              DeploymentsOk-parents (app_ids db) db.deployments db.last_deployment c.deployments _
                hold;
          settings = c.settings;
        }
      ]
  where
    hold :
        Holds
          (app_ids db)
          (map (λ a. a.id) (xdev.Store.Ranking.renumber (app_ranked project) 1 ids db.apps))
    hold =
        renumber_induction (app_ranked project) (λ rows. Holds (app_ids db) (map (λ a. a.id) rows))
          (λ p i rows h x m. keys-hold (λ a. a.id) p _ rows (λ a. refl) x (h x m)) 1 ids db.apps
          (λ x m. m)

other_app : (id a d : ℕ) → a ≡ d → not (d == id) ≡ true → not (a == id) ≡ true
other_app id a d e h = rw e h

pub delete_app-IsConsistent :
    (id : ℕ) (db : Db) → IsConsistent db → IsConsistent (Apps.delete_app id db).1
unfolding Apps.delete_app
delete_app-IsConsistent id db c = record {
  projects = c.projects;
  apps = AppsOk-delete (project_ids db) db.apps db.last_app c.apps _ _ (λ a keep m. m);
  domains = DomainsOk-delete (app_ids db) db.domains db.last_domain c.domains _ _ (λ d keep m.
      member-filter (λ a. a.id) _ d.app_id db.apps (λ a e. other_app id a.id d.app_id e keep) m);
  deployments =
      DeploymentsOk-delete (app_ids db) db.deployments db.last_deployment c.deployments _ _
        (λ d keep m.
          member-filter (λ a. a.id) _ d.app_id db.apps (λ a e. other_app id a.id d.app_id e keep)
            m);
  settings = c.settings;
}
