-- ===== src/Store/Consistent/DeploymentWrites.antt =====
-- The writes of deploy records and webhooks keep the database consistent.
use xdev.Prelude.{
  ℕ, ◌≡◌, refl, ◌⊎◌, inl, inr, Bool, true, false, not, ◌&&◌, List, [], ◌∷◌, map, arith, Bool-cases,
  ◌==◌, ==_iff, All, filter, any, is_empty, text_eq, Text, text_eq_sound, text_eq_complete,
}
use xdev.Store.Ranking.{member, Distinct}
use xdev.Store.Rows.{Unique}
use xdev.Store.Schema.{Db, App, Deployment}
use xdev.Store.Consistent.{same_hook, DeploymentsOk, IsConsistent, app_ids}
use xdev.Store.Consistent.Tables.{
  not_the_empty, DeploymentsOk-insert, DeploymentsOk-update, DeploymentsOk-delete,
}
use xdev.Store.Consistent.DomainWrites.{app_exists-member}
use xdev.Store.Domains.{app_exists}
use xdev.Store.Deployments
use xdev.Store.Table.{update_where}

pub start_deployment-IsConsistent :
    (now app : ℕ) (trigger : Text) (db : Db)
    → IsConsistent db
    → IsConsistent (Deployments.start_deployment now app trigger db).1
unfolding Deployments.start_deployment
start_deployment-IsConsistent now app trigger db c = elim (Bool-cases (app_exists app db)) [
  | inr e ↦ rw e c
  | inl there ↦ rw there (record {
    projects = c.projects;
    apps = c.apps;
    domains = c.domains;
    deployments =
        DeploymentsOk-insert (app_ids db) db.deployments db.last_deployment c.deployments _ refl
          (app_exists-member app db there);
    settings = c.settings;
  })
]

-- A change of the deploy records alone.
pub with_deployments :
    (rows : List Deployment) (db : Db)
    → IsConsistent db
    → DeploymentsOk (app_ids db) rows db.last_deployment
    → IsConsistent (record db { deployments = rows })
with_deployments rows db c new = record {
  projects = c.projects;
  apps = c.apps;
  domains = c.domains;
  deployments = new;
  settings = c.settings;
}

pub update_deployments-IsConsistent :
    (p : Deployment → Bool) (f : Deployment → Deployment) (db : Db)
    → ((d : Deployment) → (f d).id ≡ d.id)
    → ((d : Deployment) → (f d).app_id ≡ d.app_id)
    → IsConsistent db
    → IsConsistent (record db { deployments = update_where p f db.deployments })
update_deployments-IsConsistent p f db same_id same_app c = with_deployments _ db c (
    DeploymentsOk-update (app_ids db) db.deployments db.last_deployment c.deployments p f same_id
      same_app)

pub delete_deployments-IsConsistent :
    (p : Deployment → Bool) (db : Db)
    → IsConsistent db
    → IsConsistent (record db { deployments = filter p db.deployments })
delete_deployments-IsConsistent p db c = with_deployments _ db c (
    DeploymentsOk-delete (app_ids db) db.deployments db.last_deployment c.deployments p _
      (λ d k m. m))

-- The webhook id `hook` is free for the app `id`.
module _ (id : ℕ) (hook : Text) (f : App → App) (sets : (a : App) → (f a).hook_id ≡ hook) where
  abbrev Free : App → Type 0
  Free a = (a.id == id) ≡ false → (not (is_empty a.hook_id) && text_eq a.hook_id hook) ≡ false

  unclashing_rows :
      (rows : List App)
      → (hook ≡ []) ⊎ (any (λ a. not (a.id == id) && text_eq a.hook_id hook) rows ≡ false)
      → All Free rows
  unfolding any
  unclashing_rows [] h = tt
  unclashing_rows (a ∷ rows) (inl e) =
      ((λ _. rw e (not_the_empty a.hook_id)), unclashing_rows rows (inl e))
  unclashing_rows (a ∷ rows) (inr e) =
      ((λ ne. ground arith), unclashing_rows rows (inr (ground arith)))

  clash_no_more :
      (a : App) (rows : List App)
      → (a.id == id) ≡ false
      → Free a
      → any (same_hook a) rows ≡ false
      → any (same_hook a) (update_where (λ b. b.id == id) f rows) ≡ false
  unfolding any update_where same_hook
  clash_no_more a [] ne free h = refl
  clash_no_more a (b ∷ rows) ne free h =
      ground (arith, free ne, sets b, clash_no_more a rows ne free)

  own_clash :
      (a : App) (rows : List App)
      → member id (map (λ b. b.id) rows) ≡ false
      → All Free rows
      → any (same_hook (f a)) (update_where (λ b. b.id == id) f rows) ≡ false
  unfolding any update_where same_hook member
  own_clash a [] m all = refl
  own_clash a (b ∷ rows) m all = ground (
    arith,
    all.0,
    sets a,
    text_eq_sound hook b.hook_id,
    text_eq_complete b.hook_id hook,
    own_clash a rows (ground arith) all.1,
  )

  set_free_hook-Unique :
      (rows : List App)
      → Distinct (map (λ a. a.id) rows)
      → All Free rows
      → Unique same_hook rows
      → Unique same_hook (update_where (λ a. a.id == id) f rows)
  unfolding update_where
  set_free_hook-Unique [] d all u = tt
  set_free_hook-Unique (a ∷ rows) d all u = elim (Bool-cases (a.id == id)) [
    | inl e ↦
        let same : a.id ≡ id = (==_iff a.id id).0 e in
        rw e (own_clash a rows (rw same at d.0) all.1, set_free_hook-Unique rows d.1 all.1 u.1)
    | inr ne ↦ rw ne (clash_no_more a rows ne all.0 u.0, set_free_hook-Unique rows d.1 all.1 u.1)
  ]

  update_none :
      (rows : List App)
      → any (λ a. a.id == id) rows ≡ false
      → update_where (λ a. a.id == id) f rows ≡ rows
  unfolding any update_where
  update_none [] h = refl
  update_none (a ∷ rows) h = ground (arith, update_none rows)

  is_empty-nil : (s : Text) → is_empty s ≡ true → s ≡ []
  is_empty-nil [] h = refl
  is_empty-nil (c ∷ s) h = cc

  -- The guard of SetAppHook lets an id through only where it is free, or where no row changes.
  pub set_hook-Unique :
      (rows : List App)
      → Distinct (map (λ a. a.id) rows)
      → (not (is_empty hook)
          && any (λ a. a.id == id) rows
          && any (λ a. not (a.id == id) && text_eq a.hook_id hook) rows)
        ≡ false
      → Unique same_hook rows
      → Unique same_hook (update_where (λ a. a.id == id) f rows)
  set_hook-Unique rows d guard u = elim (Bool-cases (any (λ a. a.id == id) rows)) [
    | inr absent ↦ rw (update_none rows absent) u
    | inl there ↦ elim (Bool-cases (is_empty hook)) [
      | inl e ↦ set_free_hook-Unique rows d (unclashing_rows rows (inl (is_empty-nil hook e))) u
      | inr ne ↦ set_free_hook-Unique rows d (unclashing_rows rows (inr (ground arith))) u
    ]
  ]
