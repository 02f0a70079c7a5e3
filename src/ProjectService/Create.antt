-- ===== src/ProjectService/Create.antt =====
-- Create makes a project or leaves the database as it was.
use xdev.Prelude.{
  ℕ, suc, ◌≡◌, refl, ap, true, false, List, [], ◌∷◌, map, some, arith, inl, inr, Bool-cases,
  is_empty, length, In, any, Text, text_eq, text_eq_sound, trim_space,
}
use xdev.Prelude.Result.{Result, ok, err}
use xdev.Naming.{slugify, unique}
use xdev.Naming.Collisions.{Chosen, unique-Chosen}
use xdev.Store.Schema.{Db, Project, StoreError, ProjectRow}
use xdev.Store.Projects.{project_slug_exists, create_project}
use xdev.Store.Projects.Front.{create_project-first}
use xdev.Store.Consistent.{IsConsistent}
use xdev.ProjectService.{
  World, Answers, Settings, ServiceError, draft, provision, settle, create, remove_dir,
}

slugs : List ProjectRow → List Text
slugs rows = map (λ r. r.slug) rows

length-slugs : (rows : List ProjectRow) → length (slugs rows) ≡ length rows
unfolding slugs
length-slugs [] = refl
length-slugs (r ∷ rows) = omega (arith, length-slugs rows)

exists-In :
    (t : Text) (rows : List ProjectRow)
    → any (λ r. text_eq r.slug t) rows ≡ true
    → In t (slugs rows)
unfolding any slugs
exists-In t [] h = cc
exists-In t (r ∷ rows) h = ground (arith, text_eq_sound r.slug t, exists-In t rows)

slug-Chosen :
    (fold : ℕ → ℕ) (name : Text) (db : Db)
    → (t : Text) × (unique (suc (length db.projects)) fold name (λ t. project_slug_exists t db)
        ≡ some t)
      × (project_slug_exists t db ≡ false)
      × Chosen (λ t. project_slug_exists t db) (slugify fold name) t
slug-Chosen fold name db =
    unique-Chosen (suc (length db.projects)) fold name (λ t. project_slug_exists t db)
      (slugs db.projects) (λ t h. exists-In t db.projects (unfold project_slug_exists in h))
      (omega (arith, length-slugs db.projects))

settle-ok :
    (ans : Answers) (p q : Project) (w : World) (r : Result StoreError Project × Db)
    → r.0 ≡ ok q
    → settle ans p w r ≡ (ok q, record w { db = r.1 })
unfolding settle
settle-ok ans p q w (ok x, db) h = cc
settle-ok ans p q w (err e, db) h = absurd (cc)

provision-ok :
    (ans : Answers) (now : ℕ) (p q : Project) (w : World)
    → ans.makes_dir ≡ true
    → ans.makes_network ≡ true
    → (create_project now p w.db).0 ≡ ok q
    → provision ans now p w ≡ (
      ok q,
      record {
        db = (create_project now p w.db).1;
        dirs = p.dir ∷ w.dirs;
        networks = (p.engine, p.network_name) ∷ w.networks;
      },
    )
unfolding provision
provision-ok ans now p q w dir net made =
    let made_both : World = record {
      db = w.db;
      dirs = p.dir ∷ w.dirs;
      networks = (p.engine, p.network_name) ∷ w.networks;
    } in
    ground (arith, settle-ok ans p q made_both (create_project now p w.db) made)

provision-err :
    (ans : Answers) (now : ℕ) (p q : Project) (w : World) (e : ServiceError)
    → (create_project now p w.db).0 ≡ ok q
    → (provision ans now p w).0 ≡ err e
    → (provision ans now p w).1.db ≡ w.db
unfolding provision remove_dir
provision-err ans now p q w e made failed = elim (Bool-cases ans.makes_dir) [
  | inl dir ↦ elim (Bool-cases ans.makes_network) [
    | inl net ↦ absurd (cc (failed, ap (λ r. r.0) (provision-ok ans now p q w dir net made)))
    | inr net ↦ ground arith
  ]
  | inr dir ↦ ground arith
]

-- On a consistent database, a Create that fails leaves the database as it was.
pub create-fails :
    (fold : ℕ → ℕ) (cfg : Settings) (ans : Answers) (now : ℕ) (name base environment : Text)
    (w : World) (e : ServiceError)
    → IsConsistent w.db
    → (create fold cfg ans now name base environment w).0 ≡ err e
    → (create fold cfg ans now name base environment w).1.db ≡ w.db
unfolding create draft
create-fails fold cfg ans now name base environment w e c =
    elim (Bool-cases (is_empty (trim_space name))) [
      | inl blank ↦ rw blank (λ h. refl)
      | inr named ↦
          let (slug, found, free, chosen) = slug-Chosen fold (trim_space name) w.db in
          let p = draft cfg (trim_space name) base environment slug in
          let (q, made, _, _, _) = create_project-first now p w.db c free in
          rw (named, found) (provision-err ans now p q w e made)
    ]
