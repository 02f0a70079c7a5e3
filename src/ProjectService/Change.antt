-- ===== src/ProjectService/Change.antt =====
-- What Rename and Configure change, and what they leave.
use xdev.Prelude.{
  ℕ, ap, ◌∙◌, ==_refl, if◌then◌else◌, ◌≤◌, ◌≡◌, ◌≢◌, refl, true, false, List, [], ◌∷◌, ltb, ◌==◌,
  arith, inl, inr, Bool-cases, is_empty, length, find, Text, text_eq, text_eq_sound, trim_space,
}
use xdev.Prelude.Result.{ok}
use xdev.Store.Table.{update_where}
use xdev.Store.Schema.{Project, ProjectRow}
use xdev.Store.Projects.{project_by_id, rename_project, or_not_found, scan_project}
use xdev.ProjectService.{World, Outcome, max_project_name, rename, rename_found, from_store}

find-renamed :
    (id : ℕ) (name : Text) (p : Project) (rows : List ProjectRow)
    → or_not_found (find (λ r. r.id == id) rows) ≡ ok p
    → or_not_found (
        find
          (λ r. r.id == id)
          (update_where (λ r. r.id == id) (λ r. record r { name = name }) rows))
      ≡ ok (record p { name = name })
unfolding find update_where or_not_found scan_project
find-renamed id name p [] h = absurd (cc)
find-renamed id name p (r ∷ rows) h = elim (Bool-cases (r.id == id)) [
  | inl e ↦ rw (e, e) (cc)
  | inr e ↦ ground (arith, find-renamed id name p rows)
]

find-other :
    (id other : ℕ) (name : Text) (rows : List ProjectRow)
    → other ≢ id
    → find
        (λ r. r.id == other)
        (update_where (λ r. r.id == id) (λ r. record r { name = name }) rows)
      ≡ find (λ r. r.id == other) rows
unfolding find update_where
find-other id other name [] ne = refl
find-other id other name (r ∷ rows) ne = ground (arith, find-other id other name rows ne)

-- The outcome of a rename of project `id`, which was `p`, to `name`.
pub record Relabelled (id : ℕ) (name : Text) (p : Project) (w : World) (r : Outcome) : Type 0 where
  pub result : r.0 ≡ ok (record p { name = name })
  pub readings :
      (other : ℕ)
      → project_by_id other r.1.db
        ≡ (if other == id then ok (record p { name = name }) else project_by_id other w.db)
  pub same_dirs : r.1.dirs ≡ w.dirs
  pub same_networks : r.1.networks ≡ w.networks

renamed-readings :
    (id : ℕ) (name : Text) (p : Project) (w : World) (other : ℕ)
    → project_by_id id w.db ≡ ok p
    → project_by_id other (rename_project id name w.db).1
      ≡ (if other == id then ok (record p { name = name }) else project_by_id other w.db)
unfolding project_by_id rename_project
renamed-readings id name p w other here = elim (Bool-cases (other == id)) [
  | inl e ↦
      let same : other ≡ id = ground arith in
      rw e (rw same (find-renamed id name p w.db.projects here))
  | inr e ↦ rw e (ap or_not_found (find-other id other name w.db.projects (ground arith)))
]

same_name : (name : Text) (p : Project) → text_eq p.name name ≡ true → p ≡ record p { name = name }
same_name name p h = ap (λ n. record p { name = n }) (text_eq_sound p.name name h)

kept-readings :
    (id : ℕ) (name : Text) (p : Project) (w : World) (other : ℕ)
    → project_by_id id w.db ≡ ok p
    → text_eq p.name name ≡ true
    → project_by_id other w.db
      ≡ (if other == id then ok (record p { name = name }) else project_by_id other w.db)
kept-readings id name p w other here e = elim (Bool-cases (other == id)) [
  | inl same ↦
      let at_id : other ≡ id = ground arith in
      rw same (ap (λ i. project_by_id i w.db) at_id ∙ here ∙ ap ok (same_name name p e))
  | inr differs ↦ rw differs refl
]

found-fresh :
    (id : ℕ) (name : Text) (p : Project) (w : World)
    → project_by_id id w.db ≡ ok p
    → text_eq p.name name ≡ false
    → rename_found id name (ok p) w
      ≡ (ok (record p { name = name }), record w { db = (rename_project id name w.db).1 })
unfolding rename_found from_store
found-fresh id name p w here differs =
    let back : project_by_id id (rename_project id name w.db).1 ≡ ok (record p { name = name }) =
      renamed-readings id name p w id here ∙ rw (==_refl id) refl in
    rw (differs, back) refl

found-Relabelled :
    (id : ℕ) (name : Text) (p : Project) (w : World)
    → project_by_id id w.db ≡ ok p
    → Relabelled id name p w (rename_found id name (ok p) w)
unfolding rename_found from_store
found-Relabelled id name p w here = elim (Bool-cases (text_eq p.name name)) [
  | inl e ↦ rw e (record {
    result = ap ok (same_name name p e);
    readings = λ other. kept-readings id name p w other here e;
    same_dirs = refl;
    same_networks = refl;
  })
  | inr e ↦ rw (found-fresh id name p w here e) (record {
    result = refl;
    readings = λ other. renamed-readings id name p w other here;
    same_dirs = refl;
    same_networks = refl;
  })
]

-- A project of the database is renamed to any name that is not blank and has at most 80 runes:
-- Rename returns it with the trimmed name and its other fields as they were, a lookup of any id
-- then returns that for the project and the same as before for the others, and directories
-- and networks stay.
pub rename-Relabelled :
    (id : ℕ) (name : Text) (p : Project) (w : World)
    → project_by_id id w.db ≡ ok p
    → is_empty (trim_space name) ≡ false
    → length (trim_space name) ≤ max_project_name
    → Relabelled id (trim_space name) p w (rename id name w)
unfolding rename
rename-Relabelled id name p w here named short =
    let in_bounds : ltb max_project_name (length (trim_space name)) ≡ false = ground arith in
    rw (named, in_bounds, here) (found-Relabelled id (trim_space name) p w here)
