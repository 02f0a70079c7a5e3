-- ===== src/Store/Consistent/Tables.antt =====
-- What INSERT, UPDATE and DELETE keep of each table.
use xdev.Prelude.{
  ℕ, suc, ◌≤◌, ◌≡◌, refl, Bool, true, false, not, ◌&&◌, List, [], ◌∷◌, ◌++◌, arith, ◌==◌, All,
  All-append, filter, any, is_empty, text_eq, Text,
}
use xdev.Store.Ranking.{member}
use xdev.Store.Rows.{
  Unique, All-filter, All-kept, All-map, All-update, Unique-snoc, Unique-filter, Unique-update,
  member-above, Distinct-snoc, Distinct-filter, keys-update,
}
use xdev.Store.Schema.{ProjectRow, App, DomainRow, Deployment}
use xdev.Store.Consistent.{
  same_slug, same_app_slug, same_hook, same_host, ProjectsOk, AppsOk, DomainsOk, DeploymentsOk,
}
use xdev.Store.Table.{update_where}

le-suc :
    {A : Type 0} (key : A → ℕ) (n : ℕ) (xs : List A)
    → All (λ x. key x ≤ n) xs
    → All (λ x. key x ≤ suc n) xs
le-suc key n xs = All-map (λ x. key x ≤ n) (λ x. key x ≤ suc n) xs (λ x h. omega arith)

-- A set of ids that holds all of another.
abbrev pub Holds : List ℕ → List ℕ → Type 0
Holds ids ids' = (a : ℕ) → member a ids ≡ true → member a ids' ≡ true

module _ (rows : List ProjectRow) (last : ℕ) (ok : ProjectsOk rows last) where
  pub ProjectsOk-insert :
      (r : ProjectRow)
      → r.id ≡ suc last
      → any (λ s. text_eq s.slug r.slug) rows ≡ false
      → ProjectsOk (rows ++ r ∷ []) (suc last)
  unfolding same_slug
  ProjectsOk-insert r e free = record {
    keys =
        Distinct-snoc (λ s. s.id) rows r (rw e (member-above (λ s. s.id) last rows ok.bound))
          ok.keys;
    bound = All-append _ rows (r ∷ []) (le-suc (λ s. s.id) last rows ok.bound) (omega arith, tt);
    slugs = Unique-snoc same_slug rows r free ok.slugs;
  }

  pub ProjectsOk-update :
      (p : ProjectRow → Bool) (f : ProjectRow → ProjectRow)
      → ((r : ProjectRow) → (f r).id ≡ r.id)
      → ((r : ProjectRow) → (f r).slug ≡ r.slug)
      → ProjectsOk (update_where p f rows) last
  unfolding same_slug
  ProjectsOk-update p f same_id same_slug_of = record {
    keys = rw (keys-update (λ r. r.id) p f rows same_id) ok.keys;
    bound = All-update _ _ p f rows (λ r _ h. rw (same_id r) h) (λ r _ h. h) ok.bound;
    slugs =
        Unique-update same_slug p f rows (λ a b. rw (same_slug_of a)) (λ a b. rw (same_slug_of b))
          ok.slugs;
  }

  pub ProjectsOk-delete : (p : ProjectRow → Bool) → ProjectsOk (filter p rows) last
  ProjectsOk-delete p = record {
    keys = Distinct-filter (λ r. r.id) p rows ok.keys;
    bound = All-filter _ p rows ok.bound;
    slugs = Unique-filter same_slug p rows ok.slugs;
  }

-- An app with no webhook clashes with none.
pub not_the_empty : (s : Text) → (not (is_empty s) && text_eq s []) ≡ false
unfolding text_eq
not_the_empty [] = refl
not_the_empty (c ∷ s) = refl

no_clash : (a : App) → a.hook_id ≡ [] → (bs : List App) → any (λ b. same_hook b a) bs ≡ false
unfolding any same_hook
no_clash a e [] = refl
no_clash a e (b ∷ bs) = rw (e, not_the_empty b.hook_id) (no_clash a e bs)

module _ (projects : List ℕ) (rows : List App) (last : ℕ) (ok : AppsOk projects rows last) where
  pub AppsOk-parents : (projects' : List ℕ) → Holds projects projects' → AppsOk projects' rows last
  AppsOk-parents projects' hold = record {
    keys = ok.keys;
    bound = ok.bound;
    slugs = ok.slugs;
    hooks = ok.hooks;
    parents = All-map _ _ rows (λ a. hold a.project_id) ok.parents;
  }

  pub AppsOk-insert :
      (a : App)
      → a.id ≡ suc last
      → any (λ b. (b.project_id == a.project_id) && text_eq b.slug a.slug) rows ≡ false
      → a.hook_id ≡ []
      → member a.project_id projects ≡ true
      → AppsOk projects (rows ++ a ∷ []) (suc last)
  unfolding same_app_slug same_hook
  AppsOk-insert a e free no_hook parent = record {
    keys =
        Distinct-snoc (λ b. b.id) rows a (rw e (member-above (λ b. b.id) last rows ok.bound))
          ok.keys;
    bound = All-append _ rows (a ∷ []) (le-suc (λ b. b.id) last rows ok.bound) (omega arith, tt);
    slugs = Unique-snoc same_app_slug rows a free ok.slugs;
    hooks = Unique-snoc same_hook rows a (no_clash a no_hook rows) ok.hooks;
    parents = All-append _ rows (a ∷ []) ok.parents (parent, tt);
  }

  pub AppsOk-update :
      (p : App → Bool) (f : App → App)
      → ((a : App) → (f a).id ≡ a.id)
      → ((a : App) → (f a).project_id ≡ a.project_id)
      → ((a : App) → (f a).slug ≡ a.slug)
      → Unique same_hook (update_where p f rows)
      → AppsOk projects (update_where p f rows) last
  unfolding same_app_slug
  AppsOk-update p f same_id same_project same_slug_of hooks = record {
    keys = rw (keys-update (λ a. a.id) p f rows same_id) ok.keys;
    bound = All-update _ _ p f rows (λ r _ h. rw (same_id r) h) (λ r _ h. h) ok.bound;
    slugs =
        Unique-update same_app_slug p f rows (λ a b. rw (same_slug_of a, same_project a))
          (λ a b. rw (same_slug_of b, same_project b)) ok.slugs;
    hooks = hooks;
    parents = All-update _ _ p f rows (λ r _ h. rw (same_project r) h) (λ r _ h. h) ok.parents;
  }

  pub AppsOk-delete :
      (p : App → Bool) (projects' : List ℕ)
      → ((a : App)
          → p a ≡ true
          → member a.project_id projects ≡ true
          → member a.project_id projects' ≡ true)
      → AppsOk projects' (filter p rows) last
  AppsOk-delete p projects' hold = record {
    keys = Distinct-filter (λ a. a.id) p rows ok.keys;
    bound = All-filter _ p rows ok.bound;
    slugs = Unique-filter same_app_slug p rows ok.slugs;
    hooks = Unique-filter same_hook p rows ok.hooks;
    parents = All-kept _ _ p rows hold ok.parents;
  }

module _ (apps : List ℕ) (rows : List DomainRow) (last : ℕ) (ok : DomainsOk apps rows last) where
  pub DomainsOk-parents : (apps' : List ℕ) → Holds apps apps' → DomainsOk apps' rows last
  DomainsOk-parents apps' hold = record {
    keys = ok.keys;
    bound = ok.bound;
    hosts = ok.hosts;
    parents = All-map _ _ rows (λ d. hold d.app_id) ok.parents;
  }

  pub DomainsOk-insert :
      (d : DomainRow)
      → d.id ≡ suc last
      → any (λ e. text_eq e.hostname d.hostname) rows ≡ false
      → member d.app_id apps ≡ true
      → DomainsOk apps (rows ++ d ∷ []) (suc last)
  unfolding same_host
  DomainsOk-insert d e free parent = record {
    keys =
        Distinct-snoc (λ s. s.id) rows d (rw e (member-above (λ s. s.id) last rows ok.bound))
          ok.keys;
    bound = All-append _ rows (d ∷ []) (le-suc (λ s. s.id) last rows ok.bound) (omega arith, tt);
    hosts = Unique-snoc same_host rows d free ok.hosts;
    parents = All-append _ rows (d ∷ []) ok.parents (parent, tt);
  }

  pub DomainsOk-update :
      (p : DomainRow → Bool) (f : DomainRow → DomainRow)
      → ((d : DomainRow) → (f d).id ≡ d.id)
      → ((d : DomainRow) → (f d).hostname ≡ d.hostname)
      → ((d : DomainRow) → member d.app_id apps ≡ true → member (f d).app_id apps ≡ true)
      → DomainsOk apps (update_where p f rows) last
  unfolding same_host
  DomainsOk-update p f same_id same_name parent = record {
    keys = rw (keys-update (λ d. d.id) p f rows same_id) ok.keys;
    bound = All-update _ _ p f rows (λ d _ h. rw (same_id d) h) (λ d _ h. h) ok.bound;
    hosts =
        Unique-update same_host p f rows (λ a b. rw (same_name a)) (λ a b. rw (same_name b))
          ok.hosts;
    parents = All-update _ _ p f rows (λ d _. parent d) (λ d _ h. h) ok.parents;
  }

  pub DomainsOk-delete :
      (p : DomainRow → Bool) (apps' : List ℕ)
      → ((d : DomainRow) → p d ≡ true → member d.app_id apps ≡ true → member d.app_id apps' ≡ true)
      → DomainsOk apps' (filter p rows) last
  DomainsOk-delete p apps' hold = record {
    keys = Distinct-filter (λ d. d.id) p rows ok.keys;
    bound = All-filter _ p rows ok.bound;
    hosts = Unique-filter same_host p rows ok.hosts;
    parents = All-kept _ _ p rows hold ok.parents;
  }

module _ (apps : List ℕ) (rows : List Deployment) (last : ℕ)
    (ok : DeploymentsOk apps rows last) where
  pub DeploymentsOk-parents : (apps' : List ℕ) → Holds apps apps' → DeploymentsOk apps' rows last
  DeploymentsOk-parents apps' hold = record {
    keys = ok.keys;
    bound = ok.bound;
    parents = All-map _ _ rows (λ d. hold d.app_id) ok.parents;
  }

  pub DeploymentsOk-insert :
      (d : Deployment)
      → d.id ≡ suc last
      → member d.app_id apps ≡ true
      → DeploymentsOk apps (rows ++ d ∷ []) (suc last)
  DeploymentsOk-insert d e parent = record {
    keys =
        Distinct-snoc (λ s. s.id) rows d (rw e (member-above (λ s. s.id) last rows ok.bound))
          ok.keys;
    bound = All-append _ rows (d ∷ []) (le-suc (λ s. s.id) last rows ok.bound) (omega arith, tt);
    parents = All-append _ rows (d ∷ []) ok.parents (parent, tt);
  }

  pub DeploymentsOk-update :
      (p : Deployment → Bool) (f : Deployment → Deployment)
      → ((d : Deployment) → (f d).id ≡ d.id)
      → ((d : Deployment) → (f d).app_id ≡ d.app_id)
      → DeploymentsOk apps (update_where p f rows) last
  DeploymentsOk-update p f same_id same_app = record {
    keys = rw (keys-update (λ d. d.id) p f rows same_id) ok.keys;
    bound = All-update _ _ p f rows (λ d _ h. rw (same_id d) h) (λ d _ h. h) ok.bound;
    parents = All-update _ _ p f rows (λ d _ h. rw (same_app d) h) (λ d _ h. h) ok.parents;
  }

  pub DeploymentsOk-delete :
      (p : Deployment → Bool) (apps' : List ℕ)
      → ((d : Deployment) → p d ≡ true → member d.app_id apps ≡ true → member d.app_id apps' ≡ true)
      → DeploymentsOk apps' (filter p rows) last
  DeploymentsOk-delete p apps' hold = record {
    keys = Distinct-filter (λ d. d.id) p rows ok.keys;
    bound = All-filter _ p rows ok.bound;
    parents = All-kept _ _ p rows hold ok.parents;
  }
