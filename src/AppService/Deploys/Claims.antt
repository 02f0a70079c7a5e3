-- ===== src/AppService/Deploys/Claims.antt =====
-- Which rows the goroutines stand behind, and how that follows the goroutines.
use xdev.Prelude.{
  ℕ, zero, suc, ◌≡◌, refl, ap, sym, ◌∙◌, inl, inr, ◌==◌, ==_refl, ◌&&◌, ◌||◌, Bool, true, false,
  not, List, [], ◌∷◌, map, none, some, arith, Bool-cases, codes, text_eq, filter, any, all,
  get_elem?, In,
}
use xdev.Store.Schema.{Deployment}
use xdev.Store.Table.{update_where}
use xdev.Store.Ranking.{member, Distinct}
use xdev.Store.Deployments.{is_running}
use xdev.AppService.Deploys.{release}
use xdev.AppService.Deploys.Creation.{FirstBuild}
use xdev.AppService.Deploys.Steps.{DeployJob, Phase, building, built, finished, is_job, set_phase}

-- A goroutine that has not finished its row yet.
abbrev pub is_open : Phase → Bool
is_open building = true
is_open (built r) = true
is_open finished = false

-- What a goroutine reports is an end: its status is not the running one.
unfoldable pub settled : Phase → Bool
settled building = true
settled (built r) = not (text_eq r.status (codes "running"))
settled finished = true

abbrev pub app_id : DeployJob → ℕ
app_id j = j.app.id

-- The goroutine `j` is still to finish_row the row `d`.
unfoldable pub drives : Deployment → DeployJob → Bool
drives d j = (j.app.id == d.app_id) && (j.row == d.id) && is_open j.phase

-- A row that is running has a goroutine that is still to finish_row it.
unfoldable pub backed : List DeployJob → Deployment → Bool
unfolding is_running drives any
backed jobs d = not (is_running d) || any (drives d) jobs

abbrev pub has_row : ℕ → FirstBuild → Bool
has_row id f = elim (f.row) [ none ↦ false | some row ↦ row == id ]

-- A row of a first build that is at work.
unfoldable pub of_create : List FirstBuild → Deployment → Bool
unfolding any
of_create firsts d = any (has_row d.id) firsts

-- A running row has a goroutine that is still to finish it, or it is the row of a first build.
unfoldable pub held : List FirstBuild → List DeployJob → Deployment → Bool
unfolding backed of_create
held firsts jobs d = backed jobs d || of_create firsts d

pub all-filter :
    {A : Type 0} (p q : A → Bool) (xs : List A) → all p xs ≡ true → all p (filter q xs) ≡ true
unfolding all filter
all-filter p q [] h = refl
all-filter p q (x ∷ xs) h = ground (arith, all-filter p q xs)

pub all-implies :
    {A : Type 0} (p q : A → Bool) (xs : List A)
    → ((x : A) → p x ≡ true → q x ≡ true)
    → all p xs ≡ true
    → all q xs ≡ true
unfolding all
all-implies p q [] i h = refl
all-implies p q (x ∷ xs) i h = ground (arith, i x, all-implies p q xs i)

pub get_elem?-In : {A : Type 0} (xs : List A) (n : ℕ) (x : A) → get_elem? xs n ≡ some x → In x xs
get_elem?-In [] n x h = absurd (ground (arith, h))
get_elem?-In (y ∷ xs) zero x h = inl (ground (arith, h))
get_elem?-In (y ∷ xs) (suc n) x h = inr (get_elem?-In xs n x h)

pub all-In :
    {A : Type 0} (p : A → Bool) (xs : List A) (x : A) → all p xs ≡ true → In x xs → p x ≡ true
unfolding all
all-In p [] x h m = elim m [ ]
all-In p (y ∷ xs) x h m = ground (arith, all-In p xs x)

pub any-In :
    {A : Type 0} (p : A → Bool) (xs : List A) → any p xs ≡ true → (x : A) × (In x xs) × (p x ≡ true)
unfolding any
any-In p [] h = absurd (ground (arith, h))
any-In p (y ∷ xs) h = elim (Bool-cases (p y)) [
  | inl e ↦ (y, inl refl, e)
  | inr e ↦ let rest = any-In p xs (ground (arith, h, e)) in (rest.0, inr rest.1, rest.2)
]

-- A change of phase keeps the goroutine of a row, unless it is the one that finishes it.
pub any-set_phase :
    (d : Deployment) (app row : ℕ) (ph : Phase) (jobs : List DeployJob)
    → (is_open ph || not (row == d.id)) ≡ true
    → any (drives d) jobs ≡ true
    → any (drives d) (set_phase app row ph jobs) ≡ true
unfolding any drives set_phase update_where is_job
any-set_phase d app row ph [] o h = h
any-set_phase d app row ph (j ∷ jobs) o h = ground (arith, any-set_phase d app row ph jobs o)

pub set_phase-apps :
    (app row : ℕ) (ph : Phase) (jobs : List DeployJob)
    → map app_id (set_phase app row ph jobs) ≡ map app_id jobs
unfolding set_phase update_where is_job
set_phase-apps app row ph [] = refl
set_phase-apps app row ph (j ∷ jobs) = ground (arith, set_phase-apps app row ph jobs)

pub set_phase-settled :
    (app row : ℕ) (ph : Phase) (jobs : List DeployJob)
    → settled ph ≡ true
    → all (λ j. settled j.phase) jobs ≡ true
    → all (λ j. settled j.phase) (set_phase app row ph jobs) ≡ true
unfolding all set_phase update_where
set_phase-settled app row ph [] e h = refl
set_phase-settled app row ph (j ∷ jobs) e h = ground (arith, set_phase-settled app row ph jobs e)

pub In-member_app :
    (j : DeployJob) (jobs : List DeployJob) → In j jobs → member j.app.id (map app_id jobs) ≡ true
unfolding member
In-member_app j [] m = elim m [ ]
In-member_app j (k ∷ jobs) (inl e) = rw (e, ==_refl k.app.id) refl
In-member_app j (k ∷ jobs) (inr m) = ground (arith, In-member_app j jobs m)

-- A goroutine is the only one of its app.
pub Distinct-one :
    (j k : DeployJob) (jobs : List DeployJob)
    → Distinct (map app_id jobs)
    → In j jobs
    → In k jobs
    → (j.app.id == k.app.id) ≡ true
    → j ≡ k
Distinct-one j k [] u mj mk e = elim mj [ ]
Distinct-one j k (i ∷ jobs) u (inl a) (inl b) e = a ∙ sym b
Distinct-one j k (i ∷ jobs) u (inl a) (inr b) e =
    absurd (ground (arith, a, u.0, e, In-member_app k jobs b))
Distinct-one j k (i ∷ jobs) u (inr a) (inl b) e =
    absurd (ground (arith, b, u.0, e, In-member_app j jobs a))
Distinct-one j k (i ∷ jobs) u (inr a) (inr b) e = Distinct-one j k jobs u.1 a b e

-- Ids that are not there are released without effect.
pub release-absent : (id : ℕ) (ids : List ℕ) → member id ids ≡ false → release id ids ≡ ids
unfolding release member filter
release-absent id [] h = refl
release-absent id (i ∷ ids) h = ground (arith, release-absent id ids)

keep-absent :
    (app row : ℕ) (jobs : List DeployJob)
    → member app (map app_id jobs) ≡ false
    → filter (λ k. not (is_job app row k)) jobs ≡ jobs
unfolding member filter is_job
keep-absent app row [] h = refl
keep-absent app row (k ∷ jobs) h = ground (arith, keep-absent app row jobs)

absent :
    (j k : DeployJob) (jobs : List DeployJob)
    → j ≡ k
    → member k.app.id (map app_id jobs) ≡ false
    → member j.app.id (map app_id jobs) ≡ false
absent j k jobs e u = ap (λ i. member i.app.id (map app_id jobs)) e ∙ u

-- A goroutine that ends takes its claim with it, and no other.
pub leave-apps :
    (j : DeployJob) (jobs : List DeployJob)
    → Distinct (map app_id jobs)
    → In j jobs
    → map app_id (filter (λ k. not (is_job j.app.id j.row k)) jobs)
      ≡ release j.app.id (map app_id jobs)
unfolding filter is_job release
leave-apps j [] u m = elim m [ ]
leave-apps j (k ∷ jobs) u (inl e) =
    let gone = absent j k jobs e u.0 in
    ground (
      arith,
      ap app_id e,
      ap (λ i. i.row) e,
      keep-absent j.app.id j.row jobs gone,
      release-absent j.app.id (map app_id jobs) gone,
    )
leave-apps j (k ∷ jobs) u (inr m) =
    ground (arith, u.0, In-member_app j jobs m, leave-apps j jobs u.1 m)

-- A goroutine that has finished its row leaves every other one in place.
pub leave-drives :
    (d : Deployment) (j : DeployJob) (jobs : List DeployJob)
    → Distinct (map app_id jobs)
    → In j jobs
    → is_open j.phase ≡ false
    → any (drives d) jobs ≡ true
    → any (drives d) (filter (λ k. not (is_job j.app.id j.row k)) jobs) ≡ true
unfolding any filter is_job drives
leave-drives d j [] u m o h = elim m [ ]
leave-drives d j (k ∷ jobs) u (inl e) o h = ground (
  arith,
  ap app_id e,
  ap (λ i. i.row) e,
  ap (λ i. is_open i.phase) e,
  o,
  h,
  keep-absent j.app.id j.row jobs (absent j k jobs e u.0),
)
leave-drives d j (k ∷ jobs) u (inr m) o h =
    ground (arith, u.0, In-member_app j jobs m, leave-drives d j jobs u.1 m o)

release-member :
    (id i : ℕ) (ids : List ℕ) → member i ids ≡ false → member i (release id ids) ≡ false
unfolding release member filter
release-member id i [] h = refl
release-member id i (k ∷ ids) h = ground (arith, release-member id i ids)

pub Distinct-release : (id : ℕ) (ids : List ℕ) → Distinct ids → Distinct (release id ids)
unfolding release filter
Distinct-release id [] u = tt
Distinct-release id (i ∷ ids) u = elim (Bool-cases (i == id)) [
  | inl e ↦ rw e (Distinct-release id ids u.1)
  | inr e ↦ rw e (release-member id i ids u.0, Distinct-release id ids u.1)
]
