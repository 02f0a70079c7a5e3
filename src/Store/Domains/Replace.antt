-- ===== src/Store/Domains/Replace.antt =====
-- What ReplaceAppDomains writes is what AppHostnames and AppServiceDomains read, or nothing changes.
use xdev.Prelude.{
  ℕ, ◌<◌, ◌≡◌, ap, ◌∙◌, ◌⊎◌, inl, inr, Bool, true, false, not, ◌&&◌, List, [], ◌∷◌, append-nil,
  ◌++◌, map, arith, Bool-cases, Option-cases, ltb, ◌==◌, if◌then◌else◌, is_empty, Text, filter, All,
}
use xdev.Prelude.Result.{ok, err}
use xdev.Store.Schema.{Db, DomainRow, constraint}
use xdev.Store.Consistent.{IsConsistent}
use xdev.Store.Consistent.DomainWrites.{clear_domains-IsConsistent}
use xdev.Store.Domains.{
  ServiceDomain, domain_before, service_rows, app_service_domains, app_hostnames, insert_services,
  insert_hostnames, clear_domains, replace_app_domains,
}
use xdev.Store.Domains.Insert.{insert_services-Grown, insert_hostnames-Grown}
use xdev.Store.Table.{order_by}

filter-cleared :
    (app other : ℕ) (b : DomainRow → Bool) (rows : List DomainRow)
    → filter (λ d. (d.app_id == other) && b d) (filter (λ d. not (d.app_id == app)) rows)
      ≡ (if app == other then [] else filter (λ d. (d.app_id == other) && b d) rows)
unfolding filter
filter-cleared app other b [] = ground arith
filter-cleared app other b (d ∷ rows) = ground (arith, filter-cleared app other b rows)

cleared :
    {A : Type 0} (app other : ℕ) (f : DomainRow → A) (b : DomainRow → Bool) (rows : List DomainRow)
    → map f (
        order_by domain_before
          (filter (λ d. (d.app_id == other) && b d) (filter (λ d. not (d.app_id == app)) rows)))
      ≡ (if app == other
          then []
          else map f (order_by domain_before (filter (λ d. (d.app_id == other) && b d) rows)))
unfolding order_by
cleared app other f b rows = elim (Bool-cases (app == other)) [
  | inl e ↦ rw (filter-cleared app other b rows, e)
  | inr e ↦ rw (filter-cleared app other b rows, e)
]

app_hostnames-clear :
    (app other : ℕ) (db : Db)
    → app_hostnames other (clear_domains app db)
      ≡ (if app == other then [] else app_hostnames other db)
unfolding app_hostnames clear_domains
app_hostnames-clear app other db = cleared app other _ (λ d. d.port == 0) db.domains

app_service_domains-clear :
    (app other : ℕ) (db : Db)
    → app_service_domains other (clear_domains app db)
      ≡ (if app == other then [] else app_service_domains other db)
unfolding app_service_domains service_rows clear_domains
app_service_domains-clear app other db = cleared app other _ (λ d. ltb 0 d.port) db.domains

-- Cleared, then grown by the first loop, then by the second.
two_loops :
    {A : Type 0} (t : Bool) (a b c d : List A) (new more : List A)
    → b ≡ (if t then [] else a)
    → c ≡ (if t then b ++ new else b)
    → d ≡ (if t then c ++ more else c)
    → d ≡ (if t then new ++ more else a)
two_loops true a b c d new more p q r = r ∙ ap (λ z. z ++ more) (q ∙ ap (λ z. z ++ new) p)
two_loops false a b c d new more p q r = r ∙ q ∙ p

-- On a consistent database, ReplaceAppDomains either fails on a constraint and leaves the database as it was, or succeeds:
-- then AppHostnames lists the given hostnames that are not empty, in the order given,
-- AppServiceDomains lists the given service domains (with positive ports) in theirs, and both lists
-- of every other app are as they were.
pub replace_app_domains-reads :
    (app : ℕ) (hosts : List Text) (svc : List ServiceDomain) (local : Bool) (ssl : Text) (db : Db)
    → IsConsistent db
    → All (λ d. 0 < d.port) svc
    → (replace_app_domains app hosts svc local ssl db ≡ (err constraint, db))
      ⊎ ((db' : Db) × (replace_app_domains app hosts svc local ssl db ≡ (ok tt, db'))
          × ((other : ℕ)
              → app_hostnames other db' ≡ (
                  if app == other
                  then filter (λ h. not (is_empty h)) hosts
                  else app_hostnames other db))
          × ((other : ℕ)
              → app_service_domains other db'
                ≡ (if app == other then svc else app_service_domains other db)))
unfolding replace_app_domains
replace_app_domains-reads app hosts svc local ssl db c ports =
    elim (Option-cases (insert_hostnames app local ssl hosts (clear_domains app db))) [
      | inl e ↦ inl (rw (e, replace_app_domains))
      | inr (mid, e) ↦
          let first =
            insert_hostnames-Grown app local ssl hosts (clear_domains app db) mid
              (clear_domains-IsConsistent app db c) e in
          elim (Option-cases (insert_services app local ssl svc mid)) [
            | inl e' ↦ inl (rw (e, replace_app_domains) (rw (e', replace_app_domains)))
            | inr (last, e') ↦
                let second =
                  insert_services-Grown app local ssl svc mid last first.still ports e' in
                inr (
                  last,
                  rw (e, replace_app_domains) (rw (e', replace_app_domains)),
                  (λ other. rw append-nil at (
                      two_loops (app == other) _ _ _ _ (filter (λ h. not (is_empty h)) hosts) []
                        (app_hostnames-clear app other db) (first.names other)
                        (second.names other))),
                  (λ other.
                      two_loops (app == other) _ _ _ _ [] svc
                        (app_service_domains-clear app other db) (first.services other)
                        (second.services other)),
                )
          ]
    ]
