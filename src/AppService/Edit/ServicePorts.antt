-- ===== src/AppService/Edit/ServicePorts.antt =====
-- The slots of a compose app after an edit.
use xdev.Prelude.{
  ℕ, zero, suc, ◌+◌, ◌-◌, ◌≡◌, refl, ap, sym, ◌∙◌, inl, inr, Bool, true, List, [], ◌∷◌, ◌++◌, map,
  arith, Bool-cases, Option-cases, append-nil, append_assoc, ltb, length, take, Text,
}
use xdev.Prelude.Int.{ℤ}
use xdev.Prelude.Result.{Result, ok, err, Result-cases}
use xdev.Store.Schema.{Db, App}
use xdev.Store.Apps.{is_compose}
use xdev.Store.Domains.{ServiceDomain, app_service_domains}
use xdev.AppService.Hostnames.{normalize_host}
use xdev.AppService.Ports.{PortError}
use xdev.AppService.Ports.Alloc.{Allotted, alloc_ports-Allotted}
use xdev.AppService.Edit.{
  check_extra_host, extra_hosts, compose_extra_hosts, max_compose_slots, slot_ports, fresh_ports,
  with_slots, compose_slots, edit_service_domains,
}

extra_hosts-ok :
    (fold : ℕ → ℕ) (own : List Text) (self : ℕ) (db : Db) (domains : List Text) (slot : ℕ)
    (out hosts : List Text)
    → extra_hosts fold own self db domains slot out ≡ ok hosts
    → out ++ map (normalize_host fold) domains ≡ hosts
unfolding extra_hosts
extra_hosts-ok fold own self db [] slot out hosts h = append-nil out ∙ ground (arith, h)
extra_hosts-ok fold own self db (raw ∷ domains) slot out hosts h =
    let host = normalize_host fold raw in
    elim (Option-cases (check_extra_host own self db out slot host)) [
      | inr (e, bad) ↦ absurd (ground (arith, h, bad))
      | inl good ↦
          sym (append_assoc out (host ∷ []) (map (normalize_host fold) domains))
          ∙ extra_hosts-ok fold own self db domains (suc slot) (out ++ host ∷ []) hosts
              (ground (arith, h, good))
    ]

compose_extra_hosts-ok :
    (fold : ℕ → ℕ) (domains own hosts : List Text) (self : ℕ) (db : Db)
    → compose_extra_hosts fold domains own self db ≡ ok hosts
    → map (normalize_host fold) domains ≡ hosts
unfolding compose_extra_hosts
compose_extra_hosts-ok fold domains own hosts self db h =
    elim (Bool-cases (ltb max_compose_slots (length domains + 1))) [
      | inl many ↦ absurd (ground (arith, h, many))
      | inr few ↦ extra_hosts-ok fold own self db domains 2 [] hosts (ground (arith, h, few))
    ]

slot_ports-hosts :
    (hosts : List Text) (existing : List ServiceDomain) (fresh : List ℕ)
    → map (λ d. d.host) (slot_ports hosts existing fresh) ≡ hosts
unfolding slot_ports
slot_ports-hosts [] existing fresh = refl
slot_ports-hosts (h ∷ hosts) (d ∷ existing) fresh =
    ap (λ r. h ∷ r) (slot_ports-hosts hosts existing fresh)
slot_ports-hosts (h ∷ hosts) [] [] = ap (λ r. h ∷ r) (slot_ports-hosts hosts [] [])
slot_ports-hosts (h ∷ hosts) [] (p ∷ fresh) = ap (λ r. h ∷ r) (slot_ports-hosts hosts [] fresh)

take_none : (n : ℕ) (ports : List ℕ) → ports ≡ [] → take n ports ≡ []
take_none n (p ∷ ports) e = absurd (ground (arith, e))
take_none zero [] e = refl
take_none (suc n) [] e = refl

slot_ports-ports :
    (hosts : List Text) (existing : List ServiceDomain) (fresh : List ℕ)
    → length fresh ≡ length hosts - length existing
    → map (λ d. d.port) (slot_ports hosts existing fresh)
      ≡ take (length hosts) (map (λ d. d.port) existing) ++ fresh
unfolding slot_ports
slot_ports-ports [] existing [] e = refl
slot_ports-ports [] existing (p ∷ fresh) e = absurd (omega (arith, e))
slot_ports-ports (h ∷ hosts) (d ∷ existing) fresh e =
    ap (λ r. d.port ∷ r) (slot_ports-ports hosts existing fresh (omega (arith, e)))
slot_ports-ports (h ∷ hosts) [] [] e = absurd (omega (arith, e))
slot_ports-ports (h ∷ hosts) [] (p ∷ fresh) e =
    ap (λ r. p ∷ r)
      (slot_ports-ports hosts [] fresh (omega (arith, e))
        ∙ ap (λ r. r ++ fresh) (take_none (length hosts) [] refl))

-- The fresh ports are as many as there are new slots.
fresh_ports-Allotted :
    (cast : Text → ℤ) (free : ℕ → Bool) (app : App) (existing : List ServiceDomain) (hosts : ℕ)
    (db : Db) (fresh : List ℕ)
    → fresh_ports cast free app existing hosts db ≡ ok fresh
    → Allotted cast free (hosts - length existing) (app.port ∷ map (λ d. d.port) existing) db fresh
unfolding fresh_ports
fresh_ports-Allotted cast free app existing hosts db fresh h =
    elim (Bool-cases (ltb (length existing) hosts)) [
      | inl more ↦
          alloc_ports-Allotted cast free (hosts - length existing)
            (app.port ∷ map (λ d. d.port) existing) db fresh (ground (arith, h, more))
      | inr same ↦
          let nothing : [] ≡ fresh = ground (arith, h, same) in
          rw (sym nothing) record { exact = ground (arith, same); distinct = tt; usable = tt }
    ]

-- What an edit gives a compose app: the submitted hostnames in their order, the ports of the slots
-- that were there, in their order, and fresh ports for the slots that are new.
pub record Slots (cast : Text → ℤ) (free : ℕ → Bool) (fold : ℕ → ℕ) (app : App)
    (domains : List Text) (db : Db) (out : List ServiceDomain) : Type 0 where
  pub fresh : List ℕ
  pub hosts : map (λ d. d.host) out ≡ map (normalize_host fold) domains
  pub ports :
      map (λ d. d.port) out
      ≡ take (length domains) (map (λ d. d.port) (app_service_domains app.id db)) ++ fresh
  pub allotted :
      Allotted cast free
        (length domains - length (app_service_domains app.id db))
        (app.port ∷ map (λ d. d.port) (app_service_domains app.id db))
        db
        fresh

length-names :
    (fold : ℕ → ℕ) (domains : List Text)
    → length (map (normalize_host fold) domains) ≡ length domains
length-names fold [] = refl
length-names fold (d ∷ domains) = ground (arith, length-names fold domains)

length_hosts :
    (fold : ℕ → ℕ) (domains hosts : List Text)
    → map (normalize_host fold) domains ≡ hosts
    → length hosts ≡ length domains
length_hosts fold domains hosts n = sym (ap length n) ∙ length-names fold domains

with_slots-Slots :
    (cast : Text → ℤ) (free : ℕ → Bool) (fold : ℕ → ℕ) (app : App) (domains hosts : List Text)
    (db : Db) (out : List ServiceDomain) (fresh : Result PortError (List ℕ))
    → map (normalize_host fold) domains ≡ hosts
    → fresh ≡ fresh_ports cast free app (app_service_domains app.id db) (length hosts) db
    → with_slots hosts (app_service_domains app.id db) fresh ≡ ok out
    → Slots cast free fold app domains db out
unfolding with_slots
with_slots-Slots cast free fold app domains hosts db out (err e) n f h = absurd (ground (arith, h))
with_slots-Slots cast free fold app domains hosts db out (ok fresh) n f h =
    let existing = app_service_domains app.id db in
    let given = fresh_ports-Allotted cast free app existing (length hosts) db fresh (sym f) in
    let made : slot_ports hosts existing fresh ≡ out = ground (arith, h) in
    let same = length_hosts fold domains hosts n in
    record {
      fresh = fresh;
      hosts = rw (sym made) (slot_ports-hosts hosts existing fresh ∙ sym n);
      ports = rw (sym made, sym same) (slot_ports-ports hosts existing fresh given.exact);
      allotted = rw (sym same) given;
    }

-- Where an edit of a compose app is accepted, its further domains are the submitted hostnames in their
-- order; the slots that were there keep their ports, and each new slot has a fresh port, unused, free
-- on the host, and different from the app's own, from those of its other slots and from each other.
pub edit_service_domains-Slots :
    (cast : Text → ℤ) (free : ℕ → Bool) (fold : ℕ → ℕ) (app : App) (field : Text)
    (domains own : List Text) (db : Db) (out : List ServiceDomain)
    → is_compose app ≡ true
    → edit_service_domains cast free fold app field domains own db ≡ ok out
    → Slots cast free fold app domains db out
unfolding edit_service_domains compose_slots
edit_service_domains-Slots cast free fold app field domains own db out compose h =
    elim (Result-cases (compose_extra_hosts fold domains own app.id db)) [
      | inr (e, bad) ↦ absurd (ground (arith, h, compose, bad))
      | inl (hosts, good) ↦
          with_slots-Slots cast free fold app domains hosts db out _
            (compose_extra_hosts-ok fold domains own hosts app.id db good) refl
            (ground (arith, h, compose, good))
    ]
