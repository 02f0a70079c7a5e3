-- ===== src/AppService/Edit.antt =====
-- Edits of an app: internal/apps/edit.go, with composeExtraHosts of internal/apps/compose.go.
-- `free` and `cast` are as for the ports of new apps, and `fold` is unicode.ToLower above ASCII.
pub mod ServicePorts
pub mod HostApps
mod Examples
use xdev.Prelude.{
  ℕ, suc, ◌+◌, ◌-◌, ◌==◌, ◌&&◌, Bool, true, false, not, List, [], ◌∷◌, ◌++◌, map, Option, none,
  some, if◌then◌else◌, ltb, length, is_empty, Text, one_of,
}
use xdev.Prelude.Int.{ℤ}
use xdev.Prelude.Result.{Result, ok, err}
use xdev.Store.Schema.{Db, App}
use xdev.Store.Apps.{is_compose}
use xdev.Store.Domains.{ServiceDomain, app_service_domains, domain_owner}
use xdev.AppService.Hostnames.{HostError, normalize_host, valid_host}
use xdev.AppService.Ports.{PortError, alloc_ports}

abbrev pub max_compose_slots : ℕ
max_compose_slots = 5

pub data EditError : Type 0 where
  too_many_domains : EditError
  blank_domain : ℕ → EditError
  bad_host : HostError → EditError
  own_domain used_domain used_twice : Text → EditError
  no_port : PortError → EditError

-- The owner of a hostname is another app than `self`.
unfoldable pub owned_elsewhere : Text → ℕ → Db → Bool
owned_elsewhere host self db = not (domain_owner host db == 0) && not (domain_owner host db == self)

-- What is wrong with the hostname of a slot; `out` holds those of the slots before it.
unfoldable pub check_extra_host : List Text → ℕ → Db → List Text → ℕ → Text → Option EditError
unfolding owned_elsewhere
check_extra_host app_domains self db out slot host =
    if is_empty host then some (blank_domain slot) else elim (valid_host host) [
      | some e ↦ some (bad_host e)
      | none ↦
          if one_of host app_domains
          then some (own_domain host)
          else if owned_elsewhere host self db
          then some (used_domain host)
          else if one_of host out
          then some (used_twice host)
          else none
    ]

-- The loop over the domains.
unfoldable pub extra_hosts :
    (ℕ → ℕ) → List Text → ℕ → Db → List Text → ℕ → List Text → Result EditError (List Text)
unfolding check_extra_host
extra_hosts fold app_domains self db [] slot out = ok out
extra_hosts fold app_domains self db (raw ∷ domains) slot out =
    let host = normalize_host fold raw in
    elim (check_extra_host app_domains self db out slot host) [
      | some e ↦ err e
      | none ↦ extra_hosts fold app_domains self db domains (suc slot) (out ++ host ∷ [])
    ]

unfoldable pub compose_extra_hosts :
    (ℕ → ℕ) → List Text → List Text → ℕ → Db → Result EditError (List Text)
unfolding extra_hosts
compose_extra_hosts fold domains app_domains self db =
    if ltb max_compose_slots (length domains + 1)
    then err too_many_domains
    else extra_hosts fold app_domains self db domains 2 []

-- The hosts in slot order: the ports that are there stay, and the rest comes from `fresh`.
unfoldable pub slot_ports : List Text → List ServiceDomain → List ℕ → List ServiceDomain
slot_ports [] existing fresh = []
slot_ports (h ∷ hosts) (d ∷ existing) fresh =
    record { host = h; port = d.port } ∷ slot_ports hosts existing fresh
slot_ports (h ∷ hosts) [] [] = record { host = h; port = 0 } ∷ slot_ports hosts [] []
slot_ports (h ∷ hosts) [] (p ∷ fresh) = record { host = h; port = p } ∷ slot_ports hosts [] fresh

-- The fresh ports; none are asked for if no slot was added.
unfoldable pub fresh_ports :
    (Text → ℤ) → (ℕ → Bool) → App → List ServiceDomain → ℕ → Db → Result PortError (List ℕ)
fresh_ports cast free app existing hosts db =
    if ltb (length existing) hosts
    then alloc_ports cast free (hosts - length existing) (app.port ∷ map (λ d. d.port) existing) db
    else ok []

unfoldable pub with_slots :
    List Text
    → List ServiceDomain
    → Result PortError (List ℕ)
    → Result EditError (List ServiceDomain)
unfolding slot_ports
with_slots hosts existing (err e) = err (no_port e)
with_slots hosts existing (ok fresh) = ok (slot_ports hosts existing fresh)

unfoldable pub compose_slots :
    (Text → ℤ)
    → (ℕ → Bool)
    → App
    → List ServiceDomain
    → Result EditError (List Text)
    → Db
    → Result EditError (List ServiceDomain)
unfolding with_slots fresh_ports
compose_slots cast free app existing (err e) db = err e
compose_slots cast free app existing (ok hosts) db =
    with_slots hosts existing (fresh_ports cast free app existing (length hosts) db)

-- Every other type keeps its set; only the hostname of the first can change.
unfoldable pub bundled_domain :
    (ℕ → ℕ)
    → App
    → Text
    → List Text
    → List ServiceDomain
    → Db
    → Result EditError (List ServiceDomain)
unfolding owned_elsewhere
bundled_domain fold app field own [] db = ok []
bundled_domain fold app field own (d ∷ rest) db =
    let asked = normalize_host fold field in
    let host = if is_empty asked then d.host else asked in
    elim (valid_host host) [
      | some e ↦ err (bad_host e)
      | none ↦
          if owned_elsewhere host app.id db
          then err (used_domain host)
          else if one_of host own
          then err (own_domain host)
          else ok (record { host = host; port = d.port } ∷ rest)
    ]

unfoldable pub edit_service_domains :
    (Text → ℤ)
    → (ℕ → Bool)
    → (ℕ → ℕ)
    → App
    → Text
    → List Text
    → List Text
    → Db
    → Result EditError (List ServiceDomain)
unfolding bundled_domain compose_slots
edit_service_domains cast free fold app service_domain extra_domains own db =
    let existing = app_service_domains app.id db in
    if not (is_compose app)
    then bundled_domain fold app service_domain own existing db
    else compose_slots cast free app existing (compose_extra_hosts fold extra_domains own app.id db)
        db
