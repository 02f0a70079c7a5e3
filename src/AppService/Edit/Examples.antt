-- ===== src/AppService/Edit/Examples.antt =====
-- Runs of internal/apps/edit.go.
use xdev.Prelude.{
  ℕ, ◌==◌, ◌≡◌, refl, true, false, not, List, [], ◌∷◌, Option, none, some, Bool, if◌then◌else◌, map,
  Text, codes, lower_rune, text_eq,
}
use xdev.Prelude.Int.{ℤ, pos}
use xdev.Prelude.Result.{ok, err}
use xdev.Store.Schema.{App, Db, type_compose, type_static, serve_command}
use xdev.Store.Domains.{ServiceDomain}
use xdev.Store.Sample.{sample, app, domain}
use xdev.AppService.Edit.{edit_service_domains, used_domain, own_domain}
use xdev.AppService.Edit.ServicePorts.{Slots, edit_service_domains-Slots}
use xdev.AppService.Edit.HostApps.{
  Stat, directory, missing, GitOpts, HostOpts, edit_host_app, valid_source_dir, no_dir,
  default_start_cmd,
}
use xdev.AppService.Edit.HostApps.Edited.{Edited, edit_host_app-Edited}

abbrev cast : Text → ℤ
cast t = pos 0

abbrev free : ℕ → Bool
free p = true

abbrev fold : ℕ → ℕ
fold c = c

abbrev stack : App
stack = record (app 1 1 (codes "api") 1) { type = type_compose; port = 20000 }

abbrev with_slot : Db
with_slot = record sample {
  apps = stack ∷ [];
  domains =
      domain 1 1 (codes "api.test") 0
      ∷ domain 2 3 (codes "old.test") 0
      ∷ domain 3 1 (codes "db.test") 20001
      ∷ [];
}

abbrev asked : List Text
asked = codes "DB.test" ∷ codes "new.test" ∷ []

abbrev slots : List ServiceDomain
slots =
    record { host = codes "db.test"; port = 20001 }
    ∷ record { host = codes "new.test"; port = 20002 }
    ∷ []

two_slots :
    edit_service_domains cast free fold stack [] asked (codes "api.test" ∷ []) with_slot ≡ ok slots
unfolding edit_service_domains xdev.Store.Apps.is_compose text_eq
    xdev.AppService.Edit.compose_extra_hosts xdev.AppService.Hostnames.normalize_host
    xdev.AppService.Hostnames.valid_host xdev.Prelude.one_of xdev.Store.Domains.domain_owner
    xdev.Store.Domains.app_service_domains xdev.AppService.Ports.alloc_ports
    xdev.AppService.Ports.pick_ports xdev.AppService.Ports.pick_from xdev.Store.Routes.used_ports
two_slots = refl

edit_service_domains-Slots_example : Slots cast free fold stack asked with_slot slots
unfolding xdev.Store.Apps.is_compose text_eq
edit_service_domains-Slots_example =
    edit_service_domains-Slots cast free fold stack [] asked (codes "api.test" ∷ []) with_slot slots
      refl two_slots

name_of_another :
    edit_service_domains cast free fold stack [] (codes "old.test" ∷ []) [] with_slot
    ≡ err (used_domain (codes "old.test"))
unfolding edit_service_domains xdev.Store.Apps.is_compose text_eq
    xdev.AppService.Edit.compose_extra_hosts xdev.AppService.Hostnames.normalize_host
    xdev.AppService.Hostnames.valid_host xdev.Prelude.one_of xdev.Store.Domains.domain_owner
name_of_another = refl

abbrev lower : Text → Text
lower s = map (lower_rune fold) s

abbrev site : App
site = record (app 2 1 (codes "web") 2) { type = type_static }

abbrev no_git : GitOpts
no_git = record { url = []; ref = []; subdir = [] }

abbrev run_it : HostOpts
run_it = record { mode = serve_command; root = codes "/dist/"; build = []; start = [] }

abbrev running : App
running = record site {
  source_dir = codes "/home/li/web";
  serve_mode = serve_command;
  root_dir = codes "dist";
  start_cmd = default_start_cmd;
  port = 20000;
}

edited :
    edit_host_app cast free lower none
      (λ p. directory)
      sample
      site
      (codes "/home/li/web/")
      no_git
      run_it
    ≡ ok running
unfolding edit_host_app valid_source_dir xdev.Prelude.trim_space text_eq xdev.Prelude.has_prefix
    xdev.Prelude.Paths.clean xdev.Prelude.join xdev.Prelude.split
    xdev.AppService.Edit.HostApps.resolve_git xdev.AppService.Ports.alloc_ports
    xdev.AppService.Ports.pick_ports xdev.AppService.Ports.pick_from xdev.Store.Routes.used_ports
edited = refl

edit_host_app-Edited_example : Edited site running
edit_host_app-Edited_example =
    edit_host_app-Edited cast free lower none (λ p. directory) sample site (codes "/home/li/web/")
      no_git run_it running edited

typo : valid_source_dir none (λ p. missing) (codes "/home/li/wbe") ≡ err no_dir
unfolding valid_source_dir xdev.Prelude.trim_space text_eq xdev.Prelude.has_prefix
    xdev.Prelude.Paths.clean xdev.Prelude.join xdev.Prelude.split
typo = refl
