-- ===== src/ProjectService/Stamp.antt =====
-- What Configure writes on a project and on the hostnames of its apps.
use xdev.Prelude.{ℕ, ◌≡◌, ◌⊎◌, Bool, false, List, Text, codes, if◌then◌else◌}
use xdev.Store.Schema.{App, DomainRow}
use xdev.Store.Projects.{app_in_project}

-- Local projects get certificates of Caddy's own authority, the others those of Let's Encrypt.
abbrev pub cert_mode : Bool → Text
cert_mode is_local = if is_local then codes "internal" else codes "letsencrypt"

-- A hostname of another project's app, or one with the local flag and the certificate mode given.
abbrev pub Stamped : List App → ℕ → Bool → DomainRow → Type 0
Stamped apps project is_local d =
    (app_in_project apps project d.app_id ≡ false)
    ⊎ ((d.is_local ≡ is_local) × (d.ssl_mode ≡ cert_mode is_local))
