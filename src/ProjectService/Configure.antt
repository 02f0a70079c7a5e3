-- ===== src/ProjectService/Configure.antt =====
-- Configure of internal/projects/projects.go and its check of a base domain.
use xdev.Prelude.{
  ℕ, ◌+◌, ◌&&◌, ◌||◌, Bool, not, [], ◌∷◌, map, Option, none, some, ltb, leb, ◌==◌, if◌then◌else◌,
  is_empty, Text, codes, text_eq, trim_space, lower_rune, contains, has_prefix, has_suffix, all,
  any,
}
use xdev.Prelude.Result.{Result, ok, err}
use xdev.Store.Schema.{Project, StoreError}
use xdev.Store.Projects.{project_by_id, set_project_config}
use xdev.ProjectService.{
  ServiceError, unknown_environment, domain_too_long, domain_not_bare, domain_dots,
  domain_characters, store_failed, World, Outcome, from_store,
}

abbrev pub env_local : Text
env_local = codes "local"

abbrev pub env_prod : Text
env_prod = codes "prod"

abbrev pub max_base_domain : ℕ
max_base_domain = 200

-- The bytes of a rune in UTF-8.
abbrev rune_bytes : ℕ → ℕ
rune_bytes c = if ltb c 0x80 then 1 else if ltb c 0x800 then 2 else if ltb c 0x10000 then 3 else 4

-- len of a string
unfoldable pub byte_length : Text → ℕ
byte_length [] = 0
byte_length (c ∷ s) = rune_bytes c + byte_length s

-- strings.ContainsAny(h, ":/?#")
unfoldable pub is_url_rune : ℕ → Bool
is_url_rune c = (c == b':') || (c == b'/') || (c == b'?') || (c == b'#')

unfoldable pub is_domain_rune : ℕ → Bool
is_domain_rune r =
    (leb b'a' r && leb r b'z') || (leb b'0' r && leb r b'9') || (r == b'-') || (r == b'.')

-- The error of validBaseDomain, if any.
unfoldable pub valid_base_domain : Text → Option ServiceError
unfolding is_url_rune is_domain_rune any all
valid_base_domain h =
    if is_empty h
    then none
    else if ltb max_base_domain (byte_length h)
    then some domain_too_long
    else if contains h (codes "://") || any is_url_rune h
    then some domain_not_bare
    else if has_prefix h (codes ".") || has_suffix h (codes ".") || contains h (codes "..")
    then some domain_dots
    else if not (all is_domain_rune h)
    then some domain_characters
    else none

unfoldable pub ssl_mode_of : Bool → Text
ssl_mode_of is_local = if is_local then codes "internal" else codes "letsencrypt"

unfoldable pub configure_found : ℕ → Text → Text → Result StoreError Project → World → Outcome
unfolding ssl_mode_of
configure_found id base environment (err e) w = (err (store_failed e), w)
configure_found id base environment (ok p) w =
    let is_local = text_eq environment env_local in
    let db = (set_project_config id base environment is_local (ssl_mode_of is_local) w.db).1 in
    from_store (project_by_id id db) (record w { db = db })

unfoldable pub configure : (ℕ → ℕ) → ℕ → Text → Text → World → Outcome
configure fold id base environment w =
    let domain = map (lower_rune fold) (trim_space base) in
    elim (valid_base_domain domain) [
      | some e ↦ (err e, w)
      | none ↦
          if text_eq environment env_local || text_eq environment env_prod
          then configure_found id domain environment (project_by_id id w.db) w
          else (err unknown_environment, w)
    ]
