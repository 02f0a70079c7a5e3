-- ===== src/AppService/Hostnames.antt =====
-- The hostnames of an app: normalizeHost, parseHosts and validHost of internal/apps/apps.go
pub mod Parse
use xdev.Prelude.{
  ℕ, ◌&&◌, ◌||◌, Bool, not, List, [], ◌∷◌, ◌++◌, map, Option, none, some, leb, ◌==◌, if◌then◌else◌,
  is_empty, all, Text, codes, trim_space, lower_rune, has_prefix, has_suffix, one_of, fields_func,
}
use xdev.Prelude.Result.{Result, ok, err}

pub data HostError : Type 0 where
  domain_required : HostError
  invalid_domain bad_characters listed_twice : Text → HostError

unfoldable pub normalize_host : (ℕ → ℕ) → Text → Text
unfolding trim_space lower_rune
normalize_host fold h = trim_space (map (lower_rune fold) h)

unfoldable pub is_host_rune : ℕ → Bool
is_host_rune r =
    (leb b'a' r && leb r b'z') || (leb b'0' r && leb r b'9') || (r == b'-') || (r == b'.')

unfoldable pub valid_host : Text → Option HostError
unfolding has_prefix has_suffix is_host_rune all
valid_host h =
    if is_empty h
    then some domain_required
    else if has_prefix h (codes ".") || has_suffix h (codes ".")
    then some (invalid_domain h)
    else if not (all is_host_rune h)
    then some (bad_characters h)
    else none

-- The runes that separate names: comma, semicolon, space, tab and the line ends.
unfoldable pub is_separator : ℕ → Bool
is_separator r = (r == b',') || (r == b';') || (r == b' ') || (r == 9) || (r == 10) || (r == 13)

-- The loop over the fields; `out` holds the names before.
unfoldable pub parse_fields : (ℕ → ℕ) → List Text → List Text → Result HostError (List Text)
parse_fields fold [] out = ok out
parse_fields fold (f ∷ fields) out =
    let host = normalize_host fold f in
    elim (valid_host host) [
      | some e ↦ err e
      | none ↦
          let rest = parse_fields fold fields (out ++ host ∷ []) in
          if one_of host out then err (listed_twice host) else rest
    ]

unfoldable pub parse_hosts : (ℕ → ℕ) → Text → Result HostError (List Text)
parse_hosts fold raw = parse_fields fold (fields_func is_separator [] raw) []
