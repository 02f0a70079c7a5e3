-- ===== src/GitSource.antt =====
-- internal/gitsrc: repositories, what git is asked to do, and resolveGit of internal/apps/gitapp.go.
-- A run of git is a function from the arguments to its output or its error; `lower` is
-- strings.ToLower.
pub mod Canonical
pub mod Commands
pub mod Forms
mod Examples
use xdev.Prelude.{
  ℕ, ◌==◌, ◌&&◌, ◌||◌, Bool, true, false, not, List, [], ◌∷◌, ◌++◌, map, Option, none, some,
  if◌then◌else◌, length, is_empty, Text, codes, text_eq, trim, trim_space, cut_prefix, has_prefix,
  contains_rune, contains_any, split, trim_suffix, cut, before, any,
}
use xdev.Prelude.Result.{Result, ok, err}
use xdev.Prelude.Paths.{slash, clean, join_path, dot_dot}

abbrev pub default_host : Text
default_host = codes "github.com"

pub record Repo : Type 0 where
  pub host : Text
  pub owner : Text
  pub name : Text

unfoldable pub canonical : Repo → Text
canonical r = codes "https://" ++ (r.host ++ (codes "/" ++ (r.owner ++ (codes "/" ++ r.name))))

unfoldable pub https_url : Repo → Text
unfolding canonical
https_url r = canonical r ++ codes ".git"

unfoldable pub ssh_url : Repo → Text
ssh_url r =
    codes "git@" ++ (r.host ++ (codes ":" ++ (r.owner ++ (codes "/" ++ (r.name ++ codes ".git")))))

unfoldable pub web_url : Repo → Text
unfolding canonical
web_url r = canonical r

unfoldable pub keys_url : Repo → Text
unfolding canonical
keys_url r = canonical r ++ codes "/settings/keys"

pub data RepoError : Type 0 where
  required has_spaces not_scp has_credentials invalid : RepoError

unfoldable pub strip_scheme : List Text → Text → Text
strip_scheme [] s = s
strip_scheme (scheme ∷ schemes) s = elim (cut_prefix s scheme) [
  | none ↦ strip_scheme schemes s
  | some rest ↦ rest
]

-- A user other than git is refused.
unfoldable pub drop_user : Text → Result RepoError Text
drop_user s = elim (cut b'@' s) [
  | none ↦ ok s
  | some (user, rest) ↦ if has_prefix s (codes "git@") then ok rest else err has_credentials
]

-- The forms with a scheme or with none.
unfoldable pub parse_url : Text → Result RepoError Text
unfolding strip_scheme drop_user
parse_url s = drop_user (strip_scheme (codes "https://" ∷ codes "http://" ∷ codes "ssh://" ∷ []) s)

-- host/owner/name, out of any of the forms.
unfoldable pub parse_form : Text → Result RepoError Text
unfolding parse_url
parse_form s = elim (cut_prefix s (codes "git@")) [
  | some rest ↦ elim (cut b':' rest) [
    | none ↦ err not_scp
    | some (host, path) ↦ ok (host ++ (codes "/" ++ path))
  ]
  | none ↦ parse_url s
]

unfoldable pub tidy : Text → Text
tidy s = before b'#' (before b'?' (trim_suffix (trim (λ c. c == slash) s) (codes ".git")))

-- "owner/name" with no host means GitHub.
unfoldable pub with_host : List Text → List Text
with_host (owner ∷ name ∷ []) =
    if not (contains_rune owner b'.') then default_host ∷ owner ∷ name ∷ [] else owner ∷ name ∷ []
with_host parts = parts

unfoldable pub to_repo : (Text → Text) → List Text → Result RepoError Repo
to_repo lower (host ∷ owner ∷ name ∷ rest) =
    if is_empty (lower host) || is_empty owner || is_empty name
    then err invalid
    else ok (record { host = lower host; owner = owner; name = name })
to_repo lower parts = err invalid

unfoldable pub from_form : (Text → Text) → Result RepoError Text → Result RepoError Repo
unfolding tidy with_host to_repo
from_form lower (err e) = err e
from_form lower (ok s) = to_repo lower (with_host (split slash (tidy s)))

unfoldable pub parse_repo : (Text → Text) → Text → Result RepoError Repo
unfolding from_form parse_form
parse_repo lower raw =
    let s = trim_space raw in
    if is_empty s
    then err required
    else if contains_any s (b' ' ∷ b'\t' ∷ b'\n' ∷ b'\r' ∷ [])
    then err has_spaces
    else from_form lower (parse_form s)

pub record Source : Type 0 where
  pub repo : Repo
  pub ref : Text
  pub key : Text

unfoldable pub clone_url : Source → Text
unfolding ssh_url https_url
clone_url s = if not (is_empty s.key) then ssh_url s.repo else https_url s.repo

pub data SubdirError : Type 0 where
  outside : SubdirError

unfoldable pub escapes : Text → Bool
escapes c = text_eq c dot_dot || has_prefix c (codes "../")

unfoldable pub subdir_of : Text → Text → Result SubdirError Text
unfolding escapes
subdir_of root subdir =
    let sub = trim (λ c. c == slash) (trim_space subdir) in
    if is_empty sub
    then ok root
    else if escapes (clean sub)
    then err outside
    else ok (join_path (root ∷ clean sub ∷ []))
