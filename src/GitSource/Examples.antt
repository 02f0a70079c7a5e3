-- ===== src/GitSource/Examples.antt =====
-- Runs of internal/gitsrc.
use xdev.Prelude.{
  ℕ, ◌≡◌, refl, true, false, List, [], ◌∷◌, map, Text, codes, lower_rune, has_suffix, all, join,
}
use xdev.Prelude.Result.{ok, err}
use xdev.GitSource.{
  Repo, canonical, https_url, ssh_url, parse_repo, subdir_of, has_credentials, not_scp, outside,
}
use xdev.GitSource.Canonical.{IsCanonical}
use xdev.GitSource.Forms.{parse_repo-forms}
use xdev.GitSource.Commands.{
  Git, run, reset_args, and_then, return, continue_with, answer, head_sha, set_url, fetch_args,
  checkout_args, update_to, tracked, update_from, default_branch, first_branch, branch_of,
}
use xdev.GitSource.Commands.Default.{symref_line, default_branch-reads}

abbrev lower : Text → Text
lower s = map (lower_rune (λ c. c)) s

abbrev xdev_repo : Repo
xdev_repo = record { host = codes "github.com"; owner = codes "leyume"; name = codes "xdev" }

xdev_repo-IsCanonical : IsCanonical lower xdev_repo
unfolding all xdev.Prelude.is_space xdev.Prelude.contains_rune lower_rune has_suffix
xdev_repo-IsCanonical = record {
  host = record { nonempty = refl; only_plain = refl };
  owner = record { nonempty = refl; only_plain = refl };
  name = record { nonempty = refl; only_plain = refl };
  lowered = refl;
  bare = refl;
}

parse_repo-forms_example :
    (parse_repo lower (canonical xdev_repo) ≡ ok xdev_repo)
    × (parse_repo lower (https_url xdev_repo) ≡ ok xdev_repo)
    × (parse_repo lower (ssh_url xdev_repo) ≡ ok xdev_repo)
parse_repo-forms_example = parse_repo-forms lower xdev_repo xdev_repo-IsCanonical

shorthand : parse_repo lower (codes "leyume/xdev") ≡ ok xdev_repo
unfolding parse_repo xdev.Prelude.trim_space xdev.Prelude.contains_any xdev.Prelude.cut_prefix
    xdev.Prelude.cut xdev.Prelude.split xdev.Prelude.before xdev.Prelude.trim_suffix lower_rune
shorthand = refl

browser_page :
    parse_repo lower (codes "https://GitHub.com/leyume/xdev/tree/main?tab=x") ≡ ok xdev_repo
unfolding parse_repo xdev.Prelude.trim_space xdev.Prelude.contains_any xdev.Prelude.cut_prefix
    xdev.Prelude.cut xdev.Prelude.split xdev.Prelude.before xdev.Prelude.trim_suffix lower_rune
browser_page = refl

token_in_url : parse_repo lower (codes "https://token@github.com/leyume/xdev") ≡ err has_credentials
unfolding parse_repo xdev.Prelude.trim_space xdev.Prelude.contains_any xdev.Prelude.cut_prefix
    xdev.Prelude.cut xdev.Prelude.has_prefix
token_in_url = refl

scp_without_colon : parse_repo lower (codes "git@github.com/leyume/xdev") ≡ err not_scp
unfolding parse_repo xdev.Prelude.trim_space xdev.Prelude.contains_any xdev.Prelude.cut_prefix
    xdev.Prelude.cut
scp_without_colon = refl

subdir_inside : subdir_of (codes "/srv/app") (codes "/apps/../web/") ≡ ok (codes "/srv/app/web")
unfolding subdir_of xdev.Prelude.trim xdev.Prelude.trim_space xdev.Prelude.text_eq
    xdev.Prelude.Paths.clean xdev.Prelude.join xdev.Prelude.split xdev.Prelude.has_prefix
    xdev.Prelude.Paths.join_path xdev.Prelude.filter
subdir_inside = refl

subdir_outside : subdir_of (codes "/srv/app") (codes "apps/../../x") ≡ err outside
unfolding subdir_of xdev.Prelude.trim xdev.Prelude.trim_space xdev.Prelude.text_eq
    xdev.Prelude.Paths.clean xdev.Prelude.join xdev.Prelude.split xdev.Prelude.has_prefix
subdir_outside = refl

-- A remote whose HEAD points to main.
abbrev main_remote : Git
main_remote _ = ok (
    join b'\n'
      (codes "warning: redirecting" ∷ symref_line (codes "main") ∷ codes "1f2e HEAD" ∷ [] ∷ []))

default_branch-reads_example : (default_branch main_remote (codes "u")).result ≡ ok (codes "main")
unfolding xdev.Prelude.contains_rune xdev.Prelude.trim_space xdev.Prelude.has_prefix
default_branch-reads_example =
    default_branch-reads main_remote (codes "u") (codes "main") (codes "warning: redirecting" ∷ [])
      (codes "1f2e HEAD" ∷ [] ∷ []) refl refl refl (refl, tt) (refl, tt) (refl, (refl, tt)) refl

-- With no branch given, an update fetches the default one.
abbrev main_fetched : List (List Text)
main_fetched =
    set_url (codes "u")
    ∷ (codes "ls-remote" ∷ codes "--symref" ∷ codes "u" ∷ codes "HEAD" ∷ [])
    ∷ fetch_args (codes "main")
    ∷ checkout_args (codes "main")
    ∷ reset_args
    ∷ (codes "rev-parse" ∷ codes "HEAD" ∷ [])
    ∷ []

main_remote_updates : (update_from main_remote (codes "u") (codes "")).commands ≡ main_fetched
unfolding update_from run and_then continue_with answer return tracked default_branch first_branch
    branch_of update_to head_sha set_url fetch_args checkout_args xdev.Prelude.trim_space
    xdev.Prelude.cut_prefix xdev.Prelude.split xdev.Prelude.before join
main_remote_updates = refl
