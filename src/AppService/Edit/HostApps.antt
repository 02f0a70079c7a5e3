-- ===== src/AppService/Edit/HostApps.antt =====
-- Edits of a host app: editHostApp of internal/apps/edit.go, validSourceDir and validUpstream of
-- internal/apps/apps.go, and resolveGit of internal/apps/gitapp.go.
pub mod Edited
use xdev.Prelude.{
  ℕ, ◌==◌, ◌&&◌, ◌||◌, ◌≡◌, ◌≢◌, ◌⊎◌, Bool, true, false, not, List, [], ◌∷◌, ◌++◌, Option, none,
  some, if◌then◌else◌, is_empty, Text, codes, text_eq, trim, trim_space, trim_prefix, trim_suffix,
  has_prefix, contains_any,
}
use xdev.Prelude.Int.{ℤ}
use xdev.Prelude.Paths.{slash, clean, join_path}
use xdev.Prelude.Result.{Result, ok, err}
use xdev.Store.Schema.{Db, App, type_go, serve_static, serve_command}
use xdev.Store.Apps.{is_git}
use xdev.GitSource.{RepoError, Repo, parse_repo, canonical, escapes}
use xdev.AppService.Ports.{PortError, alloc_ports}

-- What os.Stat answers.
pub data Stat : Type 0 where
  missing unreadable file directory : Stat

pub data HostEditError : Type 0 where
  no_home relative is_root no_dir not_a_dir : HostEditError
  bad_repo : RepoError → HostEditError
  bad_branch bad_subdir attaches_repo both_sources : HostEditError
  no_port : PortError → HostEditError

-- The directory in full; `home` is what os.UserHomeDir answers.
unfoldable pub expand_home : Option Text → Text → Option Text
expand_home home dir =
    if text_eq dir (codes "~") || has_prefix dir (codes "~/")
    then elim home [
      | none ↦ none
      | some h ↦ some (join_path (h ∷ trim_prefix dir (codes "~") ∷ []))
    ]
    else some dir

unfoldable pub check_stat : Text → Stat → Result HostEditError Text
check_stat dir missing = err no_dir
check_stat dir unreadable = err no_dir
check_stat dir file = err not_a_dir
check_stat dir directory = ok dir

unfoldable pub valid_source_dir : Option Text → (Text → Stat) → Text → Result HostEditError Text
unfolding expand_home check_stat
valid_source_dir home stat raw =
    let typed = trim_space raw in
    if is_empty typed then ok [] else elim (expand_home home typed) [
      | none ↦ err no_home
      | some dir ↦
          if not (has_prefix dir (codes "/"))
          then err relative
          else if text_eq (clean dir) (codes "/")
          then err is_root
          else check_stat (clean dir) (stat (clean dir))
    ]

pub record GitOpts : Type 0 where
  pub url : Text
  pub ref : Text
  pub subdir : Text

-- The repository, the branch and the build directory, as the row stores them.
pub record GitFields : Type 0 where
  pub git_url : Text
  pub git_ref : Text
  pub git_subdir : Text

unfoldable pub resolve_subdir : Repo → Text → Text → Result HostEditError GitFields
unfolding escapes
resolve_subdir repo ref subdir =
    if is_empty subdir
    then ok (record { git_url = canonical repo; git_ref = ref; git_subdir = [] })
    else if escapes (clean subdir)
    then err bad_subdir
    else ok (record { git_url = canonical repo; git_ref = ref; git_subdir = clean subdir })

unfoldable pub resolve_git : (Text → Text) → GitOpts → Result HostEditError GitFields
unfolding resolve_subdir
resolve_git lower opts =
    if is_empty (trim_space opts.url)
    then ok (record { git_url = []; git_ref = []; git_subdir = [] })
    else elim (parse_repo lower opts.url) [
      | err e ↦ err (bad_repo e)
      | ok repo ↦
          if contains_any (trim_space opts.ref) (codes " \t\\^~:?*[")
          then err bad_branch
          else resolve_subdir repo (trim_space opts.ref)
              (trim (λ c. c == slash) (trim_space opts.subdir))
    ]

-- What the form submits for a host app.
pub record HostOpts : Type 0 where
  pub mode : Text
  pub root : Text
  pub build : Text
  pub start : Text

abbrev pub default_start_cmd : Text
default_start_cmd = codes "npm install && npm run dev -- --host 127.0.0.1 --port $PORT --strictPort"

abbrev pub default_go_build_cmd : Text
default_go_build_cmd = codes "go build -o app ."

abbrev pub default_go_start_cmd : Text
default_go_start_cmd = codes "./app"

unfoldable pub or_default : Text → Text → Text
or_default cmd fallback = if is_empty cmd then fallback else cmd

-- The serve mode that an edit gives an app.
unfoldable pub mode_of : App → Text → Text
mode_of app mode =
    if text_eq app.type type_go
    then serve_command
    else if text_eq mode serve_command
    then serve_command
    else serve_static

-- The row with the fields of the form; the commands of a running app have defaults.
unfoldable pub with_fields : App → HostOpts → App
unfolding mode_of or_default
with_fields app o =
    let build = trim_space o.build in
    let start = trim_space o.start in
    let runs = text_eq (mode_of app o.mode) serve_command in
    let is_go = text_eq app.type type_go in
    record app {
      serve_mode = mode_of app o.mode;
      root_dir = trim (λ c. c == slash) (trim_space o.root);
      build_cmd = if runs && is_go then or_default build default_go_build_cmd else build;
      start_cmd =
          if runs
          then (if is_go
              then or_default start default_go_start_cmd
              else or_default start default_start_cmd)
          else start;
    }

unfoldable pub take_port : App → Result PortError (List ℕ) → Result HostEditError App
take_port app (err e) = err (no_port e)
take_port app (ok []) = ok app
take_port app (ok (p ∷ ps)) = ok (record app { port = p })

-- A command needs a port to run on.
unfoldable pub ensure_port : (Text → ℤ) → (ℕ → Bool) → Db → App → Result HostEditError App
unfolding take_port
ensure_port cast free db app =
    if not (text_eq app.serve_mode serve_command)
    then ok app
    else if app.port == 0
    then take_port app (alloc_ports cast free 1 [] db)
    else ok app

unfoldable pub edit_fields :
    (Text → ℤ) → (ℕ → Bool) → Db → App → Text → GitFields → HostOpts → Result HostEditError App
unfolding ensure_port with_fields
edit_fields cast free db app src git o =
    if not (is_empty git.git_url) && not (is_git app)
    then err attaches_repo
    else if not (is_empty git.git_url) && not (is_empty src)
    then err both_sources
    else ensure_port cast free db (
        with_fields
          (record app {
            source_dir = src;
            git_url = git.git_url;
            git_ref = git.git_ref;
            git_subdir = git.git_subdir;
          })
          o)

unfoldable pub edit_checked :
    (Text → ℤ)
    → (ℕ → Bool)
    → Db
    → App
    → Result HostEditError Text
    → Result HostEditError GitFields
    → HostOpts
    → Result HostEditError App
unfolding edit_fields
edit_checked cast free db app (err e) git o = err e
edit_checked cast free db app (ok src) (err e) o = err e
edit_checked cast free db app (ok src) (ok git) o = edit_fields cast free db app src git o

unfoldable pub edit_host_app :
    (Text → ℤ)
    → (ℕ → Bool)
    → (Text → Text)
    → Option Text
    → (Text → Stat)
    → Db
    → App
    → Text
    → GitOpts
    → HostOpts
    → Result HostEditError App
unfolding edit_checked
edit_host_app cast free lower home stat db app source git o =
    edit_checked cast free db app (valid_source_dir home stat source) (resolve_git lower git) o
