-- ===== src/AppService/Edit/HostApps/Edited.antt =====
-- What an accepted edit of a host app promises of its row.
use xdev.Prelude.{
  ℕ, ◌==◌, ◌&&◌, ◌||◌, ◌≡◌, refl, sym, ◌⊎◌, inl, inr, Bool, true, false, not, List, [], ◌∷◌, Option,
  arith, Bool-cases, is_empty, Text, text_eq,
}
use xdev.Prelude.Int.{ℤ}
use xdev.Prelude.Result.{Result, ok, err}
use xdev.Store.Schema.{Db, App, type_go, serve_static, serve_command}
use xdev.Store.Apps.{is_git}
use xdev.AppService.Ports.{PortError, alloc_ports}
use xdev.AppService.Ports.Alloc.{Allotted, alloc_ports-Allotted}
use xdev.AppService.Edit.HostApps.{
  HostEditError, Stat, GitOpts, GitFields, HostOpts, or_default, mode_of, with_fields, take_port,
  ensure_port, edit_fields, edit_checked, edit_host_app, valid_source_dir, resolve_git,
}

-- The row `after` an edit of `before`.
pub record Edited (before after : App) : Type 0 where
  pub same_id : after.id ≡ before.id
  pub same_slug : after.slug ≡ before.slug
  pub same_type : after.type ≡ before.type
  pub mode : (after.serve_mode ≡ serve_command) ⊎ (after.serve_mode ≡ serve_static)
  pub go_runs : text_eq before.type type_go ≡ true → after.serve_mode ≡ serve_command
  pub has_command : text_eq after.serve_mode serve_command ≡ true → is_empty after.start_cmd ≡ false
  pub has_port : text_eq after.serve_mode serve_command ≡ true → (after.port == 0) ≡ false
  pub one_source : (is_empty after.git_url || is_empty after.source_dir) ≡ true

or_default-filled :
    (cmd fallback : Text) → is_empty fallback ≡ false → is_empty (or_default cmd fallback) ≡ false
unfolding or_default
or_default-filled cmd fallback e = ground (arith, e)

mode_of-two :
    (app : App) (mode : Text)
    → (mode_of app mode ≡ serve_command) ⊎ (mode_of app mode ≡ serve_static)
unfolding mode_of
mode_of-two app mode = elim (Bool-cases (text_eq app.type type_go)) [
  | inl e ↦ inl (rw (mode_of, e) refl)
  | inr e ↦ elim (Bool-cases (text_eq mode serve_command)) [
    | inl f ↦ inl (rw (mode_of, e, f) refl)
    | inr f ↦ inr (rw (mode_of, e, f) refl)
  ]
]

mode_of-go :
    (app : App) (mode : Text) → text_eq app.type type_go ≡ true → mode_of app mode ≡ serve_command
unfolding mode_of
mode_of-go app mode e = rw (mode_of, e) refl

-- The row before its port is seen to.
record Filled (before after : App) : Type 0 where
  pub id : after.id ≡ before.id
  pub slug : after.slug ≡ before.slug
  pub type : after.type ≡ before.type
  pub mode : (after.serve_mode ≡ serve_command) ⊎ (after.serve_mode ≡ serve_static)
  pub go : text_eq before.type type_go ≡ true → after.serve_mode ≡ serve_command
  pub command : text_eq after.serve_mode serve_command ≡ true → is_empty after.start_cmd ≡ false
  pub source : (is_empty after.git_url || is_empty after.source_dir) ≡ true

with_fields-command :
    (app : App) (o : HostOpts)
    → text_eq (with_fields app o).serve_mode serve_command ≡ true
    → is_empty (with_fields app o).start_cmd ≡ false
unfolding with_fields or_default
with_fields-command app o e = ground (arith, e)

with_port :
    (before after : App) (port : ℕ)
    → Filled before after
    → (port == 0) ≡ false
    → Edited before (record after { port = port })
with_port before after port f p = record {
  same_id = f.id;
  same_slug = f.slug;
  same_type = f.type;
  mode = f.mode;
  go_runs = f.go;
  has_command = f.command;
  has_port = λ _. p;
  one_source = f.source;
}

take_port-Edited :
    (cast : Text → ℤ) (free : ℕ → Bool) (db : Db) (before app after : App)
    (ports : Result PortError (List ℕ))
    → Filled before app
    → ((ps : List ℕ) → ports ≡ ok ps → Allotted cast free 1 [] db ps)
    → take_port app ports ≡ ok after
    → Edited before after
unfolding take_port
take_port-Edited cast free db before app after (err e) f a h = absurd (ground (arith, h))
take_port-Edited cast free db before app after (ok []) f a h =
    absurd (ground (arith, (a [] refl).exact))
take_port-Edited cast free db before app after (ok (p ∷ ps)) f a h =
    let set : record app { port = p } ≡ after = ground (arith, h) in
    rw (sym set) (with_port before app p f (ground (arith, (a (p ∷ ps) refl).usable.0.above)))

keep_port :
    (before app : App)
    → Filled before app
    → (text_eq app.serve_mode serve_command ≡ true → (app.port == 0) ≡ false)
    → Edited before app
keep_port before app f p = record {
  same_id = f.id;
  same_slug = f.slug;
  same_type = f.type;
  mode = f.mode;
  go_runs = f.go;
  has_command = f.command;
  has_port = p;
  one_source = f.source;
}

ensure_port-Edited :
    (cast : Text → ℤ) (free : ℕ → Bool) (db : Db) (before app after : App)
    → Filled before app
    → ensure_port cast free db app ≡ ok after
    → Edited before after
unfolding ensure_port
ensure_port-Edited cast free db before app after f h =
    elim (Bool-cases (text_eq app.serve_mode serve_command)) [
      | inr still ↦
          let same : app ≡ after = ground (arith, h, still) in
          rw (sym same) (keep_port before app f (λ runs. absurd (ground (arith, runs, still))))
      | inl runs ↦ elim (Bool-cases (app.port == 0)) [
        | inr has ↦
            let same : app ≡ after = ground (arith, h, runs, has) in
            rw (sym same) (keep_port before app f (λ _. has))
        | inl none_yet ↦
            take_port-Edited cast free db before app after (alloc_ports cast free 1 [] db) f
              (λ ps e. alloc_ports-Allotted cast free 1 [] db ps e)
              (ground (arith, h, runs, none_yet))
      ]
    ]

-- The row with the fields of the form, where the two sources are not both named.
with_fields-Filled :
    (app : App) (src : Text) (git : GitFields) (o : HostOpts)
    → (is_empty git.git_url || is_empty src) ≡ true
    → Filled app (
        with_fields
          (record app {
            source_dir = src;
            git_url = git.git_url;
            git_ref = git.git_ref;
            git_subdir = git.git_subdir;
          })
          o)
unfolding with_fields mode_of
with_fields-Filled app src git o e =
    let row : App = record app {
      source_dir = src;
      git_url = git.git_url;
      git_ref = git.git_ref;
      git_subdir = git.git_subdir;
    } in
    record {
      id = refl;
      slug = refl;
      type = refl;
      mode = mode_of-two row o.mode;
      go = mode_of-go row o.mode;
      command = with_fields-command row o;
      source = e;
    }

edit_fields-Edited :
    (cast : Text → ℤ) (free : ℕ → Bool) (db : Db) (app : App) (src : Text) (git : GitFields)
    (o : HostOpts) (after : App)
    → edit_fields cast free db app src git o ≡ ok after
    → Edited app after
unfolding edit_fields
edit_fields-Edited cast free db app src git o after h =
    elim (Bool-cases (not (is_empty git.git_url) && not (is_git app))) [
      | inl attaches ↦ absurd (ground (arith, h, attaches))
      | inr kept ↦ elim (Bool-cases (not (is_empty git.git_url) && not (is_empty src))) [
        | inl both ↦ absurd (ground (arith, h, kept, both))
        | inr one ↦
            ensure_port-Edited cast free db app
              (with_fields
                (record app {
                  source_dir = src;
                  git_url = git.git_url;
                  git_ref = git.git_ref;
                  git_subdir = git.git_subdir;
                })
                o)
              after (with_fields-Filled app src git o (ground (arith, one)))
              (ground (arith, h, kept, one))
      ]
    ]

edit_checked-Edited :
    (cast : Text → ℤ) (free : ℕ → Bool) (db : Db) (app : App) (src : Result HostEditError Text)
    (git : Result HostEditError GitFields) (o : HostOpts) (after : App)
    → edit_checked cast free db app src git o ≡ ok after
    → Edited app after
unfolding edit_checked
edit_checked-Edited cast free db app (err e) git o after h = absurd (ground (arith, h))
edit_checked-Edited cast free db app (ok src) (err e) o after h = absurd (ground (arith, h))
edit_checked-Edited cast free db app (ok src) (ok git) o after h =
    edit_fields-Edited cast free db app src git o after h

-- An accepted edit of a host app keeps the app's id, slug and type; the app serves files or runs a
-- command, and a Go app runs one; an app that runs a command has a start command and a port; and no
-- app has both a repository and a folder of the user's own.
pub edit_host_app-Edited :
    (cast : Text → ℤ) (free : ℕ → Bool) (lower : Text → Text) (home : Option Text)
    (stat : Text → Stat) (db : Db) (app : App) (source : Text) (git : GitOpts) (o : HostOpts)
    (after : App)
    → edit_host_app cast free lower home stat db app source git o ≡ ok after
    → Edited app after
unfolding edit_host_app
edit_host_app-Edited cast free lower home stat db app source git o after h =
    edit_checked-Edited cast free db app (valid_source_dir home stat source) (resolve_git lower git)
      o after h
