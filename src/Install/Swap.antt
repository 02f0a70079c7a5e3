-- ===== src/Install/Swap.antt =====
-- What a successful Install leaves, and how Restore takes it back.
use xdev.Prelude.{
  ℕ, ◌≡◌, refl, ◌∙◌, inl, inr, ◌&&◌, Bool, true, false, ◌∷◌, Option, none, some, arith, Bool-cases,
  leb, Text, text_eq,
}
use xdev.Prelude.Result.{ok}
use xdev.Install.{
  File, Files, put, CopyFault, copy_file, rename_file, executable, Answers, backup_path,
  staged_path, swap, stage, install, restore,
}
use xdev.Install.Paths.{Apart, paths-Apart, text_eq-flip}
use xdev.Install.Failing.{put-elsewhere, put-here, copy_file-elsewhere, copy_file-ok}

swap-ok :
    (renames : Bool) (backup staged dest b : Text) (files : Files)
    → (swap renames backup staged dest files).0 ≡ ok b
    → (b ≡ backup) × ((swap renames backup staged dest files).1 ≡ rename_file staged dest files)
unfolding swap
swap-ok true backup staged dest b files h = (ground (arith, h), refl)
swap-ok false backup staged dest b files h = absurd (ground (arith, h))

stage-ok :
    (an : Answers) (src backup staged dest b : Text) (mode : ℕ) (files : Files)
    → (stage an src backup staged dest mode files).0 ≡ ok b
    → ((copy_file an.staging src staged (executable mode) files).0 ≡ true)
      × (b ≡ backup)
      × ((stage an src backup staged dest mode files).1
          ≡ rename_file staged dest (copy_file an.staging src staged (executable mode) files).1)
unfolding stage
stage-ok an src backup staged dest b mode files h =
    let copied = copy_file an.staging src staged (executable mode) files in
    elim (Bool-cases copied.0) [
      | inr c ↦ absurd (ground (arith, h, c))
      | inl c ↦
          let swapped = swap-ok an.renames backup staged dest b copied.1 (ground (arith, h, c)) in
          (c, swapped.0, rw (stage, c) swapped.1)
    ]

-- What a successful Install has done to the files.
install-steps :
    (an : Answers) (stamp src dest b : Text) (files : Files) (old : File)
    → files dest ≡ some old
    → (install an stamp src dest files).0 ≡ ok b
    → ((copy_file an.backing_up dest (backup_path dest stamp) old.mode files).0 ≡ true)
      × ((stage an src
            (backup_path dest stamp)
            (staged_path dest)
            dest
            old.mode
            (copy_file an.backing_up dest (backup_path dest stamp) old.mode files).1).0
          ≡ ok b)
      × ((install an stamp src dest files).1
          ≡ (stage an src
              (backup_path dest stamp)
              (staged_path dest)
              dest
              old.mode
              (copy_file an.backing_up dest (backup_path dest stamp) old.mode files).1).1)
unfolding install
install-steps an stamp src dest b files old f h =
    let copied = copy_file an.backing_up dest (backup_path dest stamp) old.mode files in
    elim (Bool-cases copied.0) [
      | inr c ↦ absurd (ground (arith, h, f, c))
      | inl c ↦ (c, ground (arith, h, f, c), rw (install, f, c) refl)
    ]

-- The files after an update: the new binary, the old one at the backup's path, and no leftovers.
pub record Swapped (before after : Files) (dest backup staged : Text) (old new : File)
    : Type 0 where
  pub installed : after dest ≡ some (record { content = new.content; mode = executable old.mode })
  pub kept : after backup ≡ some old
  pub clean : after staged ≡ none
  pub elsewhere :
      (p : Text)
      → text_eq dest p ≡ false
      → text_eq backup p ≡ false
      → text_eq staged p ≡ false
      → after p ≡ before p

rename_file-elsewhere :
    (old new p : Text) (files : Files)
    → text_eq old p ≡ false
    → text_eq new p ≡ false
    → rename_file old new files p ≡ files p
unfolding rename_file
rename_file-elsewhere old new p files o n =
    put-elsewhere new p (files old) (put old none files) n ∙ put-elsewhere old p none files o

rename-Swapped :
    (before done : Files) (dest backup staged : Text) (old new : File)
    → Apart dest backup staged
    → done staged ≡ some (record { content = new.content; mode = executable old.mode })
    → done backup ≡ some old
    → ((p : Text) → text_eq backup p ≡ false → text_eq staged p ≡ false → done p ≡ before p)
    → Swapped before (rename_file staged dest done) dest backup staged old new
unfolding rename_file
rename-Swapped before done dest backup staged old new a n k o = record {
  installed = put-here dest (done staged) (put staged none done) ∙ n;
  kept = rename_file-elsewhere staged dest backup done a.staged_backup a.dest_backup ∙ k;
  clean =
      put-elsewhere dest staged (done staged) (put staged none done) a.dest_staged
      ∙ put-here staged none done;
  elsewhere = λ p ed eb es. rename_file-elsewhere staged dest p done es ed ∙ o p eb es;
}

-- The backup of an Install that succeeds.
install-kept :
    (an : Answers) (d : ℕ) (stamp src dest b : Text) (files : Files) (old : File)
    → (leb b'0' d && leb d b'9') ≡ true
    → files dest ≡ some old
    → (install an (d ∷ stamp) src dest files).0 ≡ ok b
    → (b ≡ backup_path dest (d ∷ stamp))
      × ((install an (d ∷ stamp) src dest files).1 (backup_path dest (d ∷ stamp)) ≡ some old)
install-kept an d stamp src dest b files old digit f h =
    let a = paths-Apart dest d stamp digit in
    let backup = backup_path dest (d ∷ stamp) in
    let staged = staged_path dest in
    let steps = install-steps an (d ∷ stamp) src dest b files old f h in
    let backed = (copy_file an.backing_up dest backup old.mode files).1 in
    let staging = stage-ok an src backup staged dest b old.mode backed steps.1 in
    let done = (copy_file an.staging src staged (executable old.mode) backed).1 in
    (
      staging.1,
      rw (steps.2, staging.2)
          (rename_file-elsewhere staged dest backup done a.staged_backup a.dest_backup
            ∙ copy_file-elsewhere an.staging src staged (executable old.mode) backed backup
                a.staged_backup
            ∙ copy_file-ok an.backing_up dest backup old.mode files old f a.dest_backup steps.0),
    )

-- An Install that succeeds returns the path of a backup that holds the old binary, and leaves the new
-- one in its place, executable; no staged file stays, and no other path changes. The new binary lies
-- neither at the backup's path nor at the staged one.
pub install-Swapped :
    (an : Answers) (d : ℕ) (stamp src dest b : Text) (files : Files) (old new : File)
    → (leb b'0' d && leb d b'9') ≡ true
    → files dest ≡ some old
    → files src ≡ some new
    → text_eq (backup_path dest (d ∷ stamp)) src ≡ false
    → text_eq (staged_path dest) src ≡ false
    → (install an (d ∷ stamp) src dest files).0 ≡ ok b
    → (b ≡ backup_path dest (d ∷ stamp))
      × Swapped files
          (install an (d ∷ stamp) src dest files).1
          dest
          (backup_path dest (d ∷ stamp))
          (staged_path dest)
          old
          new
install-Swapped an d stamp src dest b files old new digit f n sb ss h =
    let a = paths-Apart dest d stamp digit in
    let backup = backup_path dest (d ∷ stamp) in
    let staged = staged_path dest in
    let steps = install-steps an (d ∷ stamp) src dest b files old f h in
    let backed = (copy_file an.backing_up dest backup old.mode files).1 in
    let staging = stage-ok an src backup staged dest b old.mode backed steps.1 in
    let done = (copy_file an.staging src staged (executable old.mode) backed).1 in
    (
      staging.1,
      rw (steps.2, staging.2)
          (rename-Swapped files done dest backup staged old new a
            (copy_file-ok an.staging src staged (executable old.mode) backed new
              (copy_file-elsewhere an.backing_up dest backup old.mode files src sb ∙ n)
              (text_eq-flip src staged ∙ ss) staging.0)
            (copy_file-elsewhere an.staging src staged (executable old.mode) backed backup
                a.staged_backup
              ∙ copy_file-ok an.backing_up dest backup old.mode files old f a.dest_backup steps.0)
            (λ p eb es.
              copy_file-elsewhere an.staging src staged (executable old.mode) backed p es
              ∙ copy_file-elsewhere an.backing_up dest backup old.mode files p eb)),
    )

restore-ok :
    (fault : Option CopyFault) (renames : Bool) (backup dest : Text) (files : Files) (old : File)
    → files backup ≡ some old
    → text_eq backup (staged_path dest) ≡ false
    → (restore fault renames backup dest files).0 ≡ true
    → (restore fault renames backup dest files).1 dest
      ≡ some (record { content = old.content; mode = 0o755 })
unfolding restore rename_file
restore-ok fault renames backup dest files old b apart h =
    let copied = copy_file fault backup (staged_path dest) 0o755 files in
    elim (Bool-cases copied.0) [
      | inr c ↦ absurd (ground (arith, h, c))
      | inl c ↦ elim (Bool-cases renames) [
        | inr r ↦ absurd (ground (arith, h, c, r))
        | inl r ↦
            rw (restore, c, r)
              (put-here dest (copied.1 (staged_path dest)) (put (staged_path dest) none copied.1)
                ∙ copy_file-ok fault backup (staged_path dest) 0o755 files old b apart c)
      ]
    ]

-- A Restore that succeeds with the backup of an Install that succeeded puts the old binary's content
-- back in its place, executable for all.
pub install-restore :
    (an : Answers) (d : ℕ) (stamp src dest b : Text) (files : Files) (old : File)
    (fault : Option CopyFault) (renames : Bool)
    → (leb b'0' d && leb d b'9') ≡ true
    → files dest ≡ some old
    → (install an (d ∷ stamp) src dest files).0 ≡ ok b
    → (restore fault renames b dest (install an (d ∷ stamp) src dest files).1).0 ≡ true
    → (restore fault renames b dest (install an (d ∷ stamp) src dest files).1).1 dest
      ≡ some (record { content = old.content; mode = 0o755 })
install-restore an d stamp src dest b files old fault renames digit f h r =
    let done = install-kept an d stamp src dest b files old digit f h in
    let a = paths-Apart dest d stamp digit in
    restore-ok fault renames b dest _ old (rw (done.0) done.1) (rw (done.0) a.backup_staged) r
