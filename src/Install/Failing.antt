-- ===== src/Install/Failing.antt =====
-- What copies leave alone, and what an Install that fails leaves at the path of the binary.
use xdev.Prelude.{
  ℕ, ◌≡◌, refl, ◌∙◌, inl, inr, ◌&&◌, Bool, true, false, ◌∷◌, Option, none, some, arith, Bool-cases,
  Option-cases, [], if◌then◌else◌, leb, Text, text_eq, text_eq_refl,
}
use xdev.Prelude.Result.{err}
use xdev.Install.{
  File, Files, put, CopyFault, unopened, broken, unchanged_mode, copy_opened, copy_file, remove,
  executable, InstallError, Answers, backup_path, staged_path, swap, stage, install,
}
use xdev.Install.Paths.{Apart, paths-Apart}

pub put-elsewhere :
    (path p : Text) (f : Option File) (files : Files)
    → text_eq path p ≡ false
    → put path f files p ≡ files p
unfolding put
put-elsewhere path p f files e = ground (arith, e)

pub put-here : (path : Text) (f : Option File) (files : Files) → put path f files path ≡ f
unfolding put
put-here path f files = ground (arith, text_eq_refl path)

copy_opened-elsewhere :
    (fault : Option CopyFault) (content dst : Text) (mode : ℕ) (files : Files) (p : Text)
    → text_eq dst p ≡ false
    → (copy_opened fault content dst mode files).1 p ≡ files p
unfolding copy_opened
copy_opened-elsewhere none content dst mode files p e = put-elsewhere dst p _ files e
copy_opened-elsewhere (some unopened) content dst mode files p e = refl
copy_opened-elsewhere (some broken) content dst mode files p e = put-elsewhere dst p none files e
copy_opened-elsewhere (some (unchanged_mode m)) content dst mode files p e =
    put-elsewhere dst p _ files e

pub copy_file-elsewhere :
    (fault : Option CopyFault) (src dst : Text) (mode : ℕ) (files : Files) (p : Text)
    → text_eq dst p ≡ false
    → (copy_file fault src dst mode files).1 p ≡ files p
unfolding copy_file
copy_file-elsewhere fault src dst mode files p e = elim (Option-cases (files src)) [
  | inl n ↦ rw (copy_file, n) refl
  | inr (f, s) ↦
      rw (copy_file, s)
        (copy_opened-elsewhere fault (if text_eq src dst then [] else f.content) dst mode files p e)
]

copy_opened-ok :
    (fault : Option CopyFault) (content dst : Text) (mode : ℕ) (files : Files)
    → (copy_opened fault content dst mode files).0 ≡ true
    → (copy_opened fault content dst mode files).1 dst
      ≡ some (record { content = content; mode = mode })
unfolding copy_opened
copy_opened-ok none content dst mode files e = put-here dst _ files
copy_opened-ok (some unopened) content dst mode files e = absurd (ground (arith, e))
copy_opened-ok (some broken) content dst mode files e = absurd (ground (arith, e))
copy_opened-ok (some (unchanged_mode m)) content dst mode files e = absurd (ground (arith, e))

-- A copy to another path that succeeds has the source's content and the mode that was asked for.
pub copy_file-ok :
    (fault : Option CopyFault) (src dst : Text) (mode : ℕ) (files : Files) (f : File)
    → files src ≡ some f
    → text_eq src dst ≡ false
    → (copy_file fault src dst mode files).0 ≡ true
    → (copy_file fault src dst mode files).1 dst
      ≡ some (record { content = f.content; mode = mode })
unfolding copy_file
copy_file-ok fault src dst mode files f s apart e =
    rw (copy_file, s, apart)
      (copy_opened-ok fault f.content dst mode files (ground (arith, s, apart, e)))

swap-failed :
    (renames : Bool) (backup staged dest : Text) (files : Files) (e : InstallError)
    → Apart dest backup staged
    → (swap renames backup staged dest files).0 ≡ err e
    → (swap renames backup staged dest files).1 dest ≡ files dest
unfolding swap remove
swap-failed true backup staged dest files e a h = absurd (ground (arith, h))
swap-failed false backup staged dest files e a h =
    put-elsewhere backup dest none (put staged none files) a.backup_dest
    ∙ put-elsewhere staged dest none files a.staged_dest

stage-failed :
    (an : Answers) (src backup staged dest : Text) (mode : ℕ) (files : Files) (e : InstallError)
    → Apart dest backup staged
    → (stage an src backup staged dest mode files).0 ≡ err e
    → (stage an src backup staged dest mode files).1 dest ≡ files dest
unfolding stage remove
stage-failed an src backup staged dest mode files e a h =
    let copied = copy_file an.staging src staged (executable mode) files in
    let untouched =
      copy_file-elsewhere an.staging src staged (executable mode) files dest a.staged_dest in
    elim (Bool-cases copied.0) [
      | inl c ↦
          rw (stage, c)
            (swap-failed an.renames backup staged dest copied.1 e a (ground (arith, c, h))
              ∙ untouched)
      | inr c ↦ rw (stage, c) (put-elsewhere backup dest none copied.1 a.backup_dest ∙ untouched)
    ]

-- An Install that fails, at whatever point, leaves the installed binary as it was.
pub install-keeps :
    (an : Answers) (d : ℕ) (stamp src dest : Text) (files : Files) (e : InstallError)
    → (leb b'0' d && leb d b'9') ≡ true
    → (install an (d ∷ stamp) src dest files).0 ≡ err e
    → (install an (d ∷ stamp) src dest files).1 dest ≡ files dest
unfolding install
install-keeps an d stamp src dest files e digit h =
    let a = paths-Apart dest d stamp digit in
    let backup = backup_path dest (d ∷ stamp) in
    elim (Option-cases (files dest)) [
      | inl n ↦ rw (install, n) n
      | inr (old, f) ↦
          let copied = copy_file an.backing_up dest backup old.mode files in
          let untouched =
            copy_file-elsewhere an.backing_up dest backup old.mode files dest a.backup_dest in
          elim (Bool-cases copied.0) [
            | inr c ↦ rw (install, f, c) (untouched ∙ f)
            | inl c ↦
                rw (install, f, c)
                  (stage-failed an src backup (staged_path dest) dest old.mode copied.1 e a
                      (ground (arith, f, c, h))
                    ∙ untouched
                    ∙ f)
          ]
    ]
