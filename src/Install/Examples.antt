-- ===== src/Install/Examples.antt =====
-- Runs of internal/selfupdate/install.go on two files.
use xdev.Prelude.{◌≡◌, refl, true, none, some, Text, codes, text_eq, if◌then◌else◌}
use xdev.Install.{
  File, Files, Answers, broken, backup_path, staged_path, install, restore, stage_failed,
}
use xdev.Install.Failing.{install-keeps}
use xdev.Install.Swap.{Swapped, install-Swapped, install-restore}

abbrev dest : Text
dest = codes "/bin/xdev"

abbrev src : Text
src = codes "/tmp/xdev"

abbrev old : File
old = record { content = codes "old"; mode = 0o755 }

abbrev new : File
new = record { content = codes "new"; mode = 0o600 }

abbrev files : Files
files = λ p. if text_eq dest p then some old else if text_eq src p then some new else none

abbrev fine : Answers
fine = record { backing_up = none; staging = none; renames = true }

abbrev full_disk : Answers
full_disk = record { backing_up = none; staging = some broken; renames = true }

abbrev backup : Text
backup = backup_path dest (codes "20240102030405")

install-keeps_example :
    (install full_disk (codes "20240102030405") src dest files).1 dest ≡ files dest
unfolding install text_eq
install-keeps_example =
    install-keeps full_disk b'2' (codes "0240102030405") src dest files stage_failed refl refl

install-Swapped_example :
    (backup ≡ backup)
    × Swapped files
        (install fine (codes "20240102030405") src dest files).1
        dest
        backup
        (staged_path dest)
        old
        new
unfolding text_eq backup_path staged_path install
install-Swapped_example =
    install-Swapped fine b'2' (codes "0240102030405") src dest backup files old new refl refl refl
      refl refl refl

install-restore_example :
    (restore none true backup dest (install fine (codes "20240102030405") src dest files).1).1 dest
    ≡ some (record { content = codes "old"; mode = 0o755 })
unfolding text_eq backup_path install restore
install-restore_example =
    install-restore fine b'2' (codes "0240102030405") src dest backup files old none true refl refl
      refl refl
