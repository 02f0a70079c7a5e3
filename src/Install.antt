-- ===== src/Install.antt =====
-- internal/selfupdate/install.go: the swap of the binary on a file system. What the system answers
-- to a copy, a rename or a removal is an argument.
pub mod Paths
pub mod Failing
pub mod Swap
mod Examples
use xdev.Prelude.{
  ℕ, ◌+◌, ◌*◌, ◌/◌, ◌%◌, ◌==◌, ◌&&◌, ◌||◌, Bool, true, false, not, List, [], ◌∷◌, ◌++◌, Option,
  none, some, if◌then◌else◌, leb, ltb, length, drop, Text, codes, text_eq,
}
use xdev.Prelude.Result.{Result, ok, err}
use xdev.Store.Table.{order_by}

abbrev pub backup_suffix : Text
backup_suffix = codes ".bak"

pub record File : Type 0 where
  pub content : Text
  pub mode : ℕ

-- What a path holds.
abbrev pub Files : Type 0
Files = Text → Option File

unfoldable pub put : Text → Option File → Files → Files
put path f files = λ p. if text_eq path p then f else files p

-- How a copy fails: nothing is touched, the target is taken away, or only its mode is not set.
pub data CopyFault : Type 0 where
  unopened broken : CopyFault
  unchanged_mode : ℕ → CopyFault

unfoldable pub copy_opened : Option CopyFault → Text → Text → ℕ → Files → Bool × Files
unfolding put
copy_opened none content dst mode files =
    (true, put dst (some (record { content = content; mode = mode })) files)
copy_opened (some unopened) content dst mode files = (false, files)
copy_opened (some broken) content dst mode files = (false, put dst none files)
copy_opened (some (unchanged_mode masked)) content dst mode files =
    (false, put dst (some (record { content = content; mode = masked })) files)

-- copyFile. A target that is the source itself is emptied before the source is read.
unfoldable pub copy_file : Option CopyFault → Text → Text → ℕ → Files → Bool × Files
unfolding copy_opened
copy_file fault src dst mode files = elim (files src) [
  | none ↦ (false, files)
  | some f ↦ copy_opened fault (if text_eq src dst then [] else f.content) dst mode files
]

unfoldable pub remove : Text → Files → Files
unfolding put
remove path files = put path none files

-- os.Rename, where it succeeds.
unfoldable pub rename_file : Text → Text → Files → Files
unfolding put
rename_file old new files = put new (files old) (put old none files)

unfoldable pub with_execute : ℕ → ℕ
with_execute d = if d % 2 == 0 then d + 1 else d

-- mode|0o111, on the nine bits of Perm.
unfoldable pub executable : ℕ → ℕ
unfolding with_execute
executable m = with_execute (m / 64) * 64 + with_execute (m / 8 % 8) * 8 + with_execute (m % 8)

pub data InstallError : Type 0 where
  stat_failed backup_failed stage_failed swap_failed : InstallError

-- What the system answers in one Install: the two copies, and whether the rename lands.
pub record Answers : Type 0 where
  pub backing_up : Option CopyFault
  pub staging : Option CopyFault
  pub renames : Bool

unfoldable pub backup_path : Text → Text → Text
backup_path dest stamp = dest ++ (codes "." ++ (stamp ++ backup_suffix))

unfoldable pub staged_path : Text → Text
staged_path dest = dest ++ codes ".new"

-- The end of Install, with the new binary staged.
unfoldable pub swap : Bool → Text → Text → Text → Files → Result InstallError Text × Files
unfolding remove rename_file
swap renames backup staged dest files =
    if renames
    then (ok backup, rename_file staged dest files)
    else (err swap_failed, remove backup (remove staged files))

unfoldable pub stage :
    Answers → Text → Text → Text → Text → ℕ → Files → Result InstallError Text × Files
unfolding swap remove copy_file executable
stage a src backup staged dest mode files =
    let staging = copy_file a.staging src staged (executable mode) files in
    if staging.0
    then swap a.renames backup staged dest staging.1
    else (err stage_failed, remove backup staging.1)

-- Install; `stamp` is the time as fourteen digits.
unfoldable pub install : Answers → Text → Text → Text → Files → Result InstallError Text × Files
unfolding stage copy_file backup_path staged_path
install a stamp src dest files = elim (files dest) [
  | none ↦ (err stat_failed, files)
  | some old ↦
      let backup = backup_path dest stamp in
      let backing_up = copy_file a.backing_up dest backup old.mode files in
      if backing_up.0
      then stage a src backup (staged_path dest) dest old.mode backing_up.1
      else (err backup_failed, backing_up.1)
]

-- Restore: whether it succeeds, and the files after it.
unfoldable pub restore : Option CopyFault → Bool → Text → Text → Files → Bool × Files
unfolding copy_file remove rename_file staged_path
restore staging renames backup dest files =
    let copied = copy_file staging backup (staged_path dest) 0o755 files in
    if not copied.0
    then copied
    else if renames
    then (true, rename_file (staged_path dest) dest copied.1)
    else (false, remove (staged_path dest) copied.1)

-- a >= b in the order of bytes.
unfoldable pub text_ge : Text → Text → Bool
text_ge s [] = true
text_ge [] (b ∷ t) = false
text_ge (a ∷ s) (b ∷ t) = let rest = text_ge s t in if a == b then rest else leb b a

-- The loop that removes; `removable` is whether os.Remove succeeds.
unfoldable pub remove_all : (Text → Bool) → List Text → Files → List Text × Files
unfolding remove
remove_all removable [] files = ([], files)
remove_all removable (p ∷ ps) files =
    let gone = remove_all removable ps (remove p files) in
    let kept = remove_all removable ps files in if removable p then (p ∷ gone.0, gone.1) else kept

-- PruneBackups; `matches` is what Glob finds.
unfoldable pub prune_backups : (Text → Bool) → List Text → ℕ → Files → List Text × Files
unfolding remove_all order_by text_ge
prune_backups removable matches keep files =
    if leb (length matches) keep
    then ([], files)
    else remove_all removable (drop keep (order_by text_ge matches)) files
