-- ===== src/Hosts.antt =====
-- internal/domains/hosts.go: the managed block of the hosts file. The file is its text; a file that
-- is not there is the empty text.
use xdev.Prelude.{
  ℕ, ◌||◌, Bool, true, false, not, List, [], ◌∷◌, ◌++◌, if◌then◌else◌, ◌==◌, is_empty, Text, codes,
  text_eq, split, join, trim_right, trim_space, is_space, filter, fields_func, one_of,
}

abbrev pub newline : ℕ
newline = 10

abbrev pub tab : ℕ
tab = 9

abbrev pub block_start : Text
block_start = codes "# >>> xdev (managed) >>>"

abbrev pub block_end : Text
block_end = codes "# <<< xdev (managed) <<<"

-- The loop of stripBlock; the flag is `inBlock`.
unfoldable pub strip_lines : Bool → List Text → List Text
strip_lines in_block [] = []
strip_lines in_block (ln ∷ lines) =
    let trimmed = trim_space ln in
    let next =
      if text_eq trimmed block_start
      then true
      else if text_eq trimmed block_end
      then false
      else in_block in
    let rest = strip_lines next lines in
    if text_eq trimmed block_start || text_eq trimmed block_end || in_block then rest else ln ∷ rest

unfoldable pub strip_block : Text → Text
strip_block content =
    if is_empty content then [] else join newline (strip_lines false (split newline content))

-- The two lines of one hostname.
unfoldable pub host_lines : Text → Text
host_lines h =
    (codes "127.0.0.1" ++ tab ∷ h ++ newline ∷ []) ++ (codes "::1" ++ tab ∷ h ++ newline ∷ [])

unfoldable pub all_host_lines : List Text → Text
all_host_lines [] = []
all_host_lines (h ∷ hs) = host_lines h ++ all_host_lines hs

unfoldable pub block : List Text → Text
block hostnames =
    if is_empty hostnames
    then []
    else block_start ++ newline ∷ (all_host_lines hostnames ++ (block_end ++ newline ∷ []))

abbrev pub is_newline : ℕ → Bool
is_newline c = c == newline

-- What stays of the file outside the block.
unfoldable pub base_of : Text → Text
base_of existing = trim_right is_newline (strip_block existing)

-- SyncHosts, from the text of the file to the text that it writes.
unfoldable pub sync_hosts : Text → List Text → Text
sync_hosts existing hostnames =
    let base = base_of existing in
    base ++ (if is_empty base then [] else newline ∷ []) ++ block hostnames

-- strings.Fields
unfoldable pub fields : Text → List Text
unfolding fields_func is_space
fields = fields_func is_space []

-- A field after the first is the host.
unfoldable pub names_host : Text → List Text → Bool
names_host host [] = false
names_host host (ip ∷ fs) = one_of host fs

unfoldable pub is_comment : Text → Bool
is_comment [] = true
is_comment (c ∷ s) = c == b'#'

unfoldable pub present_in : Text → List Text → Bool
present_in host [] = false
present_in host (line ∷ lines) =
    let rest = present_in host lines in
    if is_comment (trim_space line)
    then rest
    else names_host host (fields (trim_space line)) || rest

unfoldable pub host_present : Text → Text → Bool
host_present content host = present_in host (split newline content)

unfoldable pub missing_from_hosts : Text → List Text → List Text
missing_from_hosts content hostnames = filter (λ h. not (host_present content h)) hostnames
