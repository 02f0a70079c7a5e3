-- ===== src/GitSource/Commands/Default.antt =====
-- The default branch in what `git ls-remote --symref` prints.
use xdev.Prelude.{
  ℕ, sym, ==_refl, ◌≡◌, refl, ap, ◌∙◌, false, List, [], ◌∷◌, ◌++◌, none, some, arith, All,
  append_assoc, all, is_empty, is_space, trim_space, before, split, join, cut_prefix, has_prefix,
  contains_rune, Text, codes,
}
use xdev.Prelude.Result.{ok}
use xdev.Prelude.Strings.Parts.{
  trim-kept, split-first, split-lacking, cut_prefix-append, cut_prefix-none, contains_rune-append,
}
use xdev.GitSource.Commands.{
  Git, branch_of, first_branch, run, answer, and_then, continue_with, return, default_branch,
}

-- The line for a branch that HEAD points to.
abbrev pub symref_line : Text → Text
symref_line name = codes "ref: refs/heads/" ++ (name ++ (b'\t' ∷ codes "HEAD"))

abbrev pub OneLine : Text → Type 0
OneLine s = contains_rune s b'\n' ≡ false

split-join :
    (line : Text) (lines : List Text)
    → OneLine line
    → All OneLine lines
    → split b'\n' (join b'\n' (line ∷ lines)) ≡ line ∷ lines
unfolding join
split-join line [] h hs = split-lacking b'\n' line h
split-join line (next ∷ lines) h hs =
    split-first b'\n' line (join b'\n' (next ∷ lines)) h
    ∙ ap (λ ls. line ∷ ls) (split-join next lines hs.0 hs.1)

abbrev head_line : Text → Text
head_line name = b'r' ∷ ((codes "ef: refs/heads/" ++ (name ++ b'\t' ∷ [])) ++ codes "HEAD")

-- Such a line has nothing to trim, whatever the name is.
symref_line-trimmed : (name : Text) → trim_space (symref_line name) ≡ symref_line name
unfolding trim_space all is_space
symref_line-trimmed name =
    let apart : symref_line name ≡ head_line name =
      ap (λ r. codes "ref: refs/heads/" ++ r)
        (sym (append_assoc name (b'\t' ∷ []) (codes "HEAD"))) in
    ap trim_space apart
    ∙ trim-kept is_space b'r' (codes "ef: refs/heads/" ++ (name ++ b'\t' ∷ [])) (codes "HEAD") refl
        refl refl
    ∙ sym apart

before-first : (sep : ℕ) (s t : Text) → contains_rune s sep ≡ false → before sep (s ++ sep ∷ t) ≡ s
unfolding before contains_rune
before-first sep [] t h = ground (arith, ==_refl sep)
before-first sep (c ∷ s) t h = ground (arith, before-first sep s t)

branch_of-cut :
    (line rest name : Text)
    → cut_prefix (trim_space line) (codes "ref: refs/heads/") ≡ some rest
    → before b'\t' rest ≡ name
    → is_empty name ≡ false
    → branch_of line ≡ some name
unfolding branch_of
branch_of-cut line rest name h b e = rw (branch_of, h, b, e) refl

branch_of-symref :
    (name : Text)
    → is_empty name ≡ false
    → contains_rune name b'\t' ≡ false
    → branch_of (symref_line name) ≡ some name
branch_of-symref name e t =
    branch_of-cut (symref_line name) (name ++ b'\t' ∷ codes "HEAD") name
      (ap (λ l. cut_prefix l (codes "ref: refs/heads/")) (symref_line-trimmed name)
        ∙ cut_prefix-append (codes "ref: refs/heads/") (name ++ b'\t' ∷ codes "HEAD"))
      (before-first b'\t' name (codes "HEAD") t) e

-- A line that does not name a branch.
abbrev pub IsOther : Text → Type 0
IsOther line = has_prefix (trim_space line) (codes "ref: refs/heads/") ≡ false

branch_of-other : (line : Text) → IsOther line → branch_of line ≡ none
unfolding branch_of
branch_of-other line h =
    rw (branch_of, cut_prefix-none (trim_space line) (codes "ref: refs/heads/") h) refl

first_branch-found :
    (above below : List Text) (line name : Text)
    → All IsOther above
    → branch_of line ≡ some name
    → first_branch (above ++ line ∷ below) ≡ ok name
unfolding first_branch
first_branch-found [] below line name h b = rw (first_branch, b) refl
first_branch-found (other ∷ above) below line name h b =
    rw (first_branch, branch_of-other other h.0) (first_branch-found above below line name h.1 b)

symref_line-OneLine : (name : Text) → OneLine name → OneLine (symref_line name)
unfolding contains_rune
symref_line-OneLine name h = contains_rune-append name (b'\t' ∷ codes "HEAD") b'\n' ∙ rw h refl

All-append : (P : Text → Type 0) (xs ys : List Text) → All P xs → All P ys → All P (xs ++ ys)
All-append P [] ys h k = k
All-append P (x ∷ xs) ys h k = (h.0, All-append P xs ys h.1 k)

split-lines :
    (lines : List Text) (line : Text) (below : List Text)
    → All OneLine (lines ++ line ∷ below)
    → split b'\n' (join b'\n' (lines ++ line ∷ below)) ≡ lines ++ line ∷ below
split-lines [] line below h = split-join line below h.0 h.1
split-lines (first ∷ lines) line below h = split-join first (lines ++ line ∷ below) h.0 h.1

answered :
    (git : Git) (url out : Text)
    → git (codes "ls-remote" ∷ codes "--symref" ∷ url ∷ codes "HEAD" ∷ []) ≡ ok out
    → (default_branch git url).result ≡ first_branch (split b'\n' out)
unfolding default_branch run and_then continue_with answer return
answered git url out h = rw h refl

-- The default branch of a remote: if what git prints has a line that says which branch HEAD points to,
-- after lines that say no such thing and before any others, defaultBranch returns the name of
-- that branch, whatever it is. A name has no tab and no line has an end of line in it.
pub default_branch-reads :
    (git : Git) (url name : Text) (above below : List Text)
    → is_empty name ≡ false
    → contains_rune name b'\t' ≡ false
    → OneLine name
    → All IsOther above
    → All OneLine above
    → All OneLine below
    → git (codes "ls-remote" ∷ codes "--symref" ∷ url ∷ codes "HEAD" ∷ [])
      ≡ ok (join b'\n' (above ++ symref_line name ∷ below))
    → (default_branch git url).result ≡ ok name
default_branch-reads git url name above below e t o other a b h =
    answered git url (join b'\n' (above ++ symref_line name ∷ below)) h
    ∙ ap first_branch (
        split-lines above (symref_line name) below
          (All-append OneLine above (symref_line name ∷ below) a (symref_line-OneLine name o, b)))
    ∙ first_branch-found above below (symref_line name) name other (branch_of-symref name e t)
