-- ===== src/GitSource/Commands.antt =====
-- The git commands of internal/gitsrc. A `Git` is what `git` with the arguments answers: its output,
-- or its error, for the directory, the key and the environment of the call. Every function gives the
-- commands that it ran with its result.
pub mod Default
use xdev.Prelude.{
  ℕ, Bool, not, List, [], ◌∷◌, ◌++◌, Option, none, some, if◌then◌else◌, is_empty, Text, codes,
  text_eq, trim_space, cut_prefix, before, split,
}
use xdev.Prelude.Result.{Result, ok, err}

pub data GitError : Type 0 where
  failed_run : Text → GitError
  no_default_branch : GitError

abbrev pub Git : Type 0
Git = List Text → Result Text Text

-- The commands that were run, oldest first, and the result.
pub record Ran (A : Type 0) : Type 0 where
  pub commands : List (List Text)
  pub result : Result GitError A

unfoldable pub answer : List Text → Result Text Text → Ran Text
answer args (err e) = record { commands = args ∷ []; result = err (failed_run e) }
answer args (ok out) = record { commands = args ∷ []; result = ok out }

-- One command.
unfoldable pub run : Git → List Text → Ran Text
unfolding answer
run git args = answer args (git args)

unfoldable pub continue_with :
    {A B : Type 0} → (A → Ran B) → List (List Text) → Result GitError A → Ran B
continue_with next commands (err e) = record { commands = commands; result = err e }
continue_with next commands (ok a) = record {
  commands = commands ++ (next a).commands;
  result = (next a).result;
}

-- A step, and what follows it if it did not fail.
unfoldable pub and_then : {A B : Type 0} → Ran A → (A → Ran B) → Ran B
unfolding continue_with
and_then r next = continue_with next r.commands r.result

unfoldable pub return : {A : Type 0} → Result GitError A → Ran A
return r = record { commands = []; result = r }

unfoldable pub clone_args : Text → Text → Text → List Text
clone_args dir url ref =
    (codes "clone" ∷ codes "--depth" ∷ codes "1" ∷ [])
    ++ ((if not (is_empty ref) then codes "--branch" ∷ ref ∷ [] else []) ++ (url ∷ dir ∷ []))

-- A clone answers no more than that it was made.
unfoldable pub clone_from : Git → Text → Text → Text → Ran (Unit {0})
unfolding run clone_args and_then return
clone_from git dir url ref = and_then (run git (clone_args dir url ref)) (λ _. return (ok tt))

unfoldable pub head_sha : Git → Ran Text
unfolding run and_then return
head_sha git =
    and_then (run git (codes "rev-parse" ∷ codes "HEAD" ∷ [])) (λ out. return (ok (trim_space out)))

-- The branch that a line of `git ls-remote --symref` names, if it names one.
unfoldable pub branch_of : Text → Option Text
branch_of line = elim (cut_prefix (trim_space line) (codes "ref: refs/heads/")) [
  | none ↦ none
  | some rest ↦ if is_empty (before b'\t' rest) then none else some (before b'\t' rest)
]

unfoldable pub first_branch : List Text → Result GitError Text
unfolding branch_of
first_branch [] = err no_default_branch
first_branch (line ∷ lines) = elim (branch_of line) [
  | some name ↦ ok name
  | none ↦ first_branch lines
]

unfoldable pub default_branch : Git → Text → Ran Text
unfolding run and_then return first_branch
default_branch git url =
    and_then (run git (codes "ls-remote" ∷ codes "--symref" ∷ url ∷ codes "HEAD" ∷ []))
      (λ out. return (first_branch (split b'\n' out)))

unfoldable pub set_url : Text → List Text
set_url url = codes "remote" ∷ codes "set-url" ∷ codes "origin" ∷ url ∷ []

unfoldable pub fetch_args : Text → List Text
fetch_args ref = codes "fetch" ∷ codes "--depth" ∷ codes "1" ∷ codes "origin" ∷ ref ∷ []

unfoldable pub checkout_args : Text → List Text
checkout_args ref = codes "checkout" ∷ codes "--force" ∷ codes "-B" ∷ ref ∷ codes "FETCH_HEAD" ∷ []

abbrev pub reset_args : List Text
reset_args = codes "reset" ∷ codes "--hard" ∷ codes "FETCH_HEAD" ∷ []

-- From the fetch of a branch to the commit that is checked out.
unfoldable pub update_to : Git → Text → Ran Text
unfolding run and_then head_sha fetch_args checkout_args
update_to git ref =
    and_then (run git (fetch_args ref)) λ _.
      and_then (run git (checkout_args ref)) λ _. and_then (run git reset_args) λ _. head_sha git

unfoldable pub tracked : Git → Text → Text → Ran Text
unfolding default_branch return
tracked git url ref = if is_empty ref then default_branch git url else return (ok ref)

unfoldable pub update_from : Git → Text → Text → Ran Text
unfolding run and_then tracked update_to set_url
update_from git url ref =
    and_then (run git (set_url url))
      λ _. and_then (tracked git url ref) λ branch. update_to git branch
