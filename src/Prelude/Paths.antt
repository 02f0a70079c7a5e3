-- ===== src/Prelude/Paths.antt =====
-- filepath.Join on Unix: the parts that are not empty, joined by slashes and cleaned.
use Prim.Native.Nat.{ℕ}
use mathlib.Core.Bool.{Bool, false, not}
use mathlib.Core.List.{List, [], ◌∷◌, reverse}
use xdev.Prelude.Tests.{◌==◌, if◌then◌else◌}
use xdev.Prelude.Lists.{is_empty, filter}
use xdev.Prelude.Strings.{Text, codes, text_eq, split, join}

abbrev pub slash : ℕ
slash = b'/'

pub starts_slash : Text → Bool
starts_slash [] = false
starts_slash (c ∷ s) = c == slash

abbrev pub dot : Text
dot = codes "."

abbrev pub dot_dot : Text
dot_dot = codes ".."

-- `..` takes back the element before it; at a root it goes, elsewhere it stays.
pub pop_element : Bool → List Text → List Text
pop_element rooted [] = if rooted then [] else dot_dot ∷ []
pop_element rooted (top ∷ done) = if text_eq top dot_dot then dot_dot ∷ top ∷ done else done

-- The elements of a path, cleaned; `done` holds those before in reverse.
pub clean_elements : Bool → List Text → List Text → List Text
unfolding pop_element
clean_elements rooted done [] = reverse done
clean_elements rooted done (e ∷ es) =
    clean_elements rooted
      (if is_empty e
        then done
        else if text_eq e dot
        then done
        else if text_eq e dot_dot
        then pop_element rooted done
        else e ∷ done)
      es

pub or_dot : Text → Text
or_dot p = if is_empty p then dot else p

-- filepath.Clean
unfoldable pub clean : Text → Text
unfolding clean_elements starts_slash or_dot
clean p =
    let body = join slash (clean_elements (starts_slash p) [] (split slash p)) in
    if starts_slash p then slash ∷ body else or_dot body

pub clean_some : List Text → Text
unfolding clean
clean_some [] = []
clean_some (p ∷ ps) = clean (join slash (p ∷ ps))

unfoldable pub join_path : List Text → Text
unfolding clean_some
join_path parts = clean_some (filter (λ p. not (is_empty p)) parts)
