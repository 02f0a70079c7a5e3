-- ===== src/GitSource/Canonical.antt =====
-- What ParseRepo makes of the path host/owner/name.
use xdev.Prelude.{
  ℕ, ◌≡◌, refl, ◌∙◌, ap, sym, ◌==◌, ◌&&◌, Bool, true, false, not, [], ◌∷◌, ◌++◌, arith, is_empty,
  all, Text, codes, is_space, trim, has_suffix, contains_rune, contains_any, split, append_assoc,
  before, trim_suffix,
}
use xdev.Prelude.Result.{ok}
use xdev.Prelude.Paths.{slash}
use xdev.Prelude.Strings.Parts.{
  contains_rune-append, all-append, all-lacks, trim-kept, before-lacking, split-lacking,
  split-first, trim_suffix-append, trim_suffix-none,
}
use xdev.GitSource.{Repo, from_form, tidy, with_host, to_repo}

-- A character that no form gives a meaning of its own.
abbrev pub plain : ℕ → Bool
plain c = not (is_space c) && not (contains_rune (codes "/@?#:") c)

pub record Word (s : Text) : Type 0 where
  pub nonempty : is_empty s ≡ false
  pub only_plain : all plain s ≡ true

-- The parts are words, the host is in lower case, and the name has no .git at its end.
pub record IsCanonical (lower : Text → Text) (r : Repo) : Type 0 where
  pub host : Word r.host
  pub owner : Word r.owner
  pub name : Word r.name
  pub lowered : lower r.host ≡ r.host
  pub bare : has_suffix r.name (codes ".git") ≡ false

-- The part that all forms share.
abbrev pub body : Repo → Text
body r = r.host ++ (slash ∷ (r.owner ++ (slash ∷ r.name)))

pub Word-unspaced : (s : Text) → all plain s ≡ true → all (λ c. not (is_space c)) s ≡ true
unfolding all
Word-unspaced [] h = refl
Word-unspaced (c ∷ s) h = ground (arith, Word-unspaced s)

Word-unslashed : (s : Text) → all plain s ≡ true → all (λ c. not (c == slash)) s ≡ true
unfolding all contains_rune
Word-unslashed [] h = refl
Word-unslashed (c ∷ s) h = ground (arith, Word-unslashed s)

-- Texts without spaces pass the test of ParseRepo for spaces.
pub contains_any-unspaced :
    (s cs : Text)
    → all is_space cs ≡ true
    → all (λ c. not (is_space c)) s ≡ true
    → contains_any s cs ≡ false
unfolding all contains_any
contains_any-unspaced [] cs e h = refl
contains_any-unspaced (c ∷ s) cs e h =
    ground (arith, all-lacks is_space cs c e, contains_any-unspaced s cs)

pub Word-lacks : (s : Text) (c : ℕ) → Word s → plain c ≡ false → contains_rune s c ≡ false
Word-lacks s c w e = all-lacks plain s c w.only_plain e

-- Two texts around a slash lack what both and the slash lack.
lacks-slash :
    (s t : Text) (c : ℕ)
    → (slash == c) ≡ false
    → contains_rune s c ≡ false
    → contains_rune t c ≡ false
    → contains_rune (s ++ slash ∷ t) c ≡ false
unfolding contains_rune
lacks-slash s t c n hs ht = ground (arith, contains_rune-append s (slash ∷ t) c)

pub body-lacks :
    (lower : Text → Text) (r : Repo) (c : ℕ)
    → IsCanonical lower r
    → plain c ≡ false
    → (slash == c) ≡ false
    → contains_rune (body r) c ≡ false
body-lacks lower r c w e n =
    lacks-slash r.host (r.owner ++ (slash ∷ r.name)) c n (Word-lacks r.host c w.host e) (
      lacks-slash r.owner r.name c n (Word-lacks r.owner c w.owner e)
        (Word-lacks r.name c w.name e))

unspaced-slash :
    (s t : Text)
    → all (λ c. not (is_space c)) s ≡ true
    → all (λ c. not (is_space c)) t ≡ true
    → all (λ c. not (is_space c)) (s ++ slash ∷ t) ≡ true
unfolding all is_space
unspaced-slash s t hs ht = ground (arith, all-append (λ c. not (is_space c)) s (slash ∷ t))

pub body-unspaced :
    (lower : Text → Text) (r : Repo)
    → IsCanonical lower r
    → all (λ c. not (is_space c)) (body r) ≡ true
body-unspaced lower r w =
    unspaced-slash r.host (r.owner ++ (slash ∷ r.name)) (Word-unspaced r.host w.host.only_plain) (
      unspaced-slash r.owner r.name (Word-unspaced r.owner w.owner.only_plain)
        (Word-unspaced r.name w.name.only_plain))

split-body :
    (lower : Text → Text) (r : Repo)
    → IsCanonical lower r
    → split slash (body r) ≡ r.host ∷ r.owner ∷ r.name ∷ []
unfolding is_space contains_rune
split-body lower r w =
    split-first slash r.host (r.owner ++ (slash ∷ r.name)) (Word-lacks r.host slash w.host refl)
    ∙ ap (λ rest. r.host ∷ rest)
        (split-first slash r.owner r.name (Word-lacks r.owner slash w.owner refl))
    ∙ ap (λ rest. r.host ∷ r.owner ∷ rest)
        (split-lacking slash r.name (Word-lacks r.name slash w.name refl))

-- A text that starts with a word and ends in a word keeps both its ends.
trim-slashes :
    (host s t : Text)
    → Word host
    → is_empty t ≡ false
    → all (λ c. not (c == slash)) t ≡ true
    → trim (λ c. c == slash) ((host ++ s) ++ t) ≡ (host ++ s) ++ t
unfolding all contains_rune
trim-slashes [] s t w e h = absurd (ground (arith, w.nonempty))
trim-slashes (c ∷ host) s t w e h =
    trim-kept (λ c. c == slash) c (host ++ s) t (ground (arith, w.only_plain)) e h

-- The body without the name, and without the slash before it.
front : Repo → Text
front r = r.host ++ (slash ∷ (r.owner ++ (slash ∷ [])))

body-front : (r : Repo) → body r ≡ front r ++ r.name
unfolding front
body-front r =
    ap (λ t. r.host ++ (slash ∷ t)) (sym (append_assoc r.owner (slash ∷ []) r.name))
    ∙ sym (append_assoc r.host (slash ∷ (r.owner ++ (slash ∷ []))) r.name)

body-parts : (r : Repo) → body r ≡ (r.host ++ (slash ∷ r.owner)) ++ (slash ∷ r.name)
body-parts r = sym (append_assoc r.host (slash ∷ r.owner) (slash ∷ r.name))

-- Neither a query nor a fragment is cut off a repository.
cut_off-none :
    (lower : Text → Text) (r : Repo)
    → IsCanonical lower r
    → before b'#' (before b'?' (body r)) ≡ body r
unfolding is_space contains_rune
cut_off-none lower r w =
    rw (before-lacking b'?' (body r) (body-lacks lower r b'?' w refl refl))
      (before-lacking b'#' (body r) (body-lacks lower r b'#' w refl refl))

pub tidy-bare : (lower : Text → Text) (r : Repo) → IsCanonical lower r → tidy (body r) ≡ body r
unfolding tidy front contains_rune
tidy-bare lower r w =
    ap (λ s. before b'#' (before b'?' (trim_suffix (trim (λ c. c == slash) s) (codes ".git"))))
      (body-front r)
    ∙ ap (λ s. before b'#' (before b'?' (trim_suffix s (codes ".git"))))
        (trim-slashes r.host (slash ∷ (r.owner ++ (slash ∷ []))) r.name w.host w.name.nonempty
            (Word-unslashed r.name w.name.only_plain)
          ∙ sym (body-front r)
          ∙ body-parts r)
    ∙ ap (λ s. before b'#' (before b'?' s))
        (trim_suffix-none slash (r.host ++ (slash ∷ r.owner)) r.name (codes ".git") refl w.bare
          ∙ sym (body-parts r))
    ∙ cut_off-none lower r w

pub tidy-suffixed :
    (lower : Text → Text) (r : Repo) → IsCanonical lower r → tidy (body r ++ codes ".git") ≡ body r
unfolding tidy all
tidy-suffixed lower r w =
    ap (λ s. before b'#' (before b'?' (trim_suffix s (codes ".git"))))
      (trim-slashes r.host (slash ∷ (r.owner ++ (slash ∷ r.name))) (codes ".git") w.host refl refl)
    ∙ ap (λ s. before b'#' (before b'?' s)) (trim_suffix-append (body r) (codes ".git"))
    ∙ cut_off-none lower r w

pub from_form-tidied :
    (lower : Text → Text) (r : Repo) (s : Text)
    → IsCanonical lower r
    → tidy s ≡ body r
    → from_form lower (ok s) ≡ ok r
unfolding from_form with_host to_repo
from_form-tidied lower r s w e =
    rw (e, split-body lower r w, w.lowered, w.host.nonempty, w.owner.nonempty, w.name.nonempty) refl
