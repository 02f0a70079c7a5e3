-- ===== src/GitSource/Forms.antt =====
-- ParseRepo on the forms that Repo prints: each is read back as the repository.
use xdev.Prelude.{
  ℕ, ◌≡◌, refl, ◌∙◌, ap, sym, true, false, not, [], ◌∷◌, ◌++◌, arith, all, Text, codes, is_space,
  trim_space, contains_rune, append_assoc, cut_prefix,
}
use xdev.Prelude.Result.{ok}
use xdev.Prelude.Paths.{slash}
use xdev.Prelude.Strings.Parts.{contains_rune-append, all-append, trim-kept, cut-lacking, cut-first}
use xdev.GitSource.{
  Repo, canonical, https_url, ssh_url, parse_repo, parse_form, drop_user, parse_url, strip_scheme,
  from_form,
}
use xdev.GitSource.Canonical.{
  IsCanonical, body, contains_any-unspaced, Word-lacks, body-lacks, body-unspaced, tidy-bare,
  tidy-suffixed, from_form-tidied, Word-unspaced,
}

unspaced-append :
    (s t : Text)
    → all (λ c. not (is_space c)) s ≡ true
    → all (λ c. not (is_space c)) t ≡ true
    → all (λ c. not (is_space c)) (s ++ t) ≡ true
unspaced-append s t hs ht = ground (arith, all-append (λ c. not (is_space c)) s t)

-- A text without spaces goes to parse_form as it is.
parse_repo-unspaced :
    (lower : Text → Text) (c d : ℕ) (s : Text)
    → all (λ c. not (is_space c)) (c ∷ d ∷ s) ≡ true
    → parse_repo lower (c ∷ d ∷ s) ≡ from_form lower (parse_form (c ∷ d ∷ s))
unfolding parse_repo trim_space all is_space
parse_repo-unspaced lower c d s h =
    rw
      (
        trim-kept is_space c [] (d ∷ s) (ground (arith, h)) refl (ground (arith, h)),
        contains_any-unspaced (c ∷ d ∷ s) (b' ' ∷ b'\t' ∷ b'\n' ∷ b'\r' ∷ []) refl h,
      )
      refl

drop_user-lacking : (s : Text) → contains_rune s b'@' ≡ false → drop_user s ≡ ok s
unfolding drop_user
drop_user-lacking s h = rw (drop_user, cut-lacking b'@' s h) refl

-- A scheme is dropped.
parse_form-https :
    (s : Text) → contains_rune s b'@' ≡ false → parse_form (codes "https://" ++ s) ≡ ok s
unfolding parse_form parse_url strip_scheme cut_prefix
parse_form-https s h = drop_user-lacking s h

body-suffixed :
    (r : Repo) (s : Text) → r.host ++ (slash ∷ (r.owner ++ (slash ∷ (r.name ++ s)))) ≡ body r ++ s
body-suffixed r s =
    ap (λ t. r.host ++ (slash ∷ t)) (sym (append_assoc r.owner (slash ∷ r.name) s))
    ∙ sym (append_assoc r.host (slash ∷ (r.owner ++ (slash ∷ r.name))) s)

parse_form-ssh :
    (lower : Text → Text) (r : Repo)
    → IsCanonical lower r
    → parse_form (ssh_url r) ≡ ok (body r ++ codes ".git")
unfolding parse_form ssh_url cut_prefix is_space contains_rune
parse_form-ssh lower r w =
    rw
      (
        parse_form,
        cut-first b':' r.host (r.owner ++ (slash ∷ (r.name ++ codes ".git")))
            (Word-lacks r.host b':' w.host refl),
      )
      (ap ok (body-suffixed r (codes ".git")))

body-suffixed-lacks :
    (lower : Text → Text) (r : Repo) (s : Text)
    → IsCanonical lower r
    → contains_rune s b'@' ≡ false
    → contains_rune (body r ++ s) b'@' ≡ false
unfolding contains_rune is_space
body-suffixed-lacks lower r s w h =
    ground (arith, contains_rune-append (body r) s b'@', body-lacks lower r b'@' w refl refl)

-- What stands behind git@.
abbrev ssh_path : Repo → Text
ssh_path r = r.host ++ (b':' ∷ (r.owner ++ (slash ∷ (r.name ++ codes ".git"))))

ssh_url-unspaced :
    (lower : Text → Text) (r : Repo)
    → IsCanonical lower r
    → all (λ c. not (is_space c)) (codes "git@" ++ ssh_path r) ≡ true
unfolding all is_space
ssh_url-unspaced lower r w =
    unspaced-append r.host (b':' ∷ (r.owner ++ (slash ∷ (r.name ++ codes ".git"))))
      (Word-unspaced r.host w.host.only_plain)
      (unspaced-append r.owner (slash ∷ (r.name ++ codes ".git"))
        (Word-unspaced r.owner w.owner.only_plain)
        (unspaced-append r.name (codes ".git") (Word-unspaced r.name w.name.only_plain) refl))

-- ParseRepo reads the stored form, the HTTPS URL and the SSH URL of a repository back as that
-- repository, where its parts are not empty and have no space and none of /@?#:, its host is in
-- lower case, and its name does not end in .git.
pub parse_repo-forms :
    (lower : Text → Text) (r : Repo)
    → IsCanonical lower r
    → (parse_repo lower (canonical r) ≡ ok r)
      × (parse_repo lower (https_url r) ≡ ok r)
      × (parse_repo lower (ssh_url r) ≡ ok r)
unfolding canonical https_url ssh_url all is_space contains_rune
parse_repo-forms lower r w = (
  parse_repo-unspaced lower b'h' b't' (codes "tps://" ++ body r)
        (unspaced-append (codes "https://") (body r) refl (body-unspaced lower r w))
      ∙ ap (from_form lower) (parse_form-https (body r) (body-lacks lower r b'@' w refl refl))
      ∙ from_form-tidied lower r (body r) w (tidy-bare lower r w),
  parse_repo-unspaced lower b'h' b't' (codes "tps://" ++ (body r ++ codes ".git")) (
        unspaced-append (codes "https://") (body r ++ codes ".git") refl
          (unspaced-append (body r) (codes ".git") (body-unspaced lower r w) refl))
      ∙ ap (from_form lower) (
          parse_form-https (body r ++ codes ".git")
            (body-suffixed-lacks lower r (codes ".git") w refl))
      ∙ from_form-tidied lower r (body r ++ codes ".git") w (tidy-suffixed lower r w),
  parse_repo-unspaced lower b'g' b'i' (codes "t@" ++ ssh_path r) (ssh_url-unspaced lower r w)
      ∙ ap (from_form lower) (parse_form-ssh lower r w)
      ∙ from_form-tidied lower r (body r ++ codes ".git") w (tidy-suffixed lower r w),
)
