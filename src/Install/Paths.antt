-- ===== src/Install/Paths.antt =====
-- The three paths of an update are different.
use xdev.Prelude.{
  ℕ, ◌≡◌, refl, ◌∙◌, ==_refl, ◌&&◌, true, false, [], ◌∷◌, ◌++◌, arith, leb, Text, codes, text_eq,
}
use xdev.Install.{backup_path, staged_path}

text_eq-front : (d s t : Text) → text_eq (d ++ s) (d ++ t) ≡ text_eq s t
unfolding text_eq
text_eq-front [] s t = refl
text_eq-front (c ∷ d) s t = ground (arith, ==_refl c, text_eq-front d s t)

text_eq-longer : (d : Text) (c : ℕ) (s : Text) → text_eq (d ++ c ∷ s) d ≡ false
unfolding text_eq
text_eq-longer [] c s = refl
text_eq-longer (a ∷ d) c s = ground (arith, text_eq-longer d c s)

pub text_eq-flip : (s t : Text) → text_eq s t ≡ text_eq t s
unfolding text_eq
text_eq-flip [] [] = refl
text_eq-flip [] (b ∷ t) = refl
text_eq-flip (a ∷ s) [] = refl
text_eq-flip (a ∷ s) (b ∷ t) = ground (arith, text_eq-flip s t)

pub record Apart (dest backup staged : Text) : Type 0 where
  pub backup_dest : text_eq backup dest ≡ false
  pub dest_backup : text_eq dest backup ≡ false
  pub staged_dest : text_eq staged dest ≡ false
  pub dest_staged : text_eq dest staged ≡ false
  pub backup_staged : text_eq backup staged ≡ false
  pub staged_backup : text_eq staged backup ≡ false

-- A stamp starts with a digit, so a backup is not named like the staged file.
pub paths-Apart :
    (dest : Text) (d : ℕ) (stamp : Text)
    → (leb b'0' d && leb d b'9') ≡ true
    → Apart dest (backup_path dest (d ∷ stamp)) (staged_path dest)
unfolding backup_path staged_path text_eq
paths-Apart dest d stamp digit =
    let bd = text_eq-longer dest b'.' (d ∷ stamp ++ codes ".bak") in
    let sd = text_eq-longer dest b'.' (codes "new") in
    let bs = text_eq-front dest (codes "." ++ (d ∷ stamp ++ codes ".bak")) (codes ".new") in
    record {
      backup_dest = bd;
      dest_backup = text_eq-flip dest _ ∙ bd;
      staged_dest = sd;
      dest_staged = text_eq-flip dest _ ∙ sd;
      backup_staged = ground (arith, bs, digit);
      staged_backup = text_eq-flip (staged_path dest) _ ∙ ground (arith, bs, digit);
    }
