-- ===== src/CString/Compare.antt =====
-- The comparisons of string.c.
use frewozet.Base.{
  ℕ, zero, suc, ◌<◌, ◌≡◌, refl, ap, List, [], ◌∷◌, ◌==◌, arith, take, ◌↔◌, true, if◌then◌else◌,
}
use frewozet.Base.Int.{sub_ℕ}
use frewozet.CString.{strcmp, strncmp, strequal}

-- No byte of a string is the NUL.
abbrev pub NulFree : List ℕ → Type 0
NulFree [] = Unit
NulFree (c ∷ s) = (0 < c) × NulFree s

-- `strequal` is true just when the strings are equal.
pub strequal_lem : (a b : List ℕ) → NulFree a → NulFree b → (strequal a b ≡ true) ↔ (a ≡ b)
unfolding strequal strcmp
strequal_lem [] [] p q = ((λ h. refl), λ h. refl)
strequal_lem [] (d ∷ b) p q = ((λ h. ground arith), λ h. cc)
strequal_lem (c ∷ a) [] p q = ((λ h. ground arith), λ h. cc)
strequal_lem (c ∷ a) (d ∷ b) p q = (
  (λ h. ground (arith, (strequal_lem a b p.1 q.1).0)),
  λ h. ground (arith, (strequal_lem a b p.1 q.1).1),
)

-- `strncmp` compares the strings cut to `n` bytes.
pub strncmp-take : (a b : List ℕ) (n : ℕ) → strncmp a b n ≡ strcmp (take n a) (take n b)
unfolding strcmp strncmp
strncmp-take a b zero = refl
strncmp-take [] [] (suc n) = refl
strncmp-take [] (d ∷ b) (suc n) = refl
strncmp-take (c ∷ a) [] (suc n) = refl
strncmp-take (c ∷ a) (d ∷ b) (suc n) =
    ap (λ r. if c == d then r else sub_ℕ c d) (strncmp-take a b n)
