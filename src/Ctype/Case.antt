-- ===== src/Ctype/Case.antt =====
-- The two cases of a letter.
use frewozet.Base.{ℕ, ◌≤◌, ◌≡◌, true, arith}
use frewozet.Ctype.{isalpha, toupper, tolower}

abbrev pub Upper : ℕ → Type 0
Upper c = (65 ≤ c) × (c ≤ 90)

abbrev pub Lower : ℕ → Type 0
Lower c = (97 ≤ c) × (c ≤ 122)

pub toupper-Upper : (c : ℕ) → isalpha c ≡ true → Upper (toupper c)
unfolding isalpha toupper
toupper-Upper c h = (ground arith, ground arith)

pub tolower-Lower : (c : ℕ) → isalpha c ≡ true → Lower (tolower c)
unfolding isalpha tolower
tolower-Lower c h = (ground arith, ground arith)

-- Of a letter, `tolower` undoes `toupper` as far as case goes.
pub tolower-toupper : (c : ℕ) → tolower (toupper c) ≡ tolower c
unfolding toupper tolower
tolower-toupper c = ground arith
