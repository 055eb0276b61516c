-- ===== src/Ctype.antt =====
-- ctype.c: letters.
pub mod Case
use frewozet.Base.{ℕ, ◌+◌, ◌-◌, Bool, ◌&&◌, ◌||◌, leb, if◌then◌else◌}

unfoldable pub isalpha : ℕ → Bool
isalpha c = (leb 97 c && leb c 122) || (leb 65 c && leb c 90)

unfoldable pub toupper : ℕ → ℕ
toupper c = if leb 97 c && leb c 122 then c - 97 + 65 else c

unfoldable pub tolower : ℕ → ℕ
tolower c = if leb 65 c && leb c 90 then c - 65 + 97 else c
