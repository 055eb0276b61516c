-- ===== src/CString/Tests.antt =====
-- Memory full of a filler byte.
use frewozet.Base.{ℕ, ◌≡◌, refl, arith, List, ltb, leb, if◌then◌else◌}
use frewozet.Base.Text.{codes}
use frewozet.CString.{strlen, Output, decimal, digits}
use frewozet.CString.Compare.{NulFree}
use frewozet.CString.Holds.{Holds, Written}

abbrev filled : ℕ → ℕ
filled a = 0xCC

abbrev with_help : ℕ → ℕ
with_help a = if leb 40 a then (if ltb a 44 then a else 0) else 0xCC

abbrev held : List ℕ
held = codes "()*+"

decimal-runs : decimal 1024 ≡ codes "1024"
unfolding decimal digits
decimal-runs = refl

help-NulFree : NulFree (codes "help")
help-NulFree = (omega arith, (omega arith, (omega arith, (omega arith, tt))))

held-Holds : Holds with_help 40 held
held-Holds = (refl, (refl, (refl, (refl, refl))))

abbrev empty : Output
empty = record { dest = λ a. 0; pos = 0 }

empty-Written : Written (codes "") empty
unfolding strlen
empty-Written = record { text = refl; at_end = refl }
