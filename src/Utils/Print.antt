-- ===== src/Utils/Print.antt =====
-- Printing a number and reading it back: `str_append_uint64`, `parse_uint` and `run_calc`.
use frewozet.Base.{
  ℕ, zero, suc, ◌+◌, ◌/◌, ◌%◌, ◌^◌, ◌<◌, ◌≡◌, refl, ap, ◌∙◌, List, [], ◌∷◌, ◌++◌, ◌==◌, arith, Bool,
  true, false, ◌⊎◌, inl, inr, if◌then◌else◌, ◌||◌, u32, Bool-cases, tests,
}
use native.Mathlib.Nat.{pow-suc}
use frewozet.CString.{digits, decimal}
use frewozet.Utils.{
  is_digit, parse_digits, parse_uint, is_space, skip_spaces, at_end_or_space, run_operator,
  calculate, run_calc,
}

-- The text does not go on with a digit.
abbrev pub NoDigit : List ℕ → Type 0
NoDigit [] = Unit
NoDigit (c ∷ str) = is_digit c ≡ false

parse_digits-stop :
    (rest : List ℕ) (value : ℕ) (f : Bool)
    → NoDigit rest
    → parse_digits rest value f ≡ (value, f, rest)
unfolding parse_digits
parse_digits-stop [] value f h = refl
parse_digits-stop (c ∷ rest) value f h = rw h refl

-- Reading the digits of `v` reaches what follows them with the value of `v`.
parse_digits-digits :
    (n v : ℕ) (found rest : List ℕ) (f : Bool)
    → v < 10 ^ n
    → parse_digits (digits n v found ++ rest) 0 f
      ≡ parse_digits (found ++ rest) (u32 v) (if v == 0 then f else true)
unfolding digits parse_digits
parse_digits-digits zero v found rest f h =
    ap (λ w. parse_digits (found ++ rest) (u32 w) (if w == 0 then f else true)) {x = 0}
      (omega arith)
parse_digits-digits (suc n) v found rest f h = elim (Bool-cases (v == 0)) [
  | inl null ↦ rw null (ap (λ w. parse_digits (found ++ rest) w f) (omega (tests, null)))
  | inr some_digits ↦ rw some_digits (
      parse_digits-digits n (v / 10) ((48 + v % 10) ∷ found) rest f (omega (arith, pow-suc 10 n, h))
      ∙ step (if v / 10 == 0 then f else true))
]
  where
    digit : is_digit (48 + v % 10) ≡ true
    digit = ground arith

    step :
        (f : Bool)
        → parse_digits ((48 + v % 10) ∷ found ++ rest) (u32 (v / 10)) f
          ≡ parse_digits (found ++ rest) (u32 v) true
    step f = rw digit (ap (λ w. parse_digits (found ++ rest) w true) (omega arith))

parse_digits-zero : (rest : List ℕ) → parse_digits (48 ∷ rest) 0 false ≡ parse_digits rest 0 true
unfolding parse_digits
parse_digits-zero rest = refl

-- A number that was printed is read back modulo 2 ^ 32, up to what follows it.
pub parse_uint-decimal :
    (n : ℕ) (rest : List ℕ)
    → n < 2 ^ 64
    → NoDigit rest
    → parse_uint (decimal n ++ rest) ≡ (n % 2 ^ 32, true, rest)
unfolding parse_uint decimal
parse_uint-decimal n rest h stop = elim (Bool-cases (n == 0)) [
  | inl null ↦ rw null (
      parse_digits-zero rest
      ∙ parse_digits-stop rest 0 true stop
      ∙ ap (λ w. (w, true, rest)) (omega (tests, null)))
  | inr some_digits ↦ rw some_digits (
      parse_digits-digits 20 n [] rest false (omega arith)
      ∙ rw some_digits (parse_digits-stop rest (u32 n) true stop))
]

skip_spaces-digits :
    (n v : ℕ) (c : ℕ) (found rest : List ℕ)
    → is_space c ≡ false
    → skip_spaces (digits n v (c ∷ found) ++ rest) ≡ digits n v (c ∷ found) ++ rest
unfolding digits skip_spaces
skip_spaces-digits zero v c found rest h = rw h refl
skip_spaces-digits (suc n) v c found rest h = elim (Bool-cases (v == 0)) [
  | inl null ↦ rw (null, h) refl
  | inr some_digits ↦
      rw some_digits (skip_spaces-digits n (v / 10) (48 + v % 10) (c ∷ found) rest (ground arith))
]

skip_spaces-decimal : (n : ℕ) (rest : List ℕ) → skip_spaces (decimal n ++ rest) ≡ decimal n ++ rest
unfolding decimal digits skip_spaces
skip_spaces-decimal n rest = elim (Bool-cases (n == 0)) [
  | inl null ↦ rw null refl
  | inr some_digits ↦
      rw some_digits (skip_spaces-digits 19 (n / 10) (48 + n % 10) [] rest (ground arith))
]

-- The operators of `run_calc`: plus, minus, times and division.
abbrev pub IsOperator : ℕ → Type 0
IsOperator op = (op ≡ 43) ⊎ ((op ≡ 45) ⊎ ((op ≡ 42) ⊎ (op ≡ 47)))

skip_blank : (str : List ℕ) → skip_spaces (32 ∷ str) ≡ skip_spaces str
unfolding skip_spaces
skip_blank str = refl

skip_operator : (op : ℕ) (str : List ℕ) → IsOperator op → skip_spaces (op ∷ str) ≡ op ∷ str
unfolding skip_spaces
skip_operator op str h = ground arith

some_operator :
    (op : ℕ) → IsOperator op → ((op == 43) || (op == 45) || (op == 42) || (op == 47)) ≡ true
some_operator op h = ground arith

parse_decimal :
    (n : ℕ) (rest : List ℕ)
    → n < 2 ^ 32
    → NoDigit rest
    → parse_uint (decimal n ++ rest) ≡ (n, true, rest)
parse_decimal n rest h stop =
    parse_uint-decimal n rest (omega arith) stop ∙ ap (λ w. (w, true, rest)) {y = n} (omega arith)

run_calc-first :
    (str rest : List ℕ) (left : ℕ)
    → parse_uint (skip_spaces str) ≡ (left, true, rest)
    → run_calc str ≡ run_operator left (skip_spaces rest)
unfolding run_calc
run_calc-first str rest left e = rw e refl

run_operator-second :
    (str rest : List ℕ) (left op right : ℕ)
    → IsOperator op
    → at_end_or_space rest ≡ true
    → parse_uint (skip_spaces str) ≡ (right, true, rest)
    → run_operator left (op ∷ str) ≡ calculate left op right
run_operator-second str rest left op right is_op ends e = rw (e, some_operator op is_op, ends) refl

at_end_or_space-NoDigit : (rest : List ℕ) → at_end_or_space rest ≡ true → NoDigit rest
at_end_or_space-NoDigit [] h = tt
at_end_or_space-NoDigit (c ∷ rest) h = ground arith

-- `run_calc` on two printed numbers with an operator between them, set off by blanks, computes with
-- these numbers; the text may go on behind a space.
pub run_calc-decimal :
    (left right op : ℕ) (rest : List ℕ)
    → left < 2 ^ 32
    → right < 2 ^ 32
    → IsOperator op
    → at_end_or_space rest ≡ true
    → run_calc (decimal left ++ (32 ∷ op ∷ 32 ∷ (decimal right ++ rest))) ≡ calculate left op right
run_calc-decimal left right op rest h h' is_op ends =
    run_calc-first (decimal left ++ behind) behind left
      (ap parse_uint (skip_spaces-decimal left behind) ∙ parse_decimal left behind h refl)
    ∙ ap (run_operator left) (skip_blank (op ∷ next) ∙ skip_operator op next is_op)
    ∙ run_operator-second next rest left op right is_op ends (
        ap parse_uint (skip_blank (decimal right ++ rest) ∙ skip_spaces-decimal right rest)
        ∙ parse_decimal right rest h' (at_end_or_space-NoDigit rest ends))
  where
    next : List ℕ
    next = 32 ∷ (decimal right ++ rest)

    behind : List ℕ
    behind = 32 ∷ op ∷ next
