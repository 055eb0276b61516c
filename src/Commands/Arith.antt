-- ===== src/Commands/Arith.antt =====
-- What `calc` computes.
use frewozet.Base.{
  ℕ, zero, suc, ◌+◌, ◌*◌, ◌-◌, ◌%◌, ◌^◌, ◌<◌, ◌≡◌, ◌∙◌, refl, sym, ap, true, false, ◌||◌, some,
  List, [], ◌∷◌, ◌++◌, length, arith, ◌==◌, u32, for_range, Bool-cases, inl, inr, gt→leb, ne→==,
}
use native.Mathlib.Nat.{pow-suc, pow-zero, mul_comm, mul_assoc, mul-suc}
use frewozet.CString.{strlen}
use frewozet.Terminal.{Terminal}
use frewozet.Utils.{is_digit, parse_digits}
use frewozet.Commands.{shell_parse_uint32}
use frewozet.Commands.Calc.{
  is_operator, skip_blanks, leading_digits, power, write_result, calc_numbers, calc_operator,
  calc_expression, calc_three, shell_run_calc_argv,
}

mod-times : (y p : ℕ) → u32 y * p % 2 ^ 32 ≡ y * p % 2 ^ 32
mod-times y zero = omega arith
mod-times y (suc p) = omega (arith, mod-times y p, mul-suc (u32 y) p, mul-suc y p)

multiply :
    (left n from x : ℕ)
    → x < 2 ^ 32
    → for_range n from (λ i result. u32 (result * left)) x ≡ x * left ^ n % 2 ^ 32
unfolding for_range
multiply left zero from x h = step ∙ ap (λ p. x * p % 2 ^ 32) (sym (pow-zero left))
  where
    step : x ≡ x * 1 % 2 ^ 32
    step = omega (arith, h)
multiply left (suc n) from x h =
    multiply left n (from + 1) (u32 (x * left)) (omega arith)
    ∙ mod-times (x * left) (left ^ n)
    ∙ ap (λ y. y % 2 ^ 32)
        (mul_assoc x left (left ^ n)
          ∙ ap (λ y. x * y) (mul_comm left (left ^ n) ∙ sym (pow-suc left n)))

-- The loop of `^` computes the power modulo 2 ^ 32.
pub power_lem : (left right : ℕ) → power left right ≡ left ^ right % 2 ^ 32
unfolding power
power_lem left right = multiply left right 0 1 (omega arith) ∙ omega arith

abbrev pub AllDigits : List ℕ → Type 0
AllDigits [] = Unit
AllDigits (c ∷ s) = (is_digit c ≡ true) × AllDigits s

not_blank : (c : ℕ) → is_digit c ≡ true → ((c == 32) || (c == 9)) ≡ false
not_blank c h = ground arith

operator_not_blank : (c : ℕ) → is_operator c ≡ true → ((c == 32) || (c == 9)) ≡ false
operator_not_blank c h = ground arith

operator_no_digit : (c : ℕ) → is_operator c ≡ true → is_digit c ≡ false
operator_no_digit c h = ground arith

leading_digits-append :
    (a : List ℕ) (op : ℕ) (b : List ℕ)
    → AllDigits a
    → is_digit op ≡ false
    → leading_digits (a ++ op ∷ b) ≡ (a, op ∷ b)
unfolding leading_digits
leading_digits-append [] op b d h = rw h refl
leading_digits-append (c ∷ a) op b d h =
    rw d.0 (ap (λ (r : List ℕ × List ℕ). (c ∷ (r.0), r.1)) (leading_digits-append a op b d.1 h))

skipped : (c : ℕ) (s : List ℕ) → ((c == 32) || (c == 9)) ≡ false → skip_blanks (c ∷ s) ≡ c ∷ s
unfolding skip_blanks
skipped c s h = rw h refl

-- Once a digit was found, the flag stays.
flag_stays : (s : List ℕ) (v : ℕ) → (parse_digits s v true).1 ≡ true
unfolding parse_digits
flag_stays [] v = refl
flag_stays (c ∷ s) v = elim (Bool-cases (is_digit c)) [
  | inl digit ↦ rw digit (flag_stays s (u32 (v * 10 + (c - 48))))
  | inr other ↦ rw other refl
]

parsed : (c : ℕ) (s : List ℕ) → is_digit c ≡ true → (v : ℕ) × (shell_parse_uint32 (c ∷ s) ≡ some v)
unfolding shell_parse_uint32 parse_digits
parsed c s h = (
  (parse_digits s (u32 (0 * 10 + (c - 48))) true).0,
  rw (h, flag_stays s (u32 (0 * 10 + (c - 48)))) refl,
)

-- `calc 5+3`, with the expression in one argument, prints what `calc 5 + 3` prints, for any digits
-- and any operator; the first number has less than 32 digits.
pub calc_expression-calc_three :
    (c : ℕ) (a : List ℕ) (op d : ℕ) (b name : List ℕ) (t : Terminal)
    → AllDigits (c ∷ a)
    → length (c ∷ a) < 32
    → is_operator op ≡ true
    → is_digit d ≡ true
    → shell_run_calc_argv (name ∷ (c ∷ a ++ op ∷ d ∷ b) ∷ []) t
      ≡ shell_run_calc_argv (name ∷ (c ∷ a) ∷ (op ∷ []) ∷ (d ∷ b) ∷ []) t
unfolding shell_run_calc_argv calc_expression calc_operator calc_numbers calc_three strlen
calc_expression-calc_three c a op d b name t ds short o e =
    expression ∙ operator ∙ numbers ∙ sym three
  where
    expression : calc_expression (c ∷ a ++ op ∷ d ∷ b) t ≡ calc_operator (c ∷ a) (op ∷ d ∷ b) t
    expression =
        ap (λ s. calc_operator (leading_digits s).0 (skip_blanks ((leading_digits s).1)) t)
          (skipped c (a ++ op ∷ d ∷ b) (not_blank c ds.0))
        ∙ ap (λ (r : List ℕ × List ℕ). calc_operator (r.0) (skip_blanks (r.1)) t)
            (leading_digits-append (c ∷ a) op (d ∷ b) ds (operator_no_digit op o))
        ∙ ap (λ s. calc_operator (c ∷ a) s t) (skipped op (d ∷ b) (operator_not_blank op o))

    operator : calc_operator (c ∷ a) (op ∷ d ∷ b) t ≡ calc_numbers (c ∷ a) op (d ∷ b) t
    operator =
        rw (ne→== (suc (length a)) 0 (omega arith), gt→leb 32 (suc (length a)) short, o)
          (ap (λ s. calc_numbers (c ∷ a) op s t) (skipped d b (not_blank d e)))

    numbers :
        calc_numbers (c ∷ a) op (d ∷ b) t
        ≡ write_result ((parsed c a ds.0).0) op ((parsed d b e).0) t
    numbers = rw (calc_numbers, (parsed c a ds.0).1, (parsed d b e).1) refl

    three :
        calc_three (c ∷ a) (op ∷ []) (d ∷ b) t
        ≡ write_result ((parsed c a ds.0).0) op ((parsed d b e).0) t
    three = rw (calc_three, (parsed c a ds.0).1, o, (parsed d b e).1) refl
