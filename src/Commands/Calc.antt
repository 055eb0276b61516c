-- ===== src/Commands/Calc.antt =====
-- The command `calc`.
use frewozet.Base.{
  ℕ, ◌+◌, ◌*◌, ◌-◌, ◌/◌, Bool, ◌||◌, not, none, some, List, [], ◌∷◌, ◌|>◌, ltb, leb, ◌==◌,
  if◌then◌else◌, length, u32, for_range,
}
use frewozet.Base.Int.{int32}
use frewozet.CString.{strlen}
use frewozet.Terminal.{Terminal, write_decimal}
use frewozet.Utils.{is_digit}
use frewozet.Commands.{terminal_write, say, shell_parse_uint32}

abbrev pub is_operator : ℕ → Bool
is_operator op = (op == 43) || (op == 45) || (op == 42) || (op == 47) || (op == 94)

-- `while (expr[i] == ' ' || expr[i] == '\t') i++`: what is left of the expression.
unfoldable pub skip_blanks : List ℕ → List ℕ
skip_blanks [] = []
skip_blanks (c ∷ expr) =
    let rest = skip_blanks expr in if (c == 32) || (c == 9) then rest else c ∷ expr

-- The digits that the expression begins with, and what is behind them.
unfoldable pub leading_digits : List ℕ → List ℕ × List ℕ
leading_digits [] = ([], [])
leading_digits (c ∷ expr) =
    let (digits, rest) = leading_digits expr in
    if is_digit c then (c ∷ digits, rest) else ([], c ∷ expr)

-- `result` of the loop of `^`
unfoldable pub power : (left right : ℕ) → ℕ
power left right = for_range right 0 (λ i result. u32 (result * left)) 1

-- The end of `shell_run_calc_argv`, from where it prints "= ".
unfoldable pub write_result : (left op right : ℕ) → Terminal → Terminal
write_result left op right t =
    let t = terminal_write "= " t in
    if op == 43
    then t |> write_decimal (int32 (u32 (left + right))) |> terminal_write "\n"
    else if op == 45
    then (if leb right left
        then t |> write_decimal (int32 (left - right)) |> terminal_write "\n"
        else t |> terminal_write "-" |> write_decimal (int32 (right - left)) |> terminal_write "\n")
    else if op == 42
    then t |> write_decimal (int32 (u32 (left * right))) |> terminal_write "\n"
    else if op == 47
    then (if right == 0
        then t |> say "FREWOZET CALC ERROR: Division by zero.\n" "error"
        else t |> write_decimal (int32 (left / right)) |> terminal_write "\n")
    else if op == 94
    then t |> write_decimal (int32 (power left right)) |> terminal_write "\n"
    else t

-- The first character of a string, its NUL if it has no other.
abbrev first : List ℕ → ℕ
first [] = 0
first (c ∷ str) = c

-- What is behind the first character.
abbrev behind : List ℕ → List ℕ
behind [] = []
behind (c ∷ str) = str

-- The numbers are parsed and the result is printed.
unfoldable pub calc_numbers :
    (left_buf : List ℕ) (op : ℕ) (right_start : List ℕ) → Terminal → Terminal
calc_numbers left_buf op right_start t = elim (shell_parse_uint32 left_buf) [
  | none ↦ t |> say "FREWOZET CALC ERROR: Invalid number\n" "error"
  | some left ↦ elim (shell_parse_uint32 right_start) [
    | none ↦ t |> say "FREWOZET CALC ERROR: Invalid number\n" "error"
    | some right ↦ write_result left op right t
  ]
]

-- Behind the first number, where the operator is to come; `left_buf` has 32 bytes.
unfoldable pub calc_operator : (left_buf op_at : List ℕ) → Terminal → Terminal
calc_operator left_buf op_at t =
    if length left_buf == 0
    then t |> say "FREWOZET CALC ERROR: Expected first number.\n" "error"
    else if leb 32 (length left_buf)
    then t |> say "FREWOZET CALC ERROR: Number too long. Left buffer overflow.\n" "error"
    else if not (is_operator (first op_at))
    then t |> say "FREWOZET CALC ERROR: Expected operator (+, -, *, /, ^).\n" "error"
    else calc_numbers left_buf (first op_at) (skip_blanks (behind op_at)) t

-- The branch for one argument that has the whole expression.
unfoldable pub calc_expression : List ℕ → Terminal → Terminal
calc_expression expr t =
    let digits = leading_digits (skip_blanks expr) in
    calc_operator (digits.0) (skip_blanks (digits.1)) t

-- The branch for two numbers and an operator.
unfoldable pub calc_three : (a op b : List ℕ) → Terminal → Terminal
calc_three a op b t = elim (shell_parse_uint32 a) [
  | none ↦ t |> say "FREWOZET CALC ERROR: Invalid first number.\n" "error"
  | some left ↦
      if not (strlen op == 1)
      then t |> say "FREWOZET CALC ERROR: Operator must be one character.\n" "error"
      else if not (is_operator (first op))
      then t |> say "FREWOZET CALC ERROR: Expected operator (+, -, *, /, ^).\n" "error"
      else elim (shell_parse_uint32 b) [
        | none ↦ t |> say "FREWOZET CALC ERROR: Invalid second number.\n" "error"
        | some right ↦ write_result left (first op) right t
      ]
]

unfoldable pub shell_run_calc_argv : List (List ℕ) → Terminal → Terminal
shell_run_calc_argv (name ∷ expr ∷ []) t = calc_expression expr t
shell_run_calc_argv (name ∷ a ∷ op ∷ b ∷ []) t = calc_three a op b t
shell_run_calc_argv argv t =
    if ltb (length argv) 2
    then t |> say "Usage: calc <a> <op> <b>\n" "error" |> say "Example: calc 5 + 3\n" "prompt"
    else t |> say "Usage: calc <a> <op> <b>\n" "error"

unfoldable pub cmd_calc : List (List ℕ) → Terminal → Terminal
cmd_calc argv t =
    if length argv == 1
    then t |> say "Usage: calc <a> <op> <b> \n" "error"
    else shell_run_calc_argv argv t
