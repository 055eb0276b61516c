-- ===== src/Utils.antt =====
-- utils.c and calc.c: numbers in text. A string that is read is the list of its bytes; a pointer into
-- it is what is left of the list.
pub mod Print
mod Tests
use frewozet.Base.{
  ℕ, zero, suc, ◌+◌, ◌-◌, ◌*◌, ◌/◌, ◌%◌, ◌^◌, bit_or, Bool, true, false, ◌&&◌, ◌||◌, not, Option,
  none, some, List, [], ◌∷◌, ltb, leb, ◌==◌, if◌then◌else◌, u32, update,
}
use frewozet.Base.Text.{codes}
use frewozet.CString.{Output, str_append, str_append_uint64}

abbrev pub is_digit : ℕ → Bool
is_digit c = leb 48 c && leb c 57

-- The loop of `parse_uint`, with the value and the flag so far: the value, the flag and the rest.
unfoldable pub parse_digits : List ℕ → (value : ℕ) → Bool → ℕ × Bool × List ℕ
parse_digits [] value found_digit = (value, found_digit, [])
parse_digits (c ∷ str) value found_digit =
    let rest = parse_digits str (u32 (value * 10 + (c - 48))) true in
    if is_digit c then rest else (value, found_digit, c ∷ str)

unfoldable pub parse_uint : List ℕ → ℕ × Bool × List ℕ
parse_uint str = parse_digits str 0 false

unfoldable pub strings_equal : List ℕ → List ℕ → Bool
strings_equal [] [] = true
strings_equal [] (d ∷ b) = false
strings_equal (c ∷ a) [] = false
strings_equal (c ∷ a) (d ∷ b) = let rest = strings_equal a b in if c == d then rest else false

unfoldable pub string_starts_with : (str prefix : List ℕ) → Bool
string_starts_with str [] = true
string_starts_with [] (d ∷ prefix) = false
string_starts_with (c ∷ str) (d ∷ prefix) =
    let rest = string_starts_with str prefix in if c == d then rest else false

-- The digit of a character for `parse_hex32`; `previous` is what the uninitialised variable has.
abbrev pub hex_digit : (c previous : ℕ) → ℕ
hex_digit c previous =
    if leb 48 c && leb c 57
    then c - 48
    else if leb 97 c && leb c 102
    then 10 + (c - 97)
    else if leb 65 c && ltb c 70
    then 10 + (c - 65)
    else previous

-- The loop of `parse_hex32`; `garbage` is what each round finds in the digit that it does not set.
unfoldable pub hex_value : (garbage : ℕ → ℕ) → List ℕ → (i value : ℕ) → ℕ
hex_value garbage [] i value = value
hex_value garbage (c ∷ str) i value =
    hex_value garbage str (i + 1) (bit_or (u32 (value * 2 ^ 4)) (hex_digit c (garbage i)))

unfoldable pub parse_hex32 : (garbage : ℕ → ℕ) → Option (List ℕ) → Option ℕ
parse_hex32 garbage (some (c ∷ d ∷ e ∷ str)) =
    if (c == 48) && ((d == 120) || (d == 88)) then some (hex_value garbage (e ∷ str) 2 0) else none
parse_hex32 garbage str = none

-- The three branches of `format_bytes` above a unit.
append_units : (unit bytes : ℕ) (name : List ℕ) → Output → Output
append_units unit bytes name o =
    let whole = bytes / unit in
    let rem = bytes % unit in
    let o = str_append_uint64 whole o in
    let o' = str_append_uint64 (rem * 10 / unit) (str_append (codes ".") o) in
    str_append name (if leb (unit / 10) rem then o' else o)

format_in : ℕ → Output → Output
format_in bytes o =
    if ltb bytes 1024
    then str_append (codes " B") (str_append_uint64 bytes o)
    else if ltb bytes (1024 * 1024)
    then append_units 1024 bytes (codes " KB") o
    else if ltb bytes (1024 * 1024 * 1024)
    then append_units (1024 * 1024) bytes (codes " MB") o
    else append_units (1024 * 1024 * 1024) bytes (codes " GB") o

-- The buffer after `format_bytes`.
pub format_bytes : ℕ → (ℕ → ℕ) → ℕ → ℕ
format_bytes bytes out =
    let o = format_in bytes (record { dest = out; pos = 0 }) in update o.dest o.pos 0

abbrev pub is_space : ℕ → Bool
is_space c = (c == 32) || (c == 9) || (c == 10)

unfoldable pub skip_spaces : List ℕ → List ℕ
skip_spaces [] = []
skip_spaces (c ∷ str) = let rest = skip_spaces str in if is_space c then rest else c ∷ str

-- What `run_calc` prints.
pub data Answer : Type 0 where
  expected_number_first : Answer
  expected_operator : Answer
  expected_number_second : Answer
  unexpected_characters : Answer
  division_by_zero : Answer
  result : ℕ → Answer
  negative_result : ℕ → Answer

-- `run_calc` behind the second number.
abbrev pub calculate : (left op right : ℕ) → Answer
calculate left op right =
    if op == 43
    then result (u32 (left + right))
    else if op == 45
    then (if ltb left right then negative_result (right - left) else result (left - right))
    else if op == 42
    then result (u32 (left * right))
    else if right == 0
    then division_by_zero
    else result (left / right)

abbrev pub at_end_or_space : List ℕ → Bool
at_end_or_space [] = true
at_end_or_space (c ∷ str) = is_space c

-- `run_calc` from the operator on.
abbrev pub run_operator : ℕ → List ℕ → Answer
run_operator left [] = expected_operator
run_operator left (op ∷ str) =
    let (right, ok, rest) = parse_uint (skip_spaces str) in
    if not ((op == 43) || (op == 45) || (op == 42) || (op == 47))
    then expected_operator
    else if not ok
    then expected_number_second
    else if not (at_end_or_space rest)
    then unexpected_characters
    else calculate left op right

unfoldable pub run_calc : List ℕ → Answer
run_calc expression =
    let (left, ok, rest) = parse_uint (skip_spaces expression) in
    if not ok then expected_number_first else run_operator left (skip_spaces rest)
