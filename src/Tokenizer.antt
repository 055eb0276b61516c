-- ===== src/Tokenizer.antt =====
-- shell_parser.c: the tokenizer, which cuts the line up in its buffer. A pointer into the line is an
-- index of the buffer, and `argv` is the list of the pointers that were stored.
pub mod Fields
pub mod Blanks
pub mod Cut
pub mod Points
pub mod Refines
pub mod Progress
pub mod RoundTrip
mod Tests
use frewozet.Base.{
  ℕ, zero, suc, ◌+◌, Bool, ◌||◌, List, [], ◌∷◌, ◌++◌, length, leb, ◌==◌, if◌then◌else◌, update,
}

pub record Tokens : Type 0 where
  pub argv : List ℕ
  pub buffer : ℕ → ℕ

abbrev pub is_blank : ℕ → Bool
is_blank c = (c == 32) || (c == 9)

abbrev pub is_quote : ℕ → Bool
is_quote c = c == 34

-- `while (*p == ' ' || *p == '\t') p++`, with the rounds that it has at most.
unfoldable pub skip_blanks : (rounds p : ℕ) → (ℕ → ℕ) → ℕ
skip_blanks zero p buffer = p
skip_blanks (suc rounds) p buffer =
    let rest = skip_blanks rounds (p + 1) buffer in if is_blank (buffer p) then rest else p

-- `while (*p != '\0' && !stop(*p)) p++`
unfoldable pub find_end : (stop : ℕ → Bool) (rounds p : ℕ) → (ℕ → ℕ) → ℕ
find_end stop zero p buffer = p
find_end stop (suc rounds) p buffer =
    let rest = find_end stop rounds (p + 1) buffer in
    if (buffer p == 0) || stop (buffer p) then p else rest

-- An argument from `start` to where its loop ended at `p`, at the NUL or at what stops it: it is
-- stored and ended with a NUL, unless
-- the line ends there. The pointer is behind it.
unfoldable pub cut_token : (start p : ℕ) → Tokens → ℕ × Tokens
cut_token start p t =
    if t.buffer p == 0
    then (p, record t { argv = t.argv ++ start ∷ [] })
    else (p + 1, record { argv = t.argv ++ start ∷ []; buffer = update t.buffer p 0 })

-- The body of the loop behind the two breaks, at the first character of an argument.
unfoldable pub take_token : (rounds p : ℕ) → Tokens → ℕ × Tokens
take_token rounds p t =
    if is_quote (t.buffer p)
    then cut_token (p + 1) (find_end is_quote rounds (p + 1) t.buffer) t
    else cut_token p (find_end is_blank rounds p t.buffer) t

-- The outer loop; `length` is what every inner loop has as its rounds.
unfoldable pub tokens_from : (max_args size rounds p : ℕ) → Tokens → Tokens
tokens_from max_args size zero p t = t
tokens_from max_args size (suc rounds) p t =
    let start = skip_blanks size p t.buffer in
    let cut = take_token size start t in
    let rest = tokens_from max_args size rounds (cut.0) (cut.1) in
    if t.buffer p == 0
    then t
    else if t.buffer start == 0
    then t
    else if leb max_args (length t.argv)
    then t
    else rest

-- `size` is a bound of the length of the line: enough rounds for every loop.
unfoldable pub shell_tokenize : (size input max_args : ℕ) → (ℕ → ℕ) → Tokens
shell_tokenize size input max_args buffer =
    tokens_from max_args size size input (record { argv = []; buffer = buffer })
