-- ===== src/Tokenizer/Progress.antt =====
-- Why the loops of the tokenizer end.
use frewozet.Base.{ℕ, ◌+◌, ◌≤◌, ◌<◌, ◌≡◌, Bool, true, false, ◌⊎◌}
use frewozet.CString.Holds.{Holds}
use frewozet.Tokenizer.{Tokens, is_blank, is_quote, find_end, take_token}

-- The condition of the loop that looks for the end of an argument is false.
abbrev pub AtEnd : (stop : ℕ → Bool) → ℕ → Type 0
AtEnd stop c = (c ≡ 0) ⊎ (stop c ≡ true)

-- A round of the outer loop at `p`, with `n` characters left: the loop over blanks has left its
-- blanks, the loop over an argument is at its end, and the pointer is further on, still in the line.
pub record Advances (size p n : ℕ) (t : Tokens) (start : ℕ) : Type 0 where
  pub quoted :
      is_quote (t.buffer start) ≡ true
      → AtEnd is_quote (t.buffer (find_end is_quote size (start + 1) t.buffer))
  pub bare :
      is_quote (t.buffer start) ≡ false
      → AtEnd is_blank (t.buffer (find_end is_blank size start t.buffer))
  pub further : p < (take_token size start t).0
  pub inside : (take_token size start t).0 ≤ p + n
