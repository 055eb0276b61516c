-- ===== src/Shell/Kept.antt =====
-- What the shell keeps when Enter ends a line.
use frewozet.Base.{
  ℕ, ◌≡◌, ◌∙◌, refl, sym, ap, subst, Bool, false, List, [], ◌∷◌, arith, ltb, ◌==◌, if◌then◌else◌,
  Bool-cases, inl, inr,
}
use frewozet.CString.{strequal}
use frewozet.Shell.{Shell, newest, history_add, print_prompt}
use frewozet.Shell.History.{HistoryIsValid, history_add-Added}
use frewozet.Shell.Invariant.{Fits, MemoryIsValid, ShellIsValid, remembered}

pub history_add-HistoryIsValid :
    (line : List ℕ) (s : Shell) → HistoryIsValid s → HistoryIsValid (history_add line s)
history_add-HistoryIsValid line s v = elim (history_add-Added line s v) [
  | inl (same, why) ↦ subst HistoryIsValid (sym same) v
  | inr d ↦ d.valid
]

pub history_add-Fits :
    (line : List ℕ) (s : Shell)
    → Fits line
    → ((i : ℕ) → Fits (s.history i))
    → (i : ℕ) → Fits ((history_add line s).history i)
unfolding history_add
history_add-Fits [] s f v i = v i
history_add-Fits (c ∷ line) s f v i = elim (Bool-cases repeated) [
  | inl same ↦ rw same (v i)
  | inr new ↦ rw new (elim (Bool-cases (s.history_next_index == i)) [
    | inl here ↦ rw here f
    | inr apart ↦ rw apart (v i)
  ])
]
  where
    repeated : Bool
    repeated = if ltb 0 s.history_count then strequal (s.history (newest s)) (c ∷ line) else false

pub history_add-buffer : (line : List ℕ) (s : Shell) → (history_add line s).buffer ≡ s.buffer
unfolding history_add
history_add-buffer [] s = refl
history_add-buffer (c ∷ line) s = elim (Bool-cases repeated) [
  | inl same ↦ rw same refl
  | inr new ↦ rw new refl
]
  where
    repeated : Bool
    repeated = if ltb 0 s.history_count then strequal (s.history (newest s)) (c ∷ line) else false

-- An empty line.
pub print_prompt-ShellIsValid :
    (s : Shell)
    → s.buffer_length ≡ 0
    → s.cursor_pos ≡ 0
    → s.buffer 0 ≡ 0
    → MemoryIsValid s
    → ShellIsValid (print_prompt s)
unfolding print_prompt
print_prompt-ShellIsValid s length cursor ended v = record {
  line = record {
    cursor = omega (arith, length, cursor);
    fits = omega (arith, length);
    ended = ap s.buffer length ∙ ended;
    full = λ i h. absurd (omega (arith, length));
  };
  memory = remembered s (print_prompt s) refl v;
}
