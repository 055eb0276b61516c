-- ===== src/Shell/Invariant.antt =====
-- What the shell keeps to between two keys: the line, the saved line, the history and the view.
use frewozet.Base.{ℕ, ◌+◌, ◌≤◌, ◌<◌, ◌≡◌, ◌≢◌, ◌∙◌, sym, ap, subst, Option, some, List, arith}
use frewozet.CString.{text_of, strlen}
use frewozet.CString.Compare.{NulFree}
use frewozet.CString.Holds.{Holds}
use frewozet.CString.TextOf.{TextAt, Holds-ended, Holds-full, text_of-TextAt}
use frewozet.Shell.{Shell, buffer_size}
use frewozet.Shell.Line.{IsValid}
use frewozet.Shell.History.{HistoryIsValid}

-- A line that the buffers have room for.
abbrev pub Fits : List ℕ → Type 0
Fits text = NulFree text × (strlen text ≤ 127)

-- The shell with the saved line in place of the line.
abbrev pub with_saved_line : Shell → Shell
with_saved_line s = record s {
  buffer = s.saved_buffer;
  buffer_length = s.saved_buffer_length;
  cursor_pos = s.saved_cursor_pos;
}

-- The history is a ring of lines that fit the buffer, the saved line is a line, and the view is at an
-- entry that there is.
pub record MemoryIsValid (s : Shell) : Type 0 where
  pub ring : HistoryIsValid s
  pub entries : (i : ℕ) → Fits (s.history i)
  pub saved : IsValid (with_saved_line s)
  pub view : (offset : ℕ) → s.history_view_index ≡ some offset → offset < s.history_count

pub record ShellIsValid (s : Shell) : Type 0 where
  pub line : IsValid s
  pub memory : MemoryIsValid s

-- What an edit of the line leaves alone.
pub record Remembered : Type 0 where
  pub history : ℕ → List ℕ
  pub count : ℕ
  pub next : ℕ
  pub view : Option ℕ
  pub saved_buffer : ℕ → ℕ
  pub saved_length : ℕ
  pub saved_cursor : ℕ

abbrev pub memory_of : Shell → Remembered
memory_of s = record {
  history = s.history;
  count = s.history_count;
  next = s.history_next_index;
  view = s.history_view_index;
  saved_buffer = s.saved_buffer;
  saved_length = s.saved_buffer_length;
  saved_cursor = s.saved_cursor_pos;
}

abbrev pub Remembers : (s s' : Shell) → Type 0
Remembers s s' = memory_of s' ≡ memory_of s

pub remembered : (s s' : Shell) → Remembers s s' → MemoryIsValid s → MemoryIsValid s'
remembered s s' k v = record {
  ring = record {
    count = omega (arith, count, v.ring.count);
    next = omega (arith, next, v.ring.next);
    front = λ h. omega (arith, count, next, v.ring.front (omega (arith, count)));
  };
  entries = λ i. subst Fits (sym (ap (λ m. m.history i) k)) (v.entries i);
  saved = record {
    cursor = omega (arith, cursor, length, v.saved.cursor);
    fits = omega (arith, length, v.saved.fits);
    ended =
        ap s'.saved_buffer length
        ∙ ap (λ m. m.saved_buffer s.saved_buffer_length) k
        ∙ v.saved.ended;
    full = λ i h.
        subst (λ x. x ≢ 0) (sym (ap (λ m. m.saved_buffer i) k))
          (v.saved.full i (omega (arith, length)));
  };
  view = λ offset at. omega (arith, count, v.view offset (sym (ap (λ m. m.view) k) ∙ at));
}
  where
    count : s'.history_count ≡ s.history_count
    count = ap (λ m. m.count) k

    next : s'.history_next_index ≡ s.history_next_index
    next = ap (λ m. m.next) k

    length : s'.saved_buffer_length ≡ s.saved_buffer_length
    length = ap (λ m. m.saved_length) k

    cursor : s'.saved_cursor_pos ≡ s.saved_cursor_pos
    cursor = ap (λ m. m.saved_cursor) k

-- The line as a string, as Enter and Up read it.
pub line-TextAt :
    (s : Shell) → IsValid s → TextAt s.buffer 0 s.buffer_length (text_of buffer_size 0 s.buffer)
line-TextAt s v =
    text_of-TextAt buffer_size 0 s.buffer_length s.buffer (omega (arith, v.fits))
      (ap s.buffer {x = 0 + s.buffer_length} (omega arith) ∙ v.ended)
      (λ i h. subst (λ k. s.buffer k ≢ 0) {x = i} (omega arith) (v.full i h))

-- A buffer that holds a line that fits, with the cursor in it.
pub held-IsValid :
    (s : Shell) (text : List ℕ)
    → Holds s.buffer 0 text
    → Fits text
    → s.buffer_length ≡ strlen text
    → s.cursor_pos ≤ strlen text
    → IsValid s
held-IsValid s text h f length cursor = record {
  cursor = omega (arith, length);
  fits = omega (arith, length, f.1);
  ended = ap s.buffer (omega (arith, length)) ∙ Holds-ended text s.buffer 0 h;
  full = λ i inside.
      subst (λ k. s.buffer k ≢ 0) (omega arith)
        (Holds-full text s.buffer 0 i h f.0 (omega (arith, length)));
}
