-- ===== src/Terminal/Cursor.antt =====
-- The cursor of the terminal.
use frewozet.Base.{
  List, [], ◌∷◌, length, get_or, ℕ, zero, suc, ◌+◌, ◌-◌, ◌<◌, ◌≡◌, ◌≢◌, ap, arith, ◌&&◌, ltb, leb,
  ◌==◌, if◌then◌else◌, min, ◌⊎◌, inr,
}
use frewozet.Terminal.{
  write_chars, Terminal, vga_width, vga_height, vga_char, writechar_optimized, scroll, backspace,
  update_cursor, get_cursor_index, set_cursor_index,
}

-- The cursor is on the screen.
pub record IsValid (t : Terminal) : Type 0 where
  pub row : t.cursor_row < vga_height
  pub col : t.cursor_col < vga_width

-- Writing a character keeps the cursor on the screen, if the character is a newline or the cursor
-- is not in the last cell.
pub writechar_optimized-IsValid :
    (c : ℕ) (t : Terminal)
    → IsValid t
    → (c ≡ 10) ⊎ (get_cursor_index t < 1999)
    → IsValid (writechar_optimized c t)
unfolding writechar_optimized get_cursor_index scroll
writechar_optimized-IsValid c t v h = record { row = ground (arith, v); col = ground (arith, v) }

-- After a character other than a newline in the last cell the cursor is in row 25 and nothing has
-- scrolled: every other cell is as it was. The next such character is written to cell 2000, behind
-- the screen, and changes no cell of the screen.
pub writechar_optimized_past_the_end :
    (c d : ℕ) (t : Terminal)
    → t.cursor_row ≡ 24
    → t.cursor_col ≡ 79
    → c ≢ 10
    → d ≢ 10
    → let t1 = writechar_optimized c t in
      let t2 = writechar_optimized d t1 in
      (t1.cursor_row ≡ 25)
      × (t1.cursor_col ≡ 0)
      × (t1.buffer 1999 ≡ vga_char c t.cursor_color)
      × ((i : ℕ) → i ≢ 1999 → t1.buffer i ≡ t.buffer i)
      × (t2.buffer 2000 ≡ vga_char d t.cursor_color)
      × ((i : ℕ) → i ≢ 2000 → t2.buffer i ≡ t1.buffer i)
unfolding writechar_optimized
writechar_optimized_past_the_end c d t row col h h' = (
  ground arith,
  ground arith,
  ground arith,
  (λ i ne. ground arith),
  ground arith,
  λ i ne. ground arith,
)

-- `terminal_set_cursor_index` goes to the given cell, or to the last one if there is no such cell.
pub get_cursor_index-set_cursor_index :
    (index : ℕ) (t : Terminal)
    → (get_cursor_index (set_cursor_index index t) ≡ min index 1999)
      × IsValid (set_cursor_index index t)
unfolding get_cursor_index set_cursor_index update_cursor
get_cursor_index-set_cursor_index index t =
    (ground arith, record { row = ground arith; col = ground arith })

-- A backspace after a character other than a newline, written before the last cell, goes back to
-- where it was and leaves a blank there; no other cell changes.
pub backspace-writechar_optimized :
    (c : ℕ) (t : Terminal)
    → IsValid t
    → c ≢ 10
    → let t' = backspace (writechar_optimized c t) in
      (get_cursor_index t' ≡ get_cursor_index t)
      × ((i : ℕ)
          → t'.buffer i
            ≡ (if get_cursor_index t == i then vga_char 32 t.cursor_color else t.buffer i))
unfolding get_cursor_index writechar_optimized backspace update_cursor
backspace-writechar_optimized c t v h = (ground (arith, v), λ i. ground (arith, v))

-- The text has no newline.
abbrev pub OneLine : List ℕ → Type 0
OneLine [] = Unit
OneLine (c ∷ str) = (c ≢ 10) × OneLine str

get_or-cons : (c : ℕ) (str : List ℕ) (k : ℕ) → 0 < k → get_or (c ∷ str) k 0 ≡ get_or str (k - 1) 0
get_or-cons c str zero h = absurd (omega arith)
get_or-cons c str (suc k) h = ap (λ j. get_or str j 0) {x = k} (omega arith)

put_char :
    (c : ℕ) (t : Terminal)
    → IsValid t
    → c ≢ 10
    → (get_cursor_index (writechar_optimized c t) ≡ get_cursor_index t + 1)
      × ((writechar_optimized c t).cursor_color ≡ t.cursor_color)
      × ((i : ℕ)
          → (writechar_optimized c t).buffer i
            ≡ (if get_cursor_index t == i then vga_char c t.cursor_color else t.buffer i))
unfolding writechar_optimized get_cursor_index
put_char c t v h = (ground (arith, v), ground (arith, v), λ i. ground (arith, v))

-- The text is in the cells from the cursor of `t` on, in the cursor's colour, and the cursor of `t'`
-- is behind it; no other cell differs.
pub record Wrote (str : List ℕ) (t t' : Terminal) : Type 0 where
  pub valid : IsValid t'
  pub cursor : get_cursor_index t' ≡ get_cursor_index t + length str
  pub cells :
      (i : ℕ)
      → t'.buffer i ≡ (
          if leb (get_cursor_index t) i && ltb i (get_cursor_index t + length str)
          then vga_char (get_or str (i - get_cursor_index t) 0) t.cursor_color
          else t.buffer i)

Wrote-cons :
    (c : ℕ) (str : List ℕ) (t t' : Terminal)
    → IsValid t
    → c ≢ 10
    → Wrote str (writechar_optimized c t) t'
    → Wrote (c ∷ str) t t'
Wrote-cons c str t t' v h w = record {
  valid = w.valid;
  cursor = omega (arith, w.cursor, step.0);
  cells = λ i.
      ground
        (arith, w.cells i, step.0, step.1, step.2 i, get_or-cons c str (i - get_cursor_index t));
}
  where
    step :
        (get_cursor_index (writechar_optimized c t) ≡ get_cursor_index t + 1)
        × ((writechar_optimized c t).cursor_color ≡ t.cursor_color)
        × ((i : ℕ)
            → (writechar_optimized c t).buffer i
              ≡ (if get_cursor_index t == i then vga_char c t.cursor_color else t.buffer i))
    step = put_char c t v h

-- A text without newlines that ends before the last cell is written to the cells from the cursor on,
-- in the cursor's colour; the cursor is left behind it, and no other cell changes.
pub write_chars-Wrote :
    (str : List ℕ) (t : Terminal)
    → IsValid t
    → OneLine str
    → get_cursor_index t + length str < 2000
    → Wrote str t (write_chars str t)
unfolding write_chars
write_chars-Wrote [] t v one fits = record {
  valid = v;
  cursor = omega arith;
  cells = λ i. ground arith;
}
write_chars-Wrote (c ∷ str) t v one fits =
    Wrote-cons c str t (write_chars str (writechar_optimized c t)) v one.0 (
      write_chars-Wrote str (writechar_optimized c t)
        (writechar_optimized-IsValid c t v (inr (omega arith))) one.1
        (omega (arith, (put_char c t v one.0).0)))
