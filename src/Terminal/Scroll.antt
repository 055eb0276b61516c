-- ===== src/Terminal/Scroll.antt =====
-- The screen after `terminal_clear` and `terminal_scroll`, cell by cell.
use frewozet.Base.{
  ℕ, zero, suc, ◌+◌, ◌-◌, ◌*◌, ◌≤◌, ◌<◌, ◌≡◌, arith, ◌&&◌, ltb, leb, if◌then◌else◌, update,
  for_range,
}
use frewozet.Terminal.{
  Terminal, vga_char, blank_cells, blank_rows, copy_cells, copy_rows, clear, scroll,
}

blank_cells_lem :
    (n x y v i : ℕ) (b : ℕ → ℕ)
    → blank_cells n x y v b i ≡ (if leb (x + y * 80) i && ltb i (x + n + y * 80) then v else b i)
unfolding blank_cells for_range
blank_cells_lem zero x y v i b = ground arith
blank_cells_lem (suc n) x y v i b =
    ground (arith, blank_cells_lem n (x + 1) y v i (update b (x + y * 80) v))

blank_rows_lem :
    (n y v i : ℕ) (b : ℕ → ℕ)
    → blank_rows n y v b i ≡ (if leb (y * 80) i && ltb i ((y + n) * 80) then v else b i)
unfolding blank_rows for_range
blank_rows_lem zero y v i b = ground arith
blank_rows_lem (suc n) y v i b =
    ground
      (arith, blank_rows_lem n (y + 1) v i (blank_cells 80 0 y v b), blank_cells_lem 80 0 y v i b)

-- `terminal_clear` blanks the 2000 cells of the screen and no other.
pub clear_lem :
    (t : Terminal) (i : ℕ)
    → (clear t).buffer i ≡ (if ltb i 2000 then vga_char 32 t.cursor_color else t.buffer i)
unfolding clear
clear_lem t i = ground (arith, blank_rows_lem 25 0 (vga_char 32 t.cursor_color) i t.buffer)

copy_cells_lem :
    (n x y i : ℕ) (b : ℕ → ℕ)
    → 0 < y
    → x + n ≤ 80
    → copy_cells n x y b i
      ≡ (if leb (x + (y - 1) * 80) i && ltb i (x + n + (y - 1) * 80) then b (i + 80) else b i)
unfolding copy_cells for_range
copy_cells_lem zero x y i b h h' = ground arith
copy_cells_lem (suc n) x y i b h h' =
    ground (arith, copy_cells_lem n (x + 1) y i (update b (x + (y - 1) * 80) (b (x + y * 80))))

copy_rows_lem :
    (n y i : ℕ) (b : ℕ → ℕ)
    → 0 < y
    → copy_rows n y b i
      ≡ (if leb ((y - 1) * 80) i && ltb i ((y - 1 + n) * 80) then b (i + 80) else b i)
unfolding copy_rows for_range
copy_rows_lem zero y i b h = ground arith
copy_rows_lem (suc n) y i b h = ground (
  arith,
  copy_rows_lem n (y + 1) i (copy_cells 80 0 y b),
  copy_cells_lem 80 0 y i b,
  copy_cells_lem 80 0 y (i + 80) b,
)

-- `terminal_scroll` moves every row up by one, blanks the last, and changes nothing behind the
-- screen.
pub scroll_lem :
    (t : Terminal) (i : ℕ)
    → (scroll t).buffer i ≡ (
        if ltb i 1920
        then t.buffer (i + 80)
        else if ltb i 2000
        then vga_char 32 t.cursor_color
        else t.buffer i)
unfolding scroll
scroll_lem t i = ground (
  arith,
  blank_cells_lem 80 0 24 (vga_char 32 t.cursor_color) i (copy_rows 24 1 t.buffer),
  copy_rows_lem 24 1 i t.buffer,
)
