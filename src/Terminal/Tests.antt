-- ===== src/Terminal/Tests.antt =====
-- A screen with the cursor in row 3.
use frewozet.Base.{◌≡◌, refl, arith, false, [], if◌then◌else◌}
use frewozet.Base.Text.{codes}
use frewozet.Terminal.{Terminal, vga_char, writechar_optimized, write_chars, get_cursor_index}
use frewozet.Terminal.Cursor.{IsValid, Wrote, writechar_optimized_past_the_end, write_chars-Wrote}
use frewozet.Terminal.Scroll.{scroll_lem}
use frewozet.Terminal.{scroll}
use frewozet.Base.{ltb, ◌≢◌, ℕ}

abbrev screen : Terminal
screen = record {
  cursor_row = 3;
  cursor_col = 5;
  cursor_color = 7;
  buffer = λ i. 0x0720;
  color_mode = false;
  ports = [];
}

abbrev last : Terminal
last = record screen { cursor_row = 24; cursor_col = 79 }

screen-IsValid : IsValid screen
screen-IsValid = record { row = omega arith; col = omega arith }

screen-index : get_cursor_index screen ≡ 245
unfolding get_cursor_index
screen-index = refl

scroll_lem_example :
    (scroll screen).buffer 1950
    ≡ (if ltb 1950 1920 then 0x0720 else if ltb 1950 2000 then vga_char 32 7 else 0x0720)
scroll_lem_example = scroll_lem screen 1950

writechar_optimized_past_the_end_example :
    let t1 = writechar_optimized 65 last in
    let t2 = writechar_optimized 66 t1 in
    (t1.cursor_row ≡ 25)
    × (t1.cursor_col ≡ 0)
    × (t1.buffer 1999 ≡ vga_char 65 7)
    × ((i : ℕ) → i ≢ 1999 → t1.buffer i ≡ last.buffer i)
    × (t2.buffer 2000 ≡ vga_char 66 7)
    × ((i : ℕ) → i ≢ 2000 → t2.buffer i ≡ t1.buffer i)
writechar_optimized_past_the_end_example =
    writechar_optimized_past_the_end 65 66 last refl refl (omega arith) (omega arith)

write_chars-Wrote_example : Wrote (codes "ok") screen (write_chars (codes "ok") screen)
write_chars-Wrote_example =
    write_chars-Wrote (codes "ok") screen screen-IsValid (omega arith, (omega arith, tt))
      (omega (arith, screen-index))
