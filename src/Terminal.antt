-- ===== src/Terminal.antt =====
-- terminal.c: the VGA text screen. The buffer is a function from cell indices to cells, also past
-- the 2000 cells of the screen; `ports` is what was written to the ports, newest first.
pub mod Scroll
pub mod Cursor
mod Tests
use frewozet.Base.{
  ℕ, zero, suc, ◌+◌, ◌-◌, ◌*◌, ◌/◌, ◌%◌, ◌^◌, bit_and, bit_or, Bool, true, false, List, [], ◌∷◌,
  ltb, leb, ◌==◌, if◌then◌else◌, update, for_range, u8, u16, u32, shr,
}
use frewozet.Base.Text.{codes}
use frewozet.Base.Int.{ℤ}
use frewozet.CString.{decimal, text_of}
use frewozet.Utils.{strings_equal, format_bytes}

abbrev pub vga_width : ℕ
vga_width = 80

abbrev pub vga_height : ℕ
vga_height = 25

pub record Terminal : Type 0 where
  pub cursor_row : ℕ
  pub cursor_col : ℕ
  pub cursor_color : ℕ
  pub buffer : ℕ → ℕ
  pub color_mode : Bool
  pub ports : List (ℕ × ℕ)

pub set_color_mode : Bool → Terminal → Terminal
set_color_mode mode t = record t { color_mode = mode }

pub vga_char : (c color : ℕ) → ℕ
vga_char c color = bit_or (color * 2 ^ 8) c

-- The loop over the columns from `x` on, in the two loops that blank cells.
blank_cells : (n x y : ℕ) → ℕ → (ℕ → ℕ) → ℕ → ℕ
blank_cells n x y blank buffer =
    for_range n x (λ x buffer. update buffer (x + y * vga_width) blank) buffer

blank_rows : (n y : ℕ) → ℕ → (ℕ → ℕ) → ℕ → ℕ
blank_rows n y blank buffer =
    for_range n y (λ y buffer. blank_cells vga_width 0 y blank buffer) buffer

pub clear : Terminal → Terminal
clear t = record t {
  buffer = blank_rows vga_height 0 (vga_char 32 t.cursor_color) t.buffer;
  cursor_row = 0;
  cursor_col = 0;
}

pub init : Terminal → Terminal
init t = clear (record t { cursor_row = 0; cursor_col = 0; cursor_color = 0x07 })

-- `outb` and `outw`
abbrev pub outb : (port value : ℕ) → Terminal → Terminal
outb port value t = record t { ports = (port, value) ∷ t.ports }

pub update_cursor : Terminal → Terminal
update_cursor t =
    let pos = u16 (t.cursor_col + t.cursor_row * vga_width) in
    outb 0x3D5 (u8 (bit_and (shr pos 8) 0xFF))
      (outb 0x3D4 0x0E (outb 0x3D5 (u8 (bit_and pos 0xFF)) (outb 0x3D4 0x0F t)))

pub color : ℕ → Terminal → Terminal
color c t = record t { cursor_color = c }

-- The two loops of `terminal_scroll`: a row's columns from `x` on, and the rows from `y` on.
copy_cells : (n x y : ℕ) → (ℕ → ℕ) → ℕ → ℕ
copy_cells n x y buffer =
    for_range n x (λ x buffer. update buffer (x + (y - 1) * vga_width) (buffer (x + y * vga_width)))
      buffer

copy_rows : (n y : ℕ) → (ℕ → ℕ) → ℕ → ℕ
copy_rows n y buffer = for_range n y (λ y buffer. copy_cells vga_width 0 y buffer) buffer

pub scroll : Terminal → Terminal
scroll t = record t {
  buffer =
      blank_cells vga_width 0 (vga_height - 1) (vga_char 32 t.cursor_color)
        (copy_rows (vga_height - 1) 1 t.buffer);
}

pub writechar_optimized : ℕ → Terminal → Terminal
writechar_optimized c t =
    if c == 10
    then (if leb vga_height (t.cursor_row + 1)
        then record (scroll (record t { cursor_row = t.cursor_row + 1; cursor_col = 0 })) {
          cursor_row = vga_height - 1;
        }
        else record t { cursor_row = t.cursor_row + 1; cursor_col = 0 })
    else (let buffer =
          update t.buffer (t.cursor_col + t.cursor_row * vga_width) (vga_char c t.cursor_color) in
        if leb vga_width (t.cursor_col + 1)
        then record t { buffer = buffer; cursor_row = t.cursor_row + 1; cursor_col = 0 }
        else record t { buffer = buffer; cursor_col = t.cursor_col + 1 })

pub backspace : Terminal → Terminal
backspace t =
    let t' =
      if ltb 0 t.cursor_col
      then record t { cursor_col = t.cursor_col - 1 }
      else if ltb 0 t.cursor_row
      then record t { cursor_row = t.cursor_row - 1; cursor_col = vga_width - 1 }
      else t in
    update_cursor (record t' {
      buffer =
          update t'.buffer (t'.cursor_col + t'.cursor_row * vga_width)
            (vga_char 32 t'.cursor_color);
    })

pub writechar : ℕ → Terminal → Terminal
writechar c t = update_cursor (writechar_optimized c t)

-- The loop of `terminal_write`.
pub write_chars : List ℕ → Terminal → Terminal
write_chars [] t = t
write_chars (c ∷ str) t = write_chars str (writechar_optimized c t)

pub write : List ℕ → Terminal → Terminal
write str t = update_cursor (write_chars str t)

pub write_line : List ℕ → Terminal → Terminal
write_line str t = write (codes "\n") (write str t)

pub write_uint : ℕ → Terminal → Terminal
write_uint value t = write (decimal value) t

pub write_decimal : ℤ → Terminal → Terminal
write_decimal (ℤ.pos n) t = write_uint n t
write_decimal (ℤ.negsuc n) t = write_uint (n + 1) (writechar 45 t)

pub write_hex_digit : ℕ → Terminal → Terminal
write_hex_digit v t = if ltb v 10 then writechar (48 + v) t else writechar (65 + (v - 10)) t

pub write_hex8 : ℕ → Terminal → Terminal
write_hex8 v t = write_hex_digit (bit_and v 0x0F) (write_hex_digit (bit_and (shr v 4) 0x0F) t)

-- The loops of `terminal_write_hex32` and `terminal_write_hex64`, with `n` digits left.
write_hex_digits : (n value : ℕ) → Terminal → Terminal
write_hex_digits zero value t = t
write_hex_digits (suc n) value t =
    write_hex_digits n value (write_hex_digit (bit_and (shr value (4 * n)) 0x0F) t)

pub write_hex32 : ℕ → Terminal → Terminal
write_hex32 value t = write_hex_digits 8 value t

pub write_hex64 : ℕ → Terminal → Terminal
write_hex64 value t = write_hex_digits 16 value t

-- `garbage` is what the uninitialised buffer of 32 bytes holds.
pub write_bytesize : (garbage : ℕ → ℕ) → ℕ → Terminal → Terminal
write_bytesize garbage value t = write (text_of 32 0 (format_bytes value garbage)) t

pub get_colorshell_color : List ℕ → Terminal → ℕ
get_colorshell_color type t =
    if t.color_mode
    then (if strings_equal type (codes "info")
        then 0x0B
        else if strings_equal type (codes "warning")
        then 0x0E
        else if strings_equal type (codes "error")
        then 0x0C
        else if strings_equal type (codes "success")
        then 0x0A
        else if strings_equal type (codes "prompt")
        then 0x0D
        else if strings_equal type (codes "command")
        then 0x0F
        else if strings_equal type (codes "output")
        then 0x0F
        else 0x07)
    else 0x07

pub colorshell_writechar : ℕ → List ℕ → Terminal → Terminal
colorshell_writechar c type t =
    color t.cursor_color (writechar c (color (get_colorshell_color type t) t))

pub colorshell_write : List ℕ → List ℕ → Terminal → Terminal
colorshell_write str type t =
    if t.color_mode
    then color t.cursor_color (write str (color (get_colorshell_color type t) t))
    else write str t

pub colorshell_write_uint : ℕ → List ℕ → Terminal → Terminal
colorshell_write_uint value type t =
    if t.color_mode
    then color t.cursor_color (write_uint value (color (get_colorshell_color type t) t))
    else write_uint value t

pub get_cursor_index : Terminal → ℕ
get_cursor_index t = t.cursor_row * vga_width + t.cursor_col

pub set_cursor_index : ℕ → Terminal → Terminal
set_cursor_index index t =
    let index = if leb (vga_width * vga_height) index then vga_width * vga_height - 1 else index in
    update_cursor (record t { cursor_row = index / vga_width; cursor_col = index % vga_width })
