-- ===== src/Shell.antt =====
-- shell.c: the line editor and the history of the shell. `view_index` is `none` where the source has
-- -1. `shell_init` and `shell_handle_char`
-- run commands and are in System.
pub mod Line
pub mod Edits
pub mod History
pub mod Invariant
pub mod EditsKept
pub mod Browse
pub mod Kept
pub mod Load
mod Tests
use frewozet.Base.{
  ℕ, zero, suc, ◌+◌, ◌-◌, ◌*◌, ◌/◌, ◌%◌, Bool, true, false, Option, none, some, List, [], ◌∷◌, not,
  ◌||◌, ltb, leb, ◌==◌, if◌then◌else◌, update, for_range, ◌|>◌,
}
use frewozet.Base.Text.{codes}
use frewozet.Base.Int.{pos, ◌-ℤ◌}
use frewozet.CString.{text_of, strlen, strcpy, strequal}
use frewozet.Terminal
use frewozet.Terminal.{Terminal}

abbrev pub buffer_size : ℕ
buffer_size = 128

abbrev pub history_size : ℕ
history_size = 16

abbrev pub prompt : List ℕ
prompt = codes "Frewozet >>> "

pub record Shell : Type 0 where
  pub buffer : ℕ → ℕ
  pub buffer_length : ℕ
  pub cursor_pos : ℕ
  pub history : ℕ → List ℕ
  pub history_count : ℕ
  pub history_next_index : ℕ
  pub history_view_index : Option ℕ
  pub saved_buffer : ℕ → ℕ
  pub saved_buffer_length : ℕ
  pub saved_cursor_pos : ℕ
  pub prompt_start_index : ℕ
  pub last_rendered_length : ℕ
  pub terminal : Terminal

unfoldable pub print_prompt : Shell → Shell
print_prompt s = record s {
  prompt_start_index = Terminal.get_cursor_index s.terminal;
  terminal = Terminal.colorshell_write prompt (codes "prompt") s.terminal;
  last_rendered_length = 0;
}

pub save_current_line : Shell → Shell
save_current_line s = record s {
  saved_buffer = strcpy 0 (text_of buffer_size 0 s.buffer) s.saved_buffer;
  saved_buffer_length = s.buffer_length;
  saved_cursor_pos = s.cursor_pos;
}

pub set_line : List ℕ → Shell → Shell
set_line text s = record s {
  buffer = strcpy 0 text s.buffer;
  buffer_length = strlen text;
  cursor_pos = strlen text;
}

pub restore_saved_line : Shell → Shell
restore_saved_line s = record s {
  buffer = strcpy 0 (text_of buffer_size 0 s.saved_buffer) s.buffer;
  buffer_length = s.saved_buffer_length;
  cursor_pos = s.saved_cursor_pos;
}

pub clear_onscreen_command : Shell → Shell
clear_onscreen_command s = record s {
  terminal = for_range s.buffer_length 0 (λ i t. Terminal.backspace t) s.terminal;
  buffer_length = 0;
  buffer = update s.buffer 0 0;
}

-- The newest entry, which `shell_history_add` compares the line with.
newest : Shell → ℕ
newest s = (s.history_next_index + history_size - 1) % history_size

pub history_add : List ℕ → Shell → Shell
history_add [] s = s
history_add (c ∷ line) s =
    if (if ltb 0 s.history_count then strequal (s.history (newest s)) (c ∷ line) else false)
    then s
    else record s {
      history = update s.history s.history_next_index (c ∷ line);
      history_next_index = (s.history_next_index + 1) % history_size;
      history_count =
          if ltb s.history_count history_size then s.history_count + 1 else s.history_count;
    }

-- The sum is not negative: the offset is at most 15.
pub history_physical_index : ℕ → Shell → ℕ
history_physical_index offset s = (s.history_next_index + history_size - 1 - offset) % history_size

pub refresh_line : Shell → Shell
refresh_line s =
    let t = Terminal.set_cursor_index s.prompt_start_index s.terminal in
    let t = Terminal.colorshell_write prompt (codes "prompt") t in
    let t =
      for_range s.buffer_length 0
        (λ i t. Terminal.colorshell_writechar (s.buffer i) (codes "default") t) t in
    let t =
      for_range (s.last_rendered_length - s.buffer_length) 0 (λ i t. Terminal.writechar 32 t) t in
    record s {
      terminal = Terminal.set_cursor_index (s.prompt_start_index + strlen prompt + s.cursor_pos) t;
      last_rendered_length = s.buffer_length;
    }

-- `for (i = last; i > cursor_pos; i--) shell_buffer[i] = shell_buffer[i - 1]`, for `n` rounds
shift_up : (n i : ℕ) → (ℕ → ℕ) → ℕ → ℕ
shift_up zero i buffer = buffer
shift_up (suc n) i buffer = shift_up n (i - 1) (update buffer i (buffer (i - 1)))

-- `for (i = first; i < shell_buffer_length; i++) shell_buffer[i] = shell_buffer[i + 1]`, for `n` rounds
shift_down : (n i : ℕ) → (ℕ → ℕ) → ℕ → ℕ
shift_down n i buffer = for_range n i (λ i buffer. update buffer i (buffer (i + 1))) buffer

pub insert_char : ℕ → Shell → Shell
insert_char c s =
    if leb (buffer_size - 1) s.buffer_length
    then print_prompt (record s {
      terminal =
          Terminal.colorshell_write (codes "\nFREWOZET SHELL ERROR: Command buffer overflow.\n")
            (codes "error") s.terminal;
      buffer_length = 0;
      cursor_pos = 0;
      buffer = update s.buffer 0 0;
      history_view_index = none;
    })
    else refresh_line (record s {
      buffer =
          update (shift_up (s.buffer_length + 1 - s.cursor_pos) (s.buffer_length + 1) s.buffer)
            s.cursor_pos c;
      buffer_length = s.buffer_length + 1;
      cursor_pos = s.cursor_pos + 1;
    })

pub backspace : Shell → Shell
backspace s =
    if (s.cursor_pos == 0) || (s.buffer_length == 0)
    then s
    else refresh_line (record s {
      buffer = shift_down (s.buffer_length - (s.cursor_pos - 1)) (s.cursor_pos - 1) s.buffer;
      cursor_pos = s.cursor_pos - 1;
      buffer_length = s.buffer_length - 1;
    })

pub delete_forward : Shell → Shell
delete_forward s =
    if leb s.buffer_length s.cursor_pos
    then s
    else refresh_line (record s {
      buffer = shift_down (s.buffer_length - s.cursor_pos) s.cursor_pos s.buffer;
      buffer_length = s.buffer_length - 1;
    })

pub move_left : Shell → Shell
move_left s =
    if ltb 0 s.cursor_pos then refresh_line (record s { cursor_pos = s.cursor_pos - 1 }) else s

pub move_right : Shell → Shell
move_right s =
    if ltb s.cursor_pos s.buffer_length
    then refresh_line (record s { cursor_pos = s.cursor_pos + 1 })
    else s

pub move_home : Shell → Shell
move_home s = refresh_line (record s { cursor_pos = 0 })

pub move_end : Shell → Shell
move_end s = refresh_line (record s { cursor_pos = s.buffer_length })

-- Loads the entry that the view is at.
show_entry : ℕ → Shell → Shell
show_entry offset s = set_line (s.history (history_physical_index offset s)) s

pub history_prev : Shell → Shell
history_prev s = if s.history_count == 0 then s else elim s.history_view_index [
  | none ↦
      refresh_line (show_entry 0 (record (save_current_line s) { history_view_index = some 0 }))
  | some offset ↦
      if ltb offset (s.history_count - 1)
      then refresh_line
          (show_entry (offset + 1) (record s { history_view_index = some (offset + 1) }))
      else s
]

pub history_next : Shell → Shell
history_next s = if s.history_count == 0 then s else elim s.history_view_index [
  | none ↦ s
  | some zero ↦
      refresh_line
        (restore_saved_line (record (clear_onscreen_command s) { history_view_index = none }))
  | some (suc offset) ↦
      refresh_line
        (show_entry offset (record (clear_onscreen_command s) { history_view_index = some offset }))
]

-- The loop of `shell_history_print`, from entry `i` of those that are shown; `start` is the oldest.
pub print_entry : Shell → (start i : ℕ) → Terminal → Terminal
print_entry s start i t =
    t
    |> Terminal.write_decimal (pos 0 -ℤ pos (s.history_count - i))
    |> Terminal.write (codes ": ")
    |> Terminal.write (s.history ((start + i) % history_size))
    |> Terminal.write (codes "\n")

unfoldable pub history_print : Shell → Shell
history_print s =
    let start = (s.history_next_index + history_size - s.history_count) % history_size in
    record s {
      terminal =
          if s.history_count == 0
          then s.terminal |> Terminal.colorshell_write (codes "No history.\n") (codes "error")
          else s.terminal
            |> Terminal.colorshell_write
                (codes "Frewozet Shell command history for 16 most recent commands:\n")
                (codes "info")
            |> Terminal.colorshell_write
                (codes "Use Up/Down arrow keys to navigate through history.\n") (codes "prompt")
            |> for_range s.history_count 0 (λ i t. print_entry s start i t);
    }
