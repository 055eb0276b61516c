-- ===== src/System.antt =====
-- shell.c (shell_init and shell_handle_char) and keyboard.c (keyboard_handle): what a key does to
-- the whole system.
pub mod Sample
pub mod SampleKeys
pub mod Invariant
pub mod Enter
pub mod Keys
pub mod Typing
mod Tests
use frewozet.Base.{
  Option, some, ◌>>=◌, ℕ, zero, suc, ◌+◌, Bool, true, false, not, Option, none, some, List, [], ◌∷◌,
  ◌|>◌, leb, ◌==◌, ◌||◌, if◌then◌else◌, update, map,
}
use frewozet.Base.Text.{codes}
use frewozet.CString.{text_of}
use frewozet.CommandTable.{lookup_command}
use frewozet.Commands
use frewozet.Commands.{Devices, Outcome, returned, halted, divide_error, arg, terminal_write}
use frewozet.Commands.Table.{register_all_commands, call}
use frewozet.Keyboard.{Keyboard, translate_scancode}
use frewozet.Shell
use frewozet.Shell.{
  Shell, print_prompt, history_add, insert_char, backspace, delete_forward, move_left, move_right,
  move_home, move_end, history_prev, history_next, buffer_size,
}
use frewozet.Terminal
use frewozet.Terminal.{Terminal, write_line, write_hex8}
use frewozet.Tokenizer.{shell_tokenize}

abbrev pub max_args : ℕ
max_args = 16

pub record System : Type 0 where
  pub shell : Shell
  pub devices : Devices
  pub keyboard : Keyboard

-- How a handler ends; an exception is then a new interrupt, and a page fault is one of number 14.
pub data Run : Type 0 where
  running : System → Run
  stopped : System → Run
  exception : (number : ℕ) → System → Run
  page_fault : Run

-- The assignments of `shell_init`, and its welcome.
unfoldable pub welcome : Shell → Shell
welcome s = record s {
  buffer_length = 0;
  buffer = update s.buffer 0 0;
  cursor_pos = 0;
  history_count = 0;
  history_next_index = 0;
  history_view_index = none;
  saved_buffer_length = 0;
  saved_cursor_pos = 0;
  saved_buffer = update s.saved_buffer 0 0;
  terminal =
      terminal_write "\nWelcome to the Frewozet Shell!\nType 'help' for a list of commands.\n\n"
        s.terminal;
}

-- `none` is a page fault of `register_all_commands`.
unfoldable pub shell_init : System → Option System
shell_init y = do
  (table, m) ← register_all_commands y.devices.table y.devices.memory
  some (record y {
    shell = print_prompt (welcome y.shell);
    devices = record (y.devices) { table = table; memory = m };
  })

-- Enter, up to the call of the tokenizer.
unfoldable pub end_line : Shell → Shell
end_line s =
    let s = record s {
      terminal = terminal_write "\n" s.terminal;
      buffer = update s.buffer s.buffer_length 0;
    } in
    record (history_add (text_of buffer_size 0 s.buffer) s) {
      history_view_index = none;
      saved_buffer = update s.saved_buffer 0 0;
      saved_buffer_length = 0;
      saved_cursor_pos = 0;
    }

-- The arguments of a line as strings, and the line as the tokenizer leaves it.
unfoldable pub arguments : Shell → List (List ℕ) × Shell
arguments s =
    let tokens = shell_tokenize buffer_size 0 max_args s.buffer in
    (
      map (λ pointer. text_of buffer_size pointer tokens.buffer) tokens.argv,
      record s { buffer = tokens.buffer },
    )

unfoldable pub run_command : List (List ℕ) → Shell → Devices → Outcome
run_command argv s d =
    let name = arg 0 argv d.stray in
    elim (lookup_command name d.table) [
      | some command ↦ call command argv s s.terminal d
      | none ↦
          returned
            (s.terminal |> Terminal.write name |> write_line (codes ": No such command found")) d
    ]

-- Enter, when the command has returned.
unfoldable pub next_line : Terminal → Shell → Shell
next_line t s = print_prompt (record s {
  terminal = t;
  buffer_length = 0;
  buffer = update s.buffer 0 0;
  cursor_pos = 0;
  last_rendered_length = 0;
})

unfoldable pub finish : Shell → Keyboard → Outcome → Run
finish s k (returned t d) = running (record { shell = next_line t s; devices = d; keyboard = k })
finish s k (Outcome.halted t d) =
    stopped (record { shell = record s { terminal = t }; devices = d; keyboard = k })
finish s k (divide_error t d) =
    exception 0 (record { shell = record s { terminal = t }; devices = d; keyboard = k })
finish s k Outcome.page_fault = page_fault

unfoldable pub enter : System → Run
enter y =
    let (argv, s) = arguments (end_line y.shell) in
    finish s y.keyboard (run_command argv s y.devices)

unfoldable pub shell_handle_char : ℕ → System → Run
shell_handle_char c y =
    if c == 10
    then enter y
    else if c == 8
    then running (record y { shell = backspace (record (y.shell) { history_view_index = none }) })
    else running
        (record y { shell = insert_char c (record (y.shell) { history_view_index = none }) })

abbrev on_shell : (Shell → Shell) → System → Run
on_shell f y = running (record y { shell = f y.shell })

abbrev on_keyboard : (Keyboard → Keyboard) → System → Run
on_keyboard f y = running (record y { keyboard = f y.keyboard })

-- `terminal_write` in `keyboard_handle`, for a key without a character.
unfoldable pub report_key : ℕ → Shell → Shell
report_key scancode s = record s {
  terminal =
      s.terminal |> terminal_write "< [?] @ 0x" |> write_hex8 scancode |> terminal_write " >";
}

-- `scancode` is the byte that port 0x60 gives.
unfoldable pub keyboard_handle : (scancode : ℕ) → System → Run
keyboard_handle scancode y =
    let c = translate_scancode scancode y.keyboard in
    if scancode == 0x48
    then on_shell history_prev y
    else if scancode == 0x50
    then on_shell history_next y
    else if scancode == 0x4B
    then on_shell move_left y
    else if scancode == 0x4D
    then on_shell move_right y
    else if scancode == 0x47
    then on_shell move_home y
    else if scancode == 0x4F
    then on_shell move_end y
    else if scancode == 0x53
    then on_shell delete_forward y
    else if (scancode == 0x2A) || (scancode == 0x36)
    then on_keyboard (λ k. record k { shift_down = true }) y
    else if (scancode == 0xAA) || (scancode == 0xB6)
    then on_keyboard (λ k. record k { shift_down = false }) y
    else if scancode == 0x3A
    then on_keyboard (λ k. record k { caps_lock_on = not k.caps_lock_on }) y
    else if leb 128 scancode
    then running y
    else if c == 0
    then on_shell (report_key scancode) y
    else shell_handle_char c y
