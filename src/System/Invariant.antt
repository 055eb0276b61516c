-- ===== src/System/Invariant.antt =====
-- Enter and every other key keep the shell valid.
use frewozet.Base.{
  ℕ, ◌≡◌, ◌≢◌, refl, Bool, true, false, none, List, arith, leb, ◌==◌, ◌||◌, if◌then◌else◌, update,
  Bool-cases, inl, inr, ==→ne,
}
use frewozet.CString.{text_of}
use frewozet.CString.TextOf.{TextAt}
use frewozet.Commands.{terminal_write, Outcome, returned, halted, divide_error}
use frewozet.Keyboard.{Keyboard, translate_scancode}
use frewozet.Shell.{Shell, buffer_size, history_add}
use frewozet.Shell.Line.{IsValid}
use frewozet.Shell.History.{HistoryIsValid}
use frewozet.Shell.Kept.{history_add-HistoryIsValid, history_add-Fits, print_prompt-ShellIsValid}
use frewozet.Shell.Invariant.{Fits, MemoryIsValid, ShellIsValid, remembered, line-TextAt}
use frewozet.Shell.EditsKept.{
  insert_char-ShellIsValid, backspace-ShellIsValid, delete_forward-ShellIsValid,
  move_left-ShellIsValid, move_right-ShellIsValid, move_home-ShellIsValid, move_end-ShellIsValid,
}
use frewozet.Shell.Browse.{not_viewing, history_prev-ShellIsValid, history_next-ShellIsValid}
use frewozet.System.{
  System, Run, running, stopped, exception, page_fault, end_line, arguments, run_command, next_line,
  finish, enter, shell_handle_char, report_key, keyboard_handle,
}

-- The line, ended with a NUL once more, is a text that fits the history.
ended_line :
    (s : Shell) → IsValid s → Fits (text_of buffer_size 0 (update s.buffer s.buffer_length 0))
ended_line s v = (text.free, omega (arith, text.size, v.fits))
  where
    ended : Shell
    ended = record s { buffer = update s.buffer s.buffer_length 0 }

    text :
        TextAt
          (update s.buffer s.buffer_length 0)
          0
          s.buffer_length
          (text_of buffer_size 0 (update s.buffer s.buffer_length 0))
    text =
        line-TextAt (record s { buffer = update s.buffer s.buffer_length 0 })
          (record {
            cursor = v.cursor;
            fits = v.fits;
            ended = ground arith;
            full = λ i h. ground (arith, v.full i);
          })

ended : Shell → Shell
ended s = record s {
  buffer = update s.buffer s.buffer_length 0;
  terminal = terminal_write "\n" s.terminal;
}

end_line-MemoryIsValid : (s : Shell) → ShellIsValid s → MemoryIsValid (end_line s)
unfolding end_line ended
end_line-MemoryIsValid s v = record {
  ring = record { count = ring.count; next = ring.next; front = ring.front };
  entries = history_add-Fits line (ended s) (ended_line s v.line) v.memory.entries;
  saved = record {
    cursor = omega arith;
    fits = omega arith;
    ended = refl;
    full = λ i h. absurd (omega arith);
  };
  view = λ offset never. cc;
}
  where
    line : List ℕ
    line = text_of buffer_size 0 (update s.buffer s.buffer_length 0)

    ring : HistoryIsValid (history_add line (ended s))
    ring = history_add-HistoryIsValid line (ended s) (record {
      count = v.memory.ring.count;
      next = v.memory.ring.next;
      front = v.memory.ring.front;
    })

-- After a run that goes on, the shell is valid.
abbrev pub RunIsValid : Run → Type 0
RunIsValid (running y) = ShellIsValid y.shell
RunIsValid (stopped y) = Unit
RunIsValid (exception n y) = Unit
RunIsValid page_fault = Unit

finish-IsValid :
    (s : Shell) (k : Keyboard) (o : Outcome) → MemoryIsValid s → RunIsValid (finish s k o)
unfolding finish next_line
finish-IsValid s k (returned t d) v =
    print_prompt-ShellIsValid
      (record s {
        terminal = t;
        buffer_length = 0;
        buffer = update s.buffer 0 0;
        cursor_pos = 0;
        last_rendered_length = 0;
      })
      refl refl refl
      (remembered s
        (record s {
          terminal = t;
          buffer_length = 0;
          buffer = update s.buffer 0 0;
          cursor_pos = 0;
          last_rendered_length = 0;
        })
        refl v)
finish-IsValid s k (halted t d) v = tt
finish-IsValid s k (divide_error t d) v = tt
finish-IsValid s k Outcome.page_fault v = tt

enter-IsValid : (y : System) → ShellIsValid y.shell → RunIsValid (enter y)
unfolding enter arguments
enter-IsValid y v =
    let (argv, s) = arguments (end_line y.shell) in
    finish-IsValid s y.keyboard (run_command argv s y.devices)
      (remembered (end_line y.shell) s refl (end_line-MemoryIsValid y.shell v))

-- The line under an edit is no entry of the history.
editing : (s : Shell) → ShellIsValid s → ShellIsValid (record s { history_view_index = none })
editing s v = record {
  line = record {
    cursor = v.line.cursor;
    fits = v.line.fits;
    ended = v.line.ended;
    full = v.line.full;
  };
  memory = not_viewing s v.memory;
}

shell_handle_char-IsValid :
    (c : ℕ) (y : System) → c ≢ 0 → ShellIsValid y.shell → RunIsValid (shell_handle_char c y)
unfolding shell_handle_char
shell_handle_char-IsValid c y some_char v = elim (Bool-cases (c == 10)) [
  | inl newline ↦ rw newline (enter-IsValid y v)
  | inr other ↦ elim (Bool-cases (c == 8)) [
    | inl erase ↦
        rw (other, erase)
          (backspace-ShellIsValid (record (y.shell) { history_view_index = none })
            (editing y.shell v))
    | inr typed ↦
        rw (other, typed)
          (insert_char-ShellIsValid c (record (y.shell) { history_view_index = none }) some_char
            refl (editing y.shell v))
  ]
]

pub if_IsValid :
    (x y : Run) (b : Bool)
    → RunIsValid x
    → (b ≡ false → RunIsValid y)
    → RunIsValid (if b then x else y)
if_IsValid x y true vx vy = vx
if_IsValid x y false vx vy = vy refl

report_key-ShellIsValid :
    (scancode : ℕ) (s : Shell) → ShellIsValid s → ShellIsValid (report_key scancode s)
unfolding report_key
report_key-ShellIsValid scancode s v = record {
  line = record {
    cursor = v.line.cursor;
    fits = v.line.fits;
    ended = v.line.ended;
    full = v.line.full;
  };
  memory = remembered s (report_key scancode s) refl v.memory;
}

-- Whatever key is pressed or released, and whatever command Enter runs, if the handler returns, the
-- line, the saved line, the history and the view are valid again.
pub keyboard_handle-IsValid :
    (scancode : ℕ) (y : System) → ShellIsValid y.shell → RunIsValid (keyboard_handle scancode y)
unfolding keyboard_handle
keyboard_handle-IsValid scancode y v =
    if_IsValid _ _ (scancode == 0x48) (history_prev-ShellIsValid s v) (λ h.
      if_IsValid _ _ (scancode == 0x50) (history_next-ShellIsValid s v) (λ h.
        if_IsValid _ _ (scancode == 0x4B) (move_left-ShellIsValid s v) (λ h.
          if_IsValid _ _ (scancode == 0x4D) (move_right-ShellIsValid s v) (λ h.
            if_IsValid _ _ (scancode == 0x47) (move_home-ShellIsValid s v) (λ h.
              if_IsValid _ _ (scancode == 0x4F) (move_end-ShellIsValid s v) (λ h.
                if_IsValid _ _ (scancode == 0x53) (delete_forward-ShellIsValid s v) (λ h.
                  if_IsValid _ _ ((scancode == 0x2A) || (scancode == 0x36)) v (λ h.
                    if_IsValid _ _ ((scancode == 0xAA) || (scancode == 0xB6)) v (λ h.
                      if_IsValid _ _ (scancode == 0x3A) v (λ h.
                        if_IsValid _ _ (leb 128 scancode) v (λ h.
                          if_IsValid _ _ (c == 0) (report_key-ShellIsValid scancode s v)
                            (λ some. shell_handle_char-IsValid c y (==→ne c 0 some) v))))))))))))
  where
    s : Shell
    s = y.shell

    c : ℕ
    c = translate_scancode scancode y.keyboard
