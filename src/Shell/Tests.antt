-- ===== src/Shell/Tests.antt =====
-- A shell with two entries and the line "ls".
use frewozet.Base.{◌<◌, ◌≡◌, refl, arith, false, true, [], ◌==◌, if◌then◌else◌, none, ◌⊎◌}
use frewozet.Base.Text.{codes}
use frewozet.CString.{strequal}
use frewozet.Terminal.{Terminal}
use frewozet.Shell.{Shell, history_add, history_prev}
use frewozet.Shell.Line.{IsValid}
use frewozet.Shell.History.{
  HistoryIsValid, Added, Older, entry, history_add-Added, history_prev-Older,
}

abbrev screen : Terminal
screen = record {
  cursor_row = 3;
  cursor_col = 15;
  cursor_color = 7;
  buffer = λ i. 0x0720;
  color_mode = false;
  ports = [];
}

abbrev shell : Shell
shell = record {
  buffer = λ i. if i == 0 then 108 else if i == 1 then 115 else 0;
  buffer_length = 2;
  cursor_pos = 1;
  history = λ i. if i == 0 then codes "help" else if i == 1 then codes "calc" else [];
  history_count = 2;
  history_next_index = 2;
  history_view_index = none;
  saved_buffer = λ i. 0;
  saved_buffer_length = 0;
  saved_cursor_pos = 0;
  prompt_start_index = 240;
  last_rendered_length = 2;
  terminal = screen;
}

shell-IsValid : IsValid shell
shell-IsValid = record {
  cursor = omega arith;
  fits = omega arith;
  ended = refl;
  full = λ i h. ground arith;
}

shell-HistoryIsValid : HistoryIsValid shell
shell-HistoryIsValid = record { count = omega arith; next = omega arith; front = λ h. refl }

history_add-Added_example :
    ((history_add (codes "ls") shell ≡ shell)
      × ((codes "ls" ≡ [])
          ⊎ ((0 < shell.history_count) × (strequal (entry 0 shell) (codes "ls") ≡ true))))
    ⊎ Added (codes "ls") shell (history_add (codes "ls") shell)
history_add-Added_example = history_add-Added (codes "ls") shell shell-HistoryIsValid

history_prev-Older_example : Older none shell (history_prev shell)
history_prev-Older_example = history_prev-Older shell shell-HistoryIsValid (omega arith)
