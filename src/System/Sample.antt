-- ===== src/System/Sample.antt =====
-- A concrete system, with the line "echo hi" and no memory map, for the tests.
use frewozet.Base.{ℕ, false, none, List, [], get_or}
use frewozet.Base.Text.{codes}
use frewozet.Commands.{Devices}
use frewozet.Commands.Lookup.{all_added}
use frewozet.Memory.{Memory}
use frewozet.System.{System}
use frewozet.Terminal.{Terminal}

abbrev pub screen : Terminal
screen = record {
  cursor_row = 3;
  cursor_col = 20;
  cursor_color = 7;
  buffer = λ i. 0x0720;
  color_mode = false;
  ports = [];
}

abbrev pub memory : Memory
memory = record {
  bootstrap_heap_start = 0xC0100000;
  bootstrap_heap_current = 0xC0100000;
  bootstrap_heap_limit = 0xC0400000;
  heap = [];
  pmm_backend_enabled = false;
  heap_virtual_current = 0xC1000000;
  heap_committed_bytes = 0;
  bytes = λ a. 0xCC;
  paging = record {
    mem = λ a. 0;
    invalidated = [];
    cr3_reloads = 0;
    pmm = record {
      bitmap = 0;
      words = λ i. 0;
      total_pages = 0;
      total_usable_pages = 0;
      total_usable_bytes = 0;
    };
  };
  startup_errors = [];
}

abbrev pub devices : Devices
devices = record {
  memory = memory;
  timer = record { ticks = 0; frequency = 100 };
  table = all_added (λ i. []);
  info = record {
    signature = 0;
    count = 0;
    entries = λ i. record { base = 0; length = 0; type = 0 };
  };
  uninitialised = λ a. 0xCC;
  stray = [];
}

abbrev pub line : List ℕ
line = codes "echo hi"

abbrev pub system : System
system = record {
  shell = record {
    buffer = λ i. get_or line i 0;
    buffer_length = 7;
    cursor_pos = 7;
    history = λ i. [];
    history_count = 0;
    history_next_index = 0;
    history_view_index = none;
    saved_buffer = λ i. 0;
    saved_buffer_length = 0;
    saved_cursor_pos = 0;
    prompt_start_index = 240;
    last_rendered_length = 7;
    terminal = screen;
  };
  devices = devices;
  keyboard = record { shift_down = false; caps_lock_on = false };
}
