-- ===== src/Commands/Tests.antt =====
-- The commands on concrete arguments.
use frewozet.Base.{◌+◌, ◌≡◌, refl, arith, true, false, some, [], ◌∷◌, u32, u64}
use frewozet.Base.Text.{codes}
use frewozet.CString.Compare.{NulFree}
use frewozet.CommandTable.{lookup_command}
use frewozet.RamMapper.{Info, available, e820_sig, get_total_usable_memory}
use frewozet.Terminal.{Terminal}
use frewozet.Timer.{Timer}
use frewozet.Paging.{Paging}
use frewozet.Commands.{Devices}
use frewozet.Commands.Arith.{calc_expression-calc_three}
use frewozet.Commands.Calc.{shell_run_calc_argv}
use frewozet.Commands.Lookup.{all_added, or_else, lookup_command-find_command}
use frewozet.Memory.{Memory}
use frewozet.Memory.Room.{Room}
use frewozet.Commands.Register.{register_all_commands-Room}
use frewozet.Commands.Help.{help_line, cmd_help_new-find_command}
use frewozet.Commands.Status.{add_entries, no_totals, total_ram}
use frewozet.Commands.Table.{cmd_help_new, find_command, register_all_commands}
use frewozet.Commands.Totals.{sum_lengths, add_entries-totals}

abbrev screen : Terminal
screen = record {
  cursor_row = 3;
  cursor_col = 20;
  cursor_color = 7;
  buffer = λ i. 0x0720;
  color_mode = false;
  ports = [];
}

abbrev map : Info
map = record {
  signature = e820_sig;
  count = 2;
  entries = λ i. record { base = 0; length = 0x100000000; type = i + 1 };
}

calc_expression-calc_three_example :
    shell_run_calc_argv (codes "calc" ∷ codes "5+3" ∷ []) screen
    ≡ shell_run_calc_argv (codes "calc" ∷ codes "5" ∷ codes "+" ∷ codes "3" ∷ []) screen
calc_expression-calc_three_example =
    calc_expression-calc_three 53 [] 43 51 [] (codes "calc") screen (refl, tt) (omega arith) refl
      refl

ls-NulFree : NulFree (codes "ls")
ls-NulFree = (omega arith, (omega arith, tt))

map-available : available map ≡ true
unfolding available
map-available = refl

add_entries-totals_example :
    let totals = add_entries map 2 0 no_totals in
    (total_ram totals ≡ u64 (sum_lengths map 2 0 0))
    × (get_total_usable_memory map ≡ u32 totals.usable)
add_entries-totals_example = add_entries-totals map map-available

abbrev day : Timer
day = record { ticks = 8640000; frequency = 100 }

-- No bitmap, and an empty page directory.
abbrev no_pages : Paging
no_pages = record {
  mem = λ a. 0;
  invalidated = [];
  cr3_reloads = 0;
  pmm = record {
    bitmap = 0;
    words = λ i. 0;
    total_pages = 0;
    total_usable_pages = 0;
    total_usable_bytes = 0;
  };
}

abbrev devices : Devices
devices = record {
  memory = record {
    bootstrap_heap_start = 0xC0100000;
    bootstrap_heap_current = 0xC0100000;
    bootstrap_heap_limit = 0xC0400000;
    heap = [];
    pmm_backend_enabled = false;
    heap_virtual_current = 0xC1000000;
    heap_committed_bytes = 0;
    bytes = λ a. 0xCC;
    paging = no_pages;
    startup_errors = [];
  };
  timer = day;
  table = λ i. [];
  info = map;
  uninitialised = λ a. 0xCC;
  stray = [];
}

heap-Room : Room 736 devices.memory
heap-Room = record {
  bootstrap = refl;
  multiple = 0xC010000;
  aligned = refl;
  not_null = omega arith;
  room = omega arith;
  limit = omega arith;
}

abbrev registered :
    (m' : Memory) × (register_all_commands (λ i. []) devices.memory
      ≡ some (all_added (λ i. []), m'))
    × Room 0 m'
registered = register_all_commands-Room (λ i. []) devices.memory heap-Room

lookup_command-find_command_example :
    lookup_command (codes "ls") (all_added (λ i. []))
    ≡ or_else (find_command (codes "ls")) (lookup_command (codes "ls") (λ i. []))
lookup_command-find_command_example =
    lookup_command-find_command (codes "ls") (λ i. []) (all_added (λ i. [])) devices.memory
      (registered.0) ls-NulFree (registered.1)

abbrev help_devices : Devices
help_devices = record devices { table = all_added (λ i. []) }

cmd_help_new-find_command_example :
    cmd_help_new (codes "help" ∷ codes "ls" ∷ []) screen help_devices
    ≡ help_line (find_command (codes "ls")) screen
cmd_help_new-find_command_example =
    cmd_help_new-find_command (codes "help") (codes "ls") [] screen help_devices devices.memory
      (registered.0) ls-NulFree (registered.1)
