-- ===== src/CommandTable/Tests.antt =====
-- A table with two commands.
use frewozet.Base.{false, refl, ◌+◌, ◌≤◌, ℕ, ◌≡◌, arith, some, List, [], if◌then◌else◌}
use frewozet.Base.Text.{codes}
use frewozet.CString.{strequal, strlen}
use frewozet.CString.Compare.{NulFree}
use frewozet.CommandTable.{Node, add_node, register_command, lookup_command}
use frewozet.CommandTable.Room.{register_command-Room}
use frewozet.Memory.{Memory}
use frewozet.Memory.Room.{Room}
use frewozet.CommandTable.Lookup.{lookup_command-register_command}

abbrev empty : ℕ → List Node
empty i = []

help-NulFree : NulFree (codes "help")
help-NulFree = (omega arith, (omega arith, (omega arith, (omega arith, tt))))

calc-NulFree : NulFree (codes "calc")
calc-NulFree = (omega arith, (omega arith, (omega arith, (omega arith, tt))))

-- The bootstrap heap, with 64 bytes.
abbrev small : Memory
small = record {
  bootstrap_heap_start = 0xC0100000;
  bootstrap_heap_current = 0xC0100000;
  bootstrap_heap_limit = 0xC0100040;
  heap = [];
  pmm_backend_enabled = false;
  heap_virtual_current = 0xC1000000;
  heap_committed_bytes = 0;
  bytes = λ a. 0xCC;
  paging = record {
    mem = λ a. 0;
    invalidated = [];
    cr3_reloads = 0;
    pmm = record {
      bitmap = 0;
      words = λ i. 0;
      total_pages = 0;
      total_usable_pages = 0;
      total_usable_bytes = 0;
    };
  };
  startup_errors = [];
}

small-Room : Room (0 + 16 + 16) small
small-Room = record {
  bootstrap = refl;
  multiple = 0xC010000;
  aligned = refl;
  not_null = omega arith;
  room = omega arith;
  limit = omega arith;
}

help_short : strlen (codes "help") ≤ 15
unfolding strlen
help_short = omega arith

abbrev after :
    (m' : Memory) × (register_command (codes "help") 7 (codes "Shows help") empty small
      ≡ some (add_node (codes "help") 7 (codes "Shows help") empty, m'))
    × Room 0 m'
after =
    register_command-Room (codes "help") 7 (codes "Shows help") empty 0 small help_short small-Room

lookup_command-register_command_example :
    lookup_command (codes "calc") (add_node (codes "help") 7 (codes "Shows help") empty) ≡ (
      if strequal (codes "help") (codes "calc")
      then some 7
      else lookup_command (codes "calc") empty)
lookup_command-register_command_example =
    lookup_command-register_command (codes "help") (codes "calc") 7 (codes "Shows help") empty
      (add_node (codes "help") 7 (codes "Shows help") empty) small (after.0) help-NulFree
      calc-NulFree (after.1)
