-- ===== src/Commands/Status.antt =====
-- The commands that show the state of the system.
use frewozet.Base.{ℕ, ◌+◌, ◌/◌, ◌%◌, ◌||◌, not, ◌|>◌, ltb, ◌==◌, if◌then◌else◌, for_range, u64}
use frewozet.Base.Int.{int32}
use frewozet.Memory
use frewozet.Memory.{Memory}
use frewozet.Pmm
use frewozet.Pmm.{Pmm}
use frewozet.RamMapper
use frewozet.RamMapper.{Info, Entry}
use frewozet.Terminal.{Terminal, write_decimal, write_hex32, write_hex64, write_bytesize}
use frewozet.Timer.{Timer}
use frewozet.Commands.{terminal_write, say}

unfoldable pub cmd_ticks : Timer → Terminal → Terminal
cmd_ticks timer t =
    t
    |> write_decimal (int32 timer.ticks)
    |> terminal_write " ticks @ "
    |> write_decimal (int32 timer.frequency)
    |> terminal_write " Hz"
    |> terminal_write "\n"

-- The hours, minutes and seconds that `cmd_runtime` shows.
unfoldable pub runtime : Timer → ℕ × ℕ × ℕ
runtime timer =
    let total_seconds = timer.ticks / timer.frequency in
    (total_seconds / 3600, total_seconds % 3600 / 60, total_seconds % 60)

unfoldable pub cmd_runtime : Timer → Terminal → Terminal
cmd_runtime timer t =
    let (hours, minutes, seconds) = runtime timer in
    if timer.frequency == 0
    then t |> say "ERROR: Timer frequency not initialized." "error"
    else (let t = t |> say "Frewozet System Runtime: " "info" in
        let t =
          if ltb 0 hours then t |> write_decimal (int32 hours) |> terminal_write " h " else t in
        let t =
          if ltb 0 hours || ltb 0 minutes
          then t |> write_decimal (int32 minutes) |> terminal_write " min "
          else t in
        t |> write_decimal (int32 seconds) |> terminal_write " s \n")

-- The totals that `cmd_meminfo` adds up, one for each type.
pub record Totals : Type 0 where
  pub usable : ℕ
  pub reserved : ℕ
  pub reclaim : ℕ
  pub nvs : ℕ
  pub bad : ℕ
  pub unknown : ℕ

-- The `switch` on the type.
unfoldable pub add_entry : Entry → Totals → Totals
add_entry e totals =
    if e.type == 1
    then record totals { usable = u64 (totals.usable + e.length) }
    else if e.type == 2
    then record totals { reserved = u64 (totals.reserved + e.length) }
    else if e.type == 3
    then record totals { reclaim = u64 (totals.reclaim + e.length) }
    else if e.type == 4
    then record totals { nvs = u64 (totals.nvs + e.length) }
    else if e.type == 5
    then record totals { bad = u64 (totals.bad + e.length) }
    else record totals { unknown = u64 (totals.unknown + e.length) }

unfoldable pub add_entries : Info → (rounds i : ℕ) → Totals → Totals
add_entries info rounds i totals =
    for_range rounds i (λ i totals. add_entry (info.entries i) totals) totals

abbrev pub no_totals : Totals
no_totals = record { usable = 0; reserved = 0; reclaim = 0; nvs = 0; bad = 0; unknown = 0 }

unfoldable pub total_ram : Totals → ℕ
total_ram totals =
    u64
      (totals.usable + totals.reserved + totals.reclaim + totals.nvs + totals.bad + totals.unknown)

-- What the loop of `cmd_meminfo` prints of an entry.
unfoldable pub write_entry : ℕ → Entry → Terminal → Terminal
write_entry i e t =
    t
    |> terminal_write "["
    |> write_decimal (int32 i)
    |> terminal_write "] base=0x"
    |> write_hex64 e.base
    |> terminal_write " length=0x"
    |> write_hex64 e.length
    |> terminal_write " type="
    |> terminal_write (RamMapper.type_to_string e.type)
    |> terminal_write " ("
    |> write_decimal (int32 e.type)
    |> terminal_write ")\n"

-- The printing and the adding of the loop touch nothing in common, and stand in two loops here.
unfoldable pub cmd_meminfo : Info → (uninitialised : ℕ → ℕ) → Terminal → Terminal
cmd_meminfo info uninitialised t =
    let totals = add_entries info info.count 0 no_totals in
    let size = write_bytesize uninitialised in
    if not (RamMapper.available info)
    then t |> say "E820 memory map not available.\n" "error"
    else t
      |> terminal_write "E820 entries: "
      |> write_decimal (int32 info.count)
      |> terminal_write "\n"
      |> for_range info.count 0 (λ i t. write_entry i (info.entries i) t)
      |> terminal_write "\nMemory totals:\n"
      |> terminal_write "Total RAM:    "
      |> size (total_ram totals)
      |> terminal_write "\n"
      |> terminal_write "Usable:       "
      |> size totals.usable
      |> terminal_write "\n"
      |> terminal_write "Reserved:     "
      |> size totals.reserved
      |> terminal_write "\n"
      |> terminal_write "ACPI Reclaim: "
      |> size totals.reclaim
      |> terminal_write "\n"
      |> terminal_write "ACPI NVS:     "
      |> size totals.nvs
      |> terminal_write "\n"
      |> terminal_write "Bad:          "
      |> size totals.bad
      |> terminal_write "\n"
      |> terminal_write "Unknown:      "
      |> size totals.unknown
      |> terminal_write "\n"

unfoldable pub cmd_heap : Memory → (uninitialised : ℕ → ℕ) → Terminal → Terminal
cmd_heap m uninitialised t =
    let size = write_bytesize uninitialised in
    if not m.pmm_backend_enabled
    then t
      |> say "Using Backend: Bootstrap\n" "info"
      |> say "Heap Start: 0x" "info"
      |> write_hex32 m.bootstrap_heap_start
      |> say "\nHeap Current: 0x" "info"
      |> write_hex32 m.bootstrap_heap_current
      |> say "\nHeap Limit: 0x" "info"
      |> write_hex32 m.bootstrap_heap_limit
      |> say "\nHeap Remaining: " "info"
      |> size (Memory.get_heap_remaining m)
      |> terminal_write "\n"
    else t
      |> say "Using backend: " "info"
      |> say "Frewozet Physical Memory Manager\n" "command"
      |> say "Committed Heap Memory: " "info"
      |> size (Memory.get_heap_committed_bytes m)
      |> say "\nUsed Heap Memory: " "info"
      |> size (Memory.get_heap_used_bytes m)
      |> say "\nFree Heap Memory: " "info"
      |> size (Memory.get_heap_free_bytes m)
      |> terminal_write "\n"

unfoldable pub cmd_pmminfo : Pmm → (uninitialised : ℕ → ℕ) → Terminal → Terminal
cmd_pmminfo p uninitialised t =
    let size = write_bytesize uninitialised in
    t
    |> say "Frewozet Physcal Memory Manager\n" "prompt"
    |> say "Tracked Pages: " "info"
    |> write_decimal (int32 p.total_pages)
    |> say "\nUsable Pages: " "info"
    |> write_decimal (int32 p.total_usable_pages)
    |> say "\nUsed Pages: " "info"
    |> write_decimal (int32 (Pmm.get_used_pages p))
    |> say "\nFree Pages: " "info"
    |> write_decimal (int32 (Pmm.get_free_pages p))
    |> say "\n\nTracked address space: " "info"
    |> size (Pmm.get_total_bytes p)
    |> say "\nUsable RAM: " "info"
    |> size p.total_usable_bytes
    |> say "\nUsed RAM (tracked pages): " "info"
    |> size (Pmm.get_total_used_bytes p)
    |> say "\nFree RAM (tracked pages): " "info"
    |> size (Pmm.get_total_free_bytes p)
    |> terminal_write "\n"
