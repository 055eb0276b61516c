-- ===== src/Commands/Storage.antt =====
-- The commands that use the heap and the page tables.
use frewozet.Base.{
  ℕ, ◌+◌, ◌||◌, Option, none, some, List, ◌|>◌, leb, ltb, ◌==◌, if◌then◌else◌, length, for_range,
  update, u8, ◌>>=◌,
}
use frewozet.Base.Text.{codes}
use frewozet.CString.{memcpy, memset}
use frewozet.Memory.{kmalloc}
use frewozet.Paging
use frewozet.Paging.{Paging, page_writable}
use frewozet.Terminal.{Terminal, write_hex32, write_bytesize}
use frewozet.Utils.{parse_hex32}
use frewozet.Commands.{
  Devices, Outcome, returned, page_fault, or_fault, arg, terminal_write, say, shell_dump_bytes,
  shell_parse_uint32,
}

-- The size that `cmd_alloc` asks for, and what it prints about it.
unfoldable pub alloc_size : List (List ℕ) → Terminal → ℕ × Terminal
alloc_size argv t =
    if leb 2 (length argv)
    then elim (shell_parse_uint32 (arg 1 argv (codes ""))) [
      | none ↦ (64, say "Invalid size argument. Using default 64 bytes.\n" "warning" t)
      | some parsed_size ↦ (parsed_size, t)
    ]
    else (64, t)

unfoldable pub cmd_alloc : List (List ℕ) → Terminal → Devices → Outcome
cmd_alloc argv t d =
    let (size, t) = alloc_size argv t in
    or_fault (kmalloc size d.memory) (λ result.
      let (ptr1, m) = result in
      let d = record d { memory = m } in
      if ptr1 == 0
      then returned (say "Allocation failed\n" "error" t) d
      else returned
          (t
            |> terminal_write "Allocated "
            |> write_bytesize d.uninitialised size
            |> terminal_write " at 0x"
            |> write_hex32 ptr1
            |> terminal_write "\n")
          d)

-- The pointers are not checked: writing to null faults, since the first page is not mapped.
unfoldable pub cmd_memcpy : Terminal → Devices → Outcome
cmd_memcpy t d =
    let t = say "Allocating source and destination buffers and copying 16 bytes...\n" "info" t in
    or_fault (kmalloc 16 d.memory) (λ first.
      let (src, m) = first in
      or_fault (kmalloc 16 m) (λ second.
        let (dest, m) = second in
        let bytes = for_range 16 0 (λ i bytes. update bytes (src + i) (u8 i)) m.bytes in
        let bytes = memcpy dest src 16 bytes in
        if (src == 0) || (dest == 0)
        then page_fault
        else returned
            (t
              |> say "SRC: " "output"
              |> shell_dump_bytes src 16 bytes
              |> say "DST: " "output"
              |> shell_dump_bytes dest 16 bytes
              |> terminal_write "\n")
            (record d { memory = record m { bytes = bytes } })))

unfoldable pub cmd_memset : Terminal → Devices → Outcome
cmd_memset t d =
    let t = say "Allocating buffer and setting all bytes to 0xAB...\n" "info" t in
    or_fault (kmalloc 16 d.memory) (λ result.
      let (buffer, m) = result in
      let bytes = memset buffer 0xAB 16 m.bytes in
      if buffer == 0
      then page_fault
      else returned
          (t
            |> say "Buffer after memset: " "output"
            |> shell_dump_bytes buffer 16 bytes
            |> terminal_write "\n")
          (record d { memory = record m { bytes = bytes } }))

unfoldable pub cmd_pageinfo : List (List ℕ) → Terminal → Devices → Outcome
cmd_pageinfo argv t d =
    if ltb (length argv) 2
    then returned (say "Usage: pageinfo <virtual address>\n" "error" t) d
    else elim (parse_hex32 d.uninitialised (some (arg 1 argv (codes "")))) [
      | none ↦ returned (say "FREWOZET SHELL ERROR: Invalid hex address." "error" t) d
      | some virt ↦ or_fault (Paging.translate virt d.memory.paging) (λ phys.
          returned
            (t
              |> say "Virtual: " "command"
              |> terminal_write "0x"
              |> write_hex32 virt
              |> say "\nPhysical: " "command"
              |> terminal_write "0x"
              |> write_hex32 phys
              |> terminal_write "\n")
            d)
    ]

abbrev pub test_virt : ℕ
test_virt = 0xC0400000

-- `*p = value`, and what is read back, through the page tables.
unfoldable pub write_through : (virt value : ℕ) → Paging → Option (ℕ × Paging)
write_through virt value s = do
  a ← Paging.walk virt s
  let s = record s { mem = update s.mem a value }
  b ← Paging.walk virt s
  some (s.mem b, s)

-- After a failed allocation the command goes on.
unfoldable pub cmd_maptest : Terminal → Devices → Outcome
cmd_maptest t d = or_fault (Paging.alloc_page test_virt page_writable d.memory.paging) (λ result.
    let (mapped, s) = result in
    let t =
      if mapped then t else say "Maptest failed. Could not allocate allocate page" "error" t in
    or_fault (write_through test_virt 0x1234ABCD s) (λ result.
      let (value, s) = result in
      or_fault (Paging.translate test_virt s) (λ phys.
        returned
          (t
            |> terminal_write "Mapped test page at 0x"
            |> write_hex32 test_virt
            |> terminal_write "\nValue written and read: 0x"
            |> write_hex32 value
            |> terminal_write "\nPhysical backing: 0x"
            |> write_hex32 phys
            |> terminal_write "\n")
          (record d { memory = record (d.memory) { paging = s } }))))
