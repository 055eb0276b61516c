-- ===== src/RamMapper.antt =====
-- ram_mapper.c: the E820 memory map that loader2.asm leaves at 0x500.
pub mod Total
mod Tests
use Prim.Native.String.{String}
use frewozet.Base.{ℕ, zero, suc, ◌+◌, Bool, ◌==◌, if◌then◌else◌, u32}

-- `struct e820_entry`
pub record Entry : Type 0 where
  pub base : ℕ
  pub length : ℕ
  pub type : ℕ

-- `struct e820_info`; `count` is what its field says, and `entries` the array behind it.
pub record Info : Type 0 where
  pub signature : ℕ
  pub count : ℕ
  pub entries : ℕ → Entry

abbrev pub e820_sig : ℕ
e820_sig = 0x324F3845

unfoldable pub available : Info → Bool
available info = info.signature == e820_sig

unfoldable pub type_to_string : ℕ → String
type_to_string type =
    if type == 1
    then "Usable"
    else if type == 2
    then "Reserved"
    else if type == 3
    then "ACPI Reclaimable"
    else if type == 4
    then "ACPI NVS"
    else if type == 5
    then "Bad"
    else "Unknown"

-- The loop of `ram_mapper_get_total_usable_memory`, with the rounds left.
unfoldable pub sum_usable : Info → (rounds i total : ℕ) → ℕ
sum_usable info zero i total = total
sum_usable info (suc rounds) i total =
    let entry = info.entries i in
    sum_usable info rounds (i + 1) (if entry.type == 1 then u32 (total + entry.length) else total)

unfoldable pub get_total_usable_memory : Info → ℕ
get_total_usable_memory info = if available info then sum_usable info info.count 0 0 else 0
