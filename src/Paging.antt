-- ===== src/Paging.antt =====
-- paging.c and mmu.h: the two-level page tables of the i386.
-- `mem` is physical memory, a 32-bit word at each address that is a multiple of 4. The kernel
-- reaches it through its direct map, the 4 MiB from KERNEL_VIRT_BASE that loader2.asm sets up;
-- `none` is a page fault. `invalidated` lists what `invlpg` was given, the latest first.
pub mod Entry
pub mod Tables
pub mod Lookup
pub mod Create
pub mod Map
pub mod Unmap
mod Tests
use frewozet.Base.{
  ℕ, zero, suc, ◌+◌, ◌-◌, ◌*◌, ◌/◌, ◌%◌, ◌^◌, bit_and, bit_or, Bool, true, false, ◌&&◌, ◌||◌, not,
  Option, none, some, List, [], ◌∷◌, ltb, leb, ◌==◌, if◌then◌else◌, update, u32, shr, sub32, ◌>>=◌,
}
use frewozet.Pmm
use frewozet.Pmm.{Pmm}

abbrev pub kernel_virt_base : ℕ
kernel_virt_base = 0xC0000000

-- `PHYS_TO_VIRT` and `VIRT_TO_PHYS`
abbrev pub phys_to_virt : ℕ → ℕ
phys_to_virt addr = u32 (addr + kernel_virt_base)

abbrev pub virt_to_phys : ℕ → ℕ
virt_to_phys addr = sub32 addr kernel_virt_base

abbrev pub page_present : ℕ
page_present = 1

abbrev pub page_writable : ℕ
page_writable = 2

abbrev pub page_user : ℕ
page_user = 4

abbrev pub page_dir_phys : ℕ
page_dir_phys = 0x9000

pub record Paging : Type 0 where
  pub mem : ℕ → ℕ
  pub invalidated : List ℕ
  pub cr3_reloads : ℕ
  pub pmm : Pmm

-- The bytes that the direct map reaches.
abbrev pub direct_limit : ℕ
direct_limit = 0x400000

-- The physical address behind a pointer into the direct map.
pub direct : ℕ → Option ℕ
direct va =
    if leb kernel_virt_base va && ltb va (kernel_virt_base + direct_limit)
    then some (va - kernel_virt_base)
    else none

pub load : ℕ → Paging → Option ℕ
load va s = elim (direct va) [ none ↦ none | some a ↦ some (s.mem a) ]

pub store : ℕ → ℕ → Paging → Option Paging
store va v s = elim (direct va) [
  | none ↦ none
  | some a ↦ some (record s { mem = update s.mem a v })
]

-- `memset(page, 0, PAGE_SIZE)` for a page of words
abbrev pub zero_words : (ℕ → ℕ) → ℕ → ℕ → ℕ
zero_words mem a b = if leb a b && ltb b (a + 4096) then 0 else mem b

pub zero_page : ℕ → Paging → Option Paging
zero_page va s = elim (direct va) [
  | none ↦ none
  | some a ↦ some (record s { mem = zero_words s.mem a })
]

abbrev pub dir_index : ℕ → ℕ
dir_index virt_addr = shr virt_addr 22

abbrev pub table_index : ℕ → ℕ
table_index virt_addr = bit_and (shr virt_addr 12) 0x3FF

abbrev pub align_down : ℕ → ℕ
align_down addr = bit_and addr 0xFFFFF000

abbrev pub get_page_directory : ℕ
get_page_directory = phys_to_virt page_dir_phys

abbrev pub invalidate_page : ℕ → Paging → Paging
invalidate_page virt_addr s = record s { invalidated = virt_addr ∷ s.invalidated }

-- A new, empty page table for the directory entry at `slot`: null if no page is free.
pub new_page_table : (slot table_flags : ℕ) → Paging → Option (ℕ × Paging)
new_page_table slot table_flags s =
    let (new_table_phys, pmm') = Pmm.alloc_page s.pmm in
    let new_table_virt = phys_to_virt new_table_phys in
    let entry =
      bit_or (bit_or (bit_and new_table_phys 0xFFFFF000) (bit_and table_flags 0xFFF))
        page_present in
    if new_table_phys == 0 then some (0, record s { pmm = pmm' }) else (do
      s ← zero_page new_table_virt (record s { pmm = pmm' })
      s ← store slot entry s
      some (new_table_virt, invalidate_page slot s))

pub get_page_table : (virt_addr : ℕ) → Bool → ℕ → Paging → Option (ℕ × Paging)
get_page_table virt_addr create table_flags s = do
  let slot = get_page_directory + 4 * dir_index virt_addr
  pde ← load slot s
  if not (bit_and pde page_present == 0)
      then some (phys_to_virt (bit_and pde 0xFFFFF000), s)
      else if create
      then new_page_table slot table_flags s
      else some (0, s)

pub remove_identity_map : Paging → Option Paging
remove_identity_map s = do
  s ← store get_page_directory 0 s
  some (record s { cr3_reloads = s.cr3_reloads + 1 })

-- The Boolean is the returned `int`.
pub map_page : (virt_addr phys_addr flags : ℕ) → Paging → Option (Bool × Paging)
map_page virt_addr phys_addr flags s = do
  let virt = align_down virt_addr
  let phys = align_down phys_addr
  let table_flags =
      if bit_and flags page_user == 0 then page_writable else bit_or page_writable page_user
  (page_table, s) ← get_page_table virt true table_flags s
  if page_table == 0 then some (false, s) else (do
    s ←
        store (page_table + 4 * table_index virt)
          (bit_or (bit_or phys (bit_and flags 0xFFF)) page_present) s
    some (true, invalidate_page virt s))

pub unmap_page : ℕ → Paging → Option Paging
unmap_page virt_addr s = do
  let virt = align_down virt_addr
  (page_table, s) ← get_page_table virt false 0 s
  if page_table == 0
      then some s
      else (do s ← store (page_table + 4 * table_index virt) 0 s; some (invalidate_page virt s))

-- 0 stands for an address that is not mapped.
pub translate : ℕ → Paging → Option ℕ
translate virt_addr s = do
  pde ← load (get_page_directory + 4 * dir_index virt_addr) s
  if bit_and pde page_present == 0 then some 0 else (do
    pte ← load (phys_to_virt (bit_and pde 0xFFFFF000) + 4 * table_index virt_addr) s
    some (
        if bit_and pte page_present == 0
        then 0
        else bit_or (bit_and pte 0xFFFFF000) (bit_and virt_addr 0xFFF)))

-- What the processor finds when it follows the tables for an address: `none` is a page fault.
abbrev pub walk : ℕ → Paging → Option ℕ
walk virt_addr s =
    let pde = s.mem (page_dir_phys + 4 * (virt_addr / 2 ^ 22)) in
    let pte = s.mem (pde / 4096 * 4096 + 4 * (virt_addr / 4096 % 1024)) in
    if pde % 2 == 0 || pte % 2 == 0 then none else some (pte / 4096 * 4096 + virt_addr % 4096)

-- `memset(virt_page, 0, PAGE_SIZE)` through the tables, word by word
pub zero_through : ℕ → ℕ → Paging → Option Paging
zero_through zero virt_addr s = some s
zero_through (suc words) virt_addr s = do
  a ← walk virt_addr s
  zero_through words (u32 (virt_addr + 4)) (record s { mem = update s.mem a 0 })

pub alloc_page : (virt_addr flags : ℕ) → Paging → Option (Bool × Paging)
alloc_page virt_addr flags s =
    let (phys_page, pmm') = Pmm.alloc_page s.pmm in
    if phys_page == 0 then some (false, record s { pmm = pmm' }) else (do
      (mapped, s) ← map_page virt_addr phys_page flags (record s { pmm = pmm' })
      if mapped
          then (do s ← zero_through 1024 virt_addr s; some (true, s))
          else some (false, record s { pmm = Pmm.free_page phys_page s.pmm }))

-- What a test unfolds to run this file.
unfoldable pub program : Unit {0}
unfolding Pmm.program direct load store zero_page new_page_table get_page_table remove_identity_map
    map_page unmap_page translate zero_through alloc_page
program = tt
