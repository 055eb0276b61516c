-- ===== src/Memory.antt =====
-- memory.c: the bootstrap allocator, and the heap over the page allocator that takes over from it.
-- A fallible address is 0 for null; `none` is a page fault of paging.c. `bytes` is the content of
-- the heap's payload, and the headers are the block list of `Heap`.
pub mod Bootstrap
pub mod Grow
pub mod Alloc
pub mod Payload
pub mod Aligned
pub mod NoPages
pub mod Room
mod Tests
use frewozet.Base.{
  ℕ, zero, suc, ◌+◌, ◌-◌, ◌*◌, ◌/◌, ◌%◌, ◌^◌, bit_and, Bool, true, false, ◌&&◌, ◌||◌, not, Option,
  none, some, List, [], ◌∷◌, ltb, leb, ◌==◌, if◌then◌else◌, update, u32, u64, shr, sub32, not32,
  ◌>>=◌,
}
use frewozet.Base.Text.{codes}
use frewozet.Pmm
use frewozet.Paging
use frewozet.Paging.{Paging, phys_to_virt, virt_to_phys, page_writable}
use frewozet.Heap
use frewozet.Heap.{Block, header_size, default_alignment, align_up_size}
use frewozet.RamMapper
use frewozet.RamMapper.{Info}
use frewozet.StartupError.{log_startup_error}

abbrev pub heap_grow_pages : ℕ
heap_grow_pages = 4

abbrev pub early_mapped_phys_limit : ℕ
early_mapped_phys_limit = 0x400000

abbrev pub kernel_heap_start : ℕ
kernel_heap_start = 0xC1000000

abbrev pub kernel_heap_end : ℕ
kernel_heap_end = 0xE0000000

pub record Memory : Type 0 where
  pub bootstrap_heap_start : ℕ
  pub bootstrap_heap_current : ℕ
  pub bootstrap_heap_limit : ℕ
  pub heap : List Block
  pub pmm_backend_enabled : Bool
  pub heap_virtual_current : ℕ
  pub heap_committed_bytes : ℕ
  pub bytes : ℕ → ℕ
  pub paging : Paging
  pub startup_errors : List ℕ

pub align_up_u32 : ℕ → ℕ → ℕ
align_up_u32 value alignment =
    let mask = sub32 alignment 1 in
    if alignment == 0 then value else bit_and (u32 (value + mask)) (not32 mask)

-- The loop of `find_bootstrap_region`, with the rounds left: the start and the limit that it finds.
pub find_region : Info → ℕ → (rounds i : ℕ) → Option (ℕ × ℕ)
find_region info kernel_end_phys zero i = none
find_region info kernel_end_phys (suc rounds) i =
    let entry = info.entries i in
    let sum = u64 (entry.base + entry.length) in
    let region_end_64 = if ltb 0x100000000 sum then 0x100000000 else sum in
    let region_base = u32 entry.base in
    let region_end = u32 region_end_64 in
    let start = align_up_u32 kernel_end_phys default_alignment in
    let next = find_region info kernel_end_phys rounds (i + 1) in
    if not (entry.type == 1) || leb 0x100000000 entry.base
    then next
    else if leb region_base kernel_end_phys
        && ltb kernel_end_phys region_end
        && ltb start region_end
    then some (start, region_end)
    else next

pub find_bootstrap_region : Info → ℕ → Option (ℕ × ℕ)
find_bootstrap_region info kernel_end_phys =
    if RamMapper.available info then find_region info kernel_end_phys info.count 0 else none

-- The physical start and limit that `memory_init` settles on: the region found, cut to the part that
-- is mapped early, or else from the kernel's end to the end of that part.
pub clamp_region : ℕ → Option (ℕ × ℕ) → ℕ × ℕ
clamp_region aligned none = (aligned, early_mapped_phys_limit)
clamp_region aligned (some (start, limit)) =
    let limit' = if ltb early_mapped_phys_limit limit then early_mapped_phys_limit else limit in
    if leb limit' start then (aligned, early_mapped_phys_limit) else (start, limit')

-- `kernel_end` is the address of `_kernel_end`, which the linker sets.
pub memory_init : Info → ℕ → Memory → Memory
memory_init info kernel_end m =
    let kernel_end_phys = virt_to_phys kernel_end in
    let aligned = align_up_u32 kernel_end_phys default_alignment in
    let found = find_bootstrap_region info kernel_end_phys in
    let (start, limit) = clamp_region aligned found in
    record m {
      bootstrap_heap_start = phys_to_virt start;
      bootstrap_heap_current = phys_to_virt start;
      bootstrap_heap_limit = phys_to_virt limit;
    }

pub bootstrap_alloc_aligned : (size alignment : ℕ) → Memory → ℕ × Memory
bootstrap_alloc_aligned size alignment m =
    let alignment' = if alignment == 0 then default_alignment else alignment in
    let aligned = align_up_u32 m.bootstrap_heap_current alignment' in
    if size == 0
    then (0, m)
    else if ltb aligned m.bootstrap_heap_current
    then (0, m)
    else if ltb (u32 (aligned + size)) aligned
    then (0, m)
    else if ltb m.bootstrap_heap_limit (u32 (aligned + size))
    then (0, m)
    else (aligned, record m { bootstrap_heap_current = u32 (aligned + size) })

pub pages_needed_for : ℕ → ℕ
pages_needed_for bytes = u32 (bytes + Pmm.page_size - 1) / Pmm.page_size

-- The loop of `heap_grow`, with the rounds left; the Boolean is false where it returns 0.
pub map_pages : (rounds virt : ℕ) → Paging → Option (Bool × Paging)
map_pages zero virt s = some (true, s)
map_pages (suc rounds) virt s =
    let (phys_page, pmm') = Pmm.alloc_page s.pmm in
    if phys_page == 0 then some (false, record s { pmm = pmm' }) else (do
      (mapped, s) ← Paging.map_page virt phys_page page_writable (record s { pmm = pmm' })
      if mapped
          then map_pages rounds (u32 (virt + Pmm.page_size)) s
          else some (false, record s { pmm = Pmm.free_page phys_page s.pmm }))

pub heap_grow : ℕ → Memory → Option (Bool × Memory)
heap_grow minimum_payload_size m =
    let bytes_needed = u32 (minimum_payload_size + header_size) in
    let needed = pages_needed_for bytes_needed in
    let pages = if ltb needed heap_grow_pages then heap_grow_pages else needed in
    let region_size = u32 (pages * Pmm.page_size) in
    let region_start = m.heap_virtual_current in
    let region_end = u32 (region_start + region_size) in
    if ltb region_end region_start
    then some (false, m)
    else if ltb kernel_heap_end region_end
    then some (false, m)
    else (do
      (mapped, s) ← map_pages pages region_start m.paging
      if mapped
          then some (
            true,
            record m {
              paging = s;
              heap_virtual_current = region_end;
              heap_committed_bytes = u32 (m.heap_committed_bytes + region_size);
              heap = Heap.add_region region_start region_size m.heap;
            },
          )
          else some (false, record m { paging = s }))

pub memory_enable_pmm_backend : Memory → Option Memory
memory_enable_pmm_backend m = if m.pmm_backend_enabled then some m else (do
  (grown, m) ← heap_grow 1 m
  some (
      if grown then record m { pmm_backend_enabled = true } else record m {
        startup_errors =
            log_startup_error
              (some (codes "Failed to enable PMM-backed heap. Keeping bootstrap heap."))
              m.startup_errors;
      }))

-- The end of `kmalloc`, with the block that was found.
pub use_block : (block size : ℕ) → Memory → ℕ × Memory
use_block block size m = (
  block + header_size,
  record m { heap = Heap.take_block block (Heap.split_block block size m.heap) },
)

pub kmalloc : ℕ → Memory → Option (ℕ × Memory)
kmalloc size m =
    let size' = align_up_size size default_alignment in
    if size == 0
    then some (0, m)
    else if not m.pmm_backend_enabled
    then some (bootstrap_alloc_aligned size' default_alignment m)
    else elim (Heap.find_free_block size' m.heap) [
      | some block ↦ some (use_block block size' m)
      | none ↦ (do
        (grown, m) ← heap_grow size' m
        if grown
            then elim (Heap.find_free_block size' m.heap) [
              | some block ↦ some (use_block block size' m)
              | none ↦ some (0, m)
            ]
            else some (0, m))
    ]

-- `((void**)aligned)[-1] = raw`, in the byte order of the i386
abbrev pub store32 : (ℕ → ℕ) → ℕ → ℕ → ℕ → ℕ
store32 bytes a v =
    update
      (update (update (update bytes a (v % 256)) (a + 1) (v / 2 ^ 8 % 256)) (a + 2)
        (v / 2 ^ 16 % 256))
      (a + 3) (v / 2 ^ 24 % 256)

pub kmalloc_aligned : (size alignment : ℕ) → Memory → Option (ℕ × Memory)
kmalloc_aligned size alignment m =
    let extra = u32 (alignment + 4) in
    if size == 0
    then some (0, m)
    else if not m.pmm_backend_enabled
    then some (bootstrap_alloc_aligned size alignment m)
    else if leb alignment default_alignment
    then kmalloc size m
    else (do
      (raw, m) ← kmalloc (u32 (size + extra)) m
      let base = u32 (raw + 4)
      let mask = sub32 alignment 1
      let aligned = bit_and (sub32 (u32 (base + alignment)) 1) (not32 mask)
      some (
          if raw == 0
          then (0, m)
          else (aligned, record m { bytes = store32 m.bytes (sub32 aligned 4) raw })))

-- Within 15 bytes of 4 GiB `kmalloc` may give a block of no bytes, and `memset` runs behind it until
-- it leaves what is mapped: a page fault.
pub kcalloc : (num size : ℕ) → Memory → Option (ℕ × Memory)
kcalloc num size m =
    let total_size = u32 (num * size) in
    if num == 0 || size == 0
    then some (0, m)
    else if ltb ((2 ^ 32 - 1) / size) num
    then some (0, m)
    else (do
      (ptr, m) ← kmalloc total_size m
      if ptr == 0
          then some (0, m)
          else if ltb (2 ^ 32 - 16) total_size
          then none
          else some (
            ptr,
            record m {
              bytes = λ a. if leb ptr a && ltb a (ptr + total_size) then 0 else m.bytes a;
            },
          ))

pub get_heap_remaining : Memory → ℕ
get_heap_remaining m =
    if leb m.bootstrap_heap_limit m.bootstrap_heap_current
    then 0
    else m.bootstrap_heap_limit - m.bootstrap_heap_current

pub get_heap_committed_bytes : Memory → ℕ
get_heap_committed_bytes m = if m.pmm_backend_enabled then m.heap_committed_bytes else 0

abbrev is_empty : List Block → Bool
is_empty [] = true
is_empty (b ∷ heap) = false

pub get_heap_used_bytes : Memory → ℕ
get_heap_used_bytes m =
    if not m.pmm_backend_enabled || is_empty m.heap then 0 else Heap.used_bytes m.heap 0

pub get_heap_free_bytes : Memory → ℕ
get_heap_free_bytes m =
    if not m.pmm_backend_enabled || is_empty m.heap then 0 else Heap.free_bytes m.heap 0

-- What a test unfolds to run this file.
program : Unit {0}
unfolding align_up_u32 find_region find_bootstrap_region clamp_region memory_init
    bootstrap_alloc_aligned pages_needed_for map_pages heap_grow memory_enable_pmm_backend use_block
    kmalloc kmalloc_aligned kcalloc get_heap_remaining get_heap_committed_bytes get_heap_used_bytes
    get_heap_free_bytes Heap.program Paging.program Pmm.program
program = tt
