-- ===== src/PmmInit.antt =====
-- `pmm_init` of pmm.c: the page allocator from the E820 map, with its bitmap from the heap.
-- The state is that of memory.c, which has the page allocator's in it.
pub mod Reserved
pub mod NoMap
pub mod Top
mod Tests
use frewozet.Base.{
  ℕ, zero, suc, ◌+◌, ◌-◌, ◌*◌, ◌/◌, ◌%◌, ◌^◌, Bool, ◌||◌, not, Option, none, some, ltb, leb, ◌==◌,
  if◌then◌else◌, for_range, update, u32, u64, ◌>>=◌,
}
use frewozet.Base.Text.{codes}
use frewozet.Pmm
use frewozet.Pmm.{Pmm}
use frewozet.Paging.{virt_to_phys}
use frewozet.RamMapper
use frewozet.RamMapper.{Info}
use frewozet.StartupError.{log_startup_error}
use frewozet.Memory.{Memory, kmalloc_aligned}

abbrev with_pmm : (Pmm → Pmm) → Memory → Memory
with_pmm change m = record m { paging = record (m.paging) { pmm = change m.paging.pmm } }

-- The first loop: `highest` is the end of the highest region so far.
pub scan_regions : Info → (rounds i highest : ℕ) → Pmm → ℕ × Pmm
scan_regions info zero i highest p = (highest, p)
scan_regions info (suc rounds) i highest p =
    let entry = info.entries i in
    let sum = u64 (entry.base + entry.length) in
    let highest' = if ltb highest sum then sum else highest in
    let region_end = if ltb 0x100000000 sum then 0x100000000 else sum in
    let usable_start = Pmm.align_up_u32 (u32 entry.base) Pmm.page_size in
    let usable_end = Pmm.align_down_u32 (u32 region_end) Pmm.page_size in
    let pages =
      if ltb entry.base 0x100000000
      then (if ltb usable_start usable_end
          then u32 (p.total_usable_pages + (usable_end - usable_start) / Pmm.page_size)
          else p.total_usable_pages)
      else p.total_usable_pages in
    let p' = record p {
      total_usable_bytes = u64 (p.total_usable_bytes + entry.length);
      total_usable_pages = pages;
    } in
    scan_regions info rounds (i + 1) highest' (if entry.type == 1 then p' else p)

-- The loop that frees the usable regions.
pub free_regions : Info → (rounds i : ℕ) → Pmm → Pmm
free_regions info zero i p = p
free_regions info (suc rounds) i p =
    let entry = info.entries i in
    let sum = u64 (entry.base + entry.length) in
    let region_end = if ltb 0x100000000 sum then 0x100000000 else sum in
    let p' = Pmm.mark_range_free (u32 entry.base) (u32 region_end) p in
    free_regions info rounds (i + 1)
      (if not (entry.type == 1) || leb 0x100000000 entry.base then p else p')

-- What happens to the bitmap once it is allocated at `bitmap`.
pub fill_bitmap : Info → (kernel_end bitmap bitmap_words : ℕ) → Pmm → Pmm
fill_bitmap info kernel_end bitmap bitmap_words p =
    let words = for_range bitmap_words 0 (λ i words. update words i 0xFFFFFFFF) p.words in
    let p = record p { bitmap = bitmap; words = words } in
    let p = free_regions info info.count 0 p in
    let p = Pmm.mark_range_used 0 0x00100000 p in
    let p = Pmm.mark_range_used 0 (virt_to_phys kernel_end) p in
    let bitmap_start_phys = virt_to_phys bitmap in
    Pmm.mark_range_used bitmap_start_phys (u32 (bitmap_start_phys + u32 (bitmap_words * 4))) p

-- `kernel_end` is the address of `_kernel_end`, which the linker sets.
pub pmm_init : Info → (kernel_end : ℕ) → Memory → Option Memory
pmm_init info kernel_end m =
    let counted =
      scan_regions info info.count 0 0
        (record (m.paging.pmm) { total_usable_bytes = 0; total_usable_pages = 0 }) in
    let highest = if ltb 0x100000000 (counted.0) then 0x100000000 else counted.0 in
    let total_pages = u32 (highest / Pmm.page_size) in
    let bitmap_words = u32 (total_pages + 31) / 32 in
    let m' = with_pmm (λ p. record (counted.1) { total_pages = total_pages }) m in
    if not (RamMapper.available info)
    then some (record m {
      startup_errors =
          log_startup_error
            (some (codes "Could not map RAM. Physical Memory Manager was not started."))
            m.startup_errors;
    })
    else if total_pages == 0
    then some m'
    else (do
      (bitmap, m) ← kmalloc_aligned (u32 (bitmap_words * 4)) Pmm.page_size m'
      some (
          if bitmap == 0
          then with_pmm (λ p. record p { bitmap = 0 })
              (record m {
                startup_errors =
                    log_startup_error (some (codes "PMM bitmap allocation failed."))
                      m.startup_errors;
              })
          else with_pmm (fill_bitmap info kernel_end bitmap bitmap_words) m))
