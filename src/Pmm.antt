-- ===== src/Pmm.antt =====
-- pmm.c: the physical page allocator, a bitmap with a bit for each 4 KiB page (1 is used).
-- The bitmap's words are addressed by index; `bitmap` is the pointer, 0 before it is allocated.
pub mod Bitmap
pub mod Ranges
pub mod Alloc
pub mod Free
pub mod Count
mod Tests
use frewozet.Base.{
  ℕ, zero, suc, ◌+◌, ◌-◌, ◌*◌, ◌/◌, ◌%◌, ◌^◌, bit_and, bit_or, ◌&&◌, ◌||◌, not, Option, none, some,
  ltb, leb, ◌==◌, if◌then◌else◌, update, u32, u64, shr, not32, sub32,
}

abbrev pub page_size : ℕ
page_size = 4096

pub record Pmm : Type 0 where
  pub bitmap : ℕ
  pub words : ℕ → ℕ
  pub total_pages : ℕ
  pub total_usable_pages : ℕ
  pub total_usable_bytes : ℕ

-- `(addr + mask) & ~mask` and `addr & ~mask`, where `mask` is `alignment - 1`
unfoldable pub align_up_u32 : ℕ → ℕ → ℕ
align_up_u32 addr alignment =
    let mask = sub32 alignment 1 in bit_and (u32 (addr + mask)) (not32 mask)

unfoldable pub align_down_u32 : ℕ → ℕ → ℕ
align_down_u32 addr alignment = let mask = sub32 alignment 1 in bit_and addr (not32 mask)

pub set_bit : ℕ → Pmm → Pmm
set_bit page p = record p {
  words = update p.words (page / 32) (bit_or (p.words (page / 32)) (2 ^ (page % 32)));
}

pub clear_bit : ℕ → Pmm → Pmm
clear_bit page p = record p {
  words = update p.words (page / 32) (bit_and (p.words (page / 32)) (not32 (2 ^ (page % 32))));
}

pub test_bit : Pmm → ℕ → ℕ
test_bit p page = bit_and (shr (p.words (page / 32)) (page % 32)) 1

-- The body of the loop of `pmm_mark_range_used`.
use_page : ℕ → Pmm → Pmm
use_page page p = if ltb page p.total_pages && (test_bit p page == 0) then set_bit page p else p

-- That loop; the fuel bounds its rounds.
mark_used_loop : ℕ → ℕ → ℕ → Pmm → Pmm
mark_used_loop zero addr end p = p
mark_used_loop (suc fuel) addr end p =
    let p' = use_page (addr / page_size) p in
    let rest = mark_used_loop fuel (u32 (addr + page_size)) end p' in
    if ltb addr end then rest else p

-- A 32-bit address space has this many pages.
abbrev pub max_pages : ℕ
max_pages = 2 ^ 20

pub mark_range_used : ℕ → ℕ → Pmm → Pmm
mark_range_used start_addr end_addr p =
    let start = align_down_u32 start_addr page_size in
    let end = align_up_u32 end_addr page_size in mark_used_loop (max_pages + 1) start end p

-- The body of the loop of `pmm_mark_range_free`, and the loop.
unuse_page : ℕ → Pmm → Pmm
unuse_page page p =
    if ltb page p.total_pages && not (test_bit p page == 0) then clear_bit page p else p

mark_free_loop : ℕ → ℕ → ℕ → Pmm → Pmm
mark_free_loop zero addr end p = p
mark_free_loop (suc fuel) addr end p =
    let p' = unuse_page (addr / page_size) p in
    let rest = mark_free_loop fuel (u32 (addr + page_size)) end p' in
    if ltb addr end then rest else p

pub mark_range_free : ℕ → ℕ → Pmm → Pmm
mark_range_free start_addr end_addr p =
    let start = align_up_u32 start_addr page_size in
    let end = align_down_u32 end_addr page_size in
    if leb end start then p else mark_free_loop (max_pages + 1) start end p

-- The search of `pmm_alloc_contiguous`, with the rounds that its loop has left: the first page of
-- the run that it takes, if it finds one.
find_run : Pmm → ℕ → (rounds page run_start run_len : ℕ) → Option ℕ
find_run p page_count zero page run_start run_len = none
find_run p page_count (suc rounds) page run_start run_len =
    let start = if run_len == 0 then page else run_start in
    let len = u32 (run_len + 1) in
    let longer = find_run p page_count rounds (page + 1) start len in
    let broken = find_run p page_count rounds (page + 1) run_start 0 in
    if test_bit p page == 0 then if len == page_count then some start else longer else broken

-- `for (i = 0; i < n; i++) pmm_set_bit(start + i)`, from `i` on
set_run : ℕ → ℕ → Pmm → Pmm
set_run start zero p = p
set_run start (suc n) p = set_run (start + 1) n (set_bit start p)

-- The address is 0, the null pointer, on failure.
pub alloc_contiguous : ℕ → Pmm → ℕ × Pmm
alloc_contiguous page_count p =
    if (p.bitmap == 0) || (page_count == 0)
    then (0, p)
    else elim (find_run p page_count p.total_pages 0 0 0) [
      | none ↦ (0, p)
      | some run_start ↦ (u32 (run_start * page_size), set_run run_start page_count p)
    ]

pub alloc_page : Pmm → ℕ × Pmm
alloc_page p = alloc_contiguous 1 p

-- The loop of `pmm_alloc_page_below`.
find_page : Pmm → (rounds page : ℕ) → Option ℕ
find_page p zero page = none
find_page p (suc rounds) page =
    let rest = find_page p rounds (page + 1) in if test_bit p page == 0 then some page else rest

pub alloc_page_below : ℕ → Pmm → ℕ × Pmm
alloc_page_below limit p =
    let wanted = limit / page_size in
    let max_page = if ltb p.total_pages wanted then p.total_pages else wanted in
    if p.bitmap == 0 then (0, p) else elim (find_page p max_page 0) [
      | none ↦ (0, p)
      | some page ↦ (u32 (page * page_size), set_bit page p)
    ]

-- The loop of `pmm_free_contiguous`, with `n` rounds left.
clear_run : ℕ → ℕ → Pmm → Pmm
clear_run page zero p = p
clear_run page (suc n) p =
    let p' = if test_bit p page == 0 then p else clear_bit page p in
    let rest = clear_run (u32 (page + 1)) n p' in if leb p.total_pages page then p else rest

pub free_contiguous : ℕ → ℕ → Pmm → Pmm
free_contiguous start_page page_count p =
    let start_index = start_page / page_size in
    if (p.bitmap == 0) || (start_page == 0) || (page_count == 0)
    then p
    else if not (start_page % page_size == 0)
    then p
    else if leb p.total_pages start_index
    then p
    else clear_run start_index page_count p

pub free_page : ℕ → Pmm → Pmm
free_page page_ptr p = free_contiguous page_ptr 1 p

-- The loop of `pmm_get_free_pages`.
count_free : Pmm → (rounds page free_pages : ℕ) → ℕ
count_free p zero page free_pages = free_pages
count_free p (suc rounds) page free_pages =
    count_free p rounds (page + 1)
      (if test_bit p page == 0 then u32 (free_pages + 1) else free_pages)

pub get_free_pages : Pmm → ℕ
get_free_pages p = if p.bitmap == 0 then 0 else count_free p p.total_pages 0 0

pub get_used_pages : Pmm → ℕ
get_used_pages p =
    let free_pages = get_free_pages p in
    if leb free_pages p.total_usable_pages then p.total_usable_pages - free_pages else 0

pub get_total_bytes : Pmm → ℕ
get_total_bytes p = u64 (p.total_pages * page_size)

pub get_total_free_bytes : Pmm → ℕ
get_total_free_bytes p = u64 (get_free_pages p * page_size)

pub get_total_used_bytes : Pmm → ℕ
get_total_used_bytes p = u64 (get_used_pages p * page_size)

-- What a test unfolds to run this file.
unfoldable pub program : Unit {0}
unfolding align_up_u32 align_down_u32 set_bit clear_bit test_bit use_page unuse_page mark_used_loop
    mark_free_loop mark_range_used mark_range_free find_run set_run alloc_contiguous alloc_page
    find_page alloc_page_below clear_run free_contiguous free_page count_free get_free_pages
    get_used_pages
program = tt
