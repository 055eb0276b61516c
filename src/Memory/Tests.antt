-- ===== src/Memory/Tests.antt =====
-- The heap right after the page allocator took over, with its first block of four pages.
use frewozet.Base.{
  ℕ, ◌+◌, ◌*◌, ◌/◌, ◌%◌, ◌^◌, ◌<◌, ◌≤◌, ◌≡◌, refl, arith, ◌==◌, if◌then◌else◌, ◌≢◌, inl, inr, some,
  Option, none, [], ◌∷◌, true, ◌⊎◌,
}
use frewozet.Pmm.{Pmm}
use frewozet.Heap.{header_size, find_free_block}
use frewozet.Heap.Split.{Used}
use frewozet.Memory.{
  use_block, Memory, program, heap_grow, kmalloc, kcalloc, kmalloc_aligned, bootstrap_alloc_aligned,
}
use frewozet.Memory.Grow.{IsValid, Grows, heap_grow-Grows}
use frewozet.Memory.Alloc.{Kmallocs, Full, kmalloc-Kmallocs}
use frewozet.Memory.Payload.{kmalloc-apart, kcalloc-kmalloc, kmalloc_wraps}
use frewozet.Memory.Aligned.{
  HandsAligned, kmalloc_aligned-HandsAligned, rounded, kmalloc_aligned_at_start,
}
use frewozet.Memory.Bootstrap.{Bumps, NoRoom, bootstrap_alloc_aligned-Bumps}

abbrev pages : Pmm
pages = record {
  bitmap = 0xC0010000;
  words = λ i. if i == 0 then 0xFFFF else 0;
  total_pages = 1024;
  total_usable_pages = 1008;
  total_usable_bytes = 1008 * 4096;
}

abbrev fresh : Memory
fresh = record {
  bootstrap_heap_start = 0xC0100000;
  bootstrap_heap_current = 0xC0100008;
  bootstrap_heap_limit = 0xC0400000;
  heap = record { addr = 0xC1000000; size = 16372; free = true } ∷ [];
  pmm_backend_enabled = true;
  heap_virtual_current = 0xC1004000;
  heap_committed_bytes = 16384;
  bytes = λ a. 0xCC;
  paging = record {
    mem =
        λ a. if a == 0x9000 + 4 * 768 then 0xA003 else if a == 0x9000 + 4 * 772 then 0xB003 else 0;
    invalidated = [];
    cr3_reloads = 1;
    pmm = pages;
  };
  startup_errors = [];
}

fresh-IsValid : IsValid fresh
fresh-IsValid = record { tiles = (refl, refl); below = omega arith; committed = refl }

abbrev run : Option (ℕ × Memory) → ℕ × Memory
run none = (0, fresh)
run (some r) = r

-- The payload is not a multiple of 16.
kmalloc-runs : (run (kmalloc 100 fresh)).0 ≡ 0xC100000C
unfolding program
kmalloc-runs = refl

abbrev after : Memory
after = (run (kmalloc 100 fresh)).1

after-ran : kmalloc 100 fresh ≡ some (0xC100000C, after)
unfolding program
after-ran = refl

abbrev hundred : ℕ
hundred = 100

abbrev first_payload : ℕ
first_payload = 0xC100000C

abbrev page_payload : ℕ
page_payload = 0xC1001000

abbrev grown : Memory
grown = elim (heap_grow 20000 fresh) [ none ↦ fresh | some (done, m) ↦ m ]

grown-ran : heap_grow 20000 fresh ≡ some (true, grown)
unfolding program
grown-ran = refl

grown-end : grown.heap_virtual_current ≡ 0xC1009000
unfolding program
grown-end = refl

second-runs : (run (kmalloc 16 after)).0 ≡ 0xC1000088
unfolding program
second-runs = refl

second-ran : kmalloc 16 after ≡ some (0xC1000088, (run (kmalloc 16 after)).1)
unfolding program
second-ran = refl

cleared-ran : kcalloc 10 10 fresh ≡ some (0xC100000C, (run (kcalloc 10 10 fresh)).1)
unfolding program
cleared-ran = refl

aligned-ran :
    kmalloc_aligned 100 (2 ^ 12) fresh
    ≡ some (0xC1001000, (run (kmalloc_aligned 100 (2 ^ 12) fresh)).1)
unfolding program
aligned-ran = refl

first-ran : kmalloc_aligned 100 16 fresh ≡ some (0xC100000C, (run (kmalloc_aligned 100 16 fresh)).1)
unfolding program
first-ran = refl

heap_grow-Grows_example : Grows 20000 fresh grown true
heap_grow-Grows_example = heap_grow-Grows 20000 fresh grown fresh-IsValid grown-ran

kmalloc-Kmallocs_example : Kmallocs ((100 + 15) / 16 * 16) 0xC100000C fresh after
kmalloc-Kmallocs_example =
    kmalloc-Kmallocs 100 0xC100000C fresh after (omega arith) (omega arith) refl fresh-IsValid
      after-ran

after-IsValid : IsValid after
after-IsValid = elim kmalloc-Kmallocs_example [ inl n ↦ n.3 | inr h ↦ h.valid ]

after-on : after.pmm_backend_enabled ≡ true
unfolding program
after-on = refl

after-used : Used after.heap 0xC1000000 112
unfolding program
after-used = refl

kmalloc-apart_example :
    (0xC1000088 + 16 ≤ 0xC1000000) ⊎ (0xC1000000 + header_size + 112 + header_size ≤ 0xC1000088)
kmalloc-apart_example =
    kmalloc-apart 16 0xC1000088 0xC1000000 112 after (run (kmalloc 16 after)).1 (omega arith)
      (omega arith) after-on after-IsValid second-ran (omega arith) after-used

kcalloc-kmalloc_example :
    let m' = (run (kcalloc 10 10 fresh)).1 in
    (m1 : Memory) × (kmalloc (10 * 10) fresh ≡ some (0xC100000C, m1))
    × (m'.heap ≡ m1.heap)
    × (first_payload ≢ 0 → (a : ℕ) → 0xC100000C ≤ a → a < 0xC100000C + 10 * 10 → m'.bytes a ≡ 0)
    × ((a : ℕ) → (a < 0xC100000C) ⊎ (0xC100000C + 10 * 10 ≤ a) → m'.bytes a ≡ m1.bytes a)
kcalloc-kmalloc_example =
    kcalloc-kmalloc 10 10 0xC100000C fresh (run (kcalloc 10 10 fresh)).1 (omega arith) (omega arith)
      cleared-ran

kmalloc_aligned-HandsAligned_example :
    let m' = (run (kmalloc_aligned 100 (2 ^ 12) fresh)).1 in
    ((page_payload ≡ 0) × (m'.heap ≡ fresh.heap) × Full (rounded 12 100) fresh.heap)
    ⊎ HandsAligned 12 100 0xC1001000 fresh m'
kmalloc_aligned-HandsAligned_example =
    kmalloc_aligned-HandsAligned 12 20 100 fresh refl (omega arith) (omega arith) 0xC1001000
      (run (kmalloc_aligned 100 (2 ^ 12) fresh)).1 (omega arith) refl fresh-IsValid aligned-ran

kmalloc_aligned_at_start_example : 0xC100000C % 16 ≡ 12
kmalloc_aligned_at_start_example =
    kmalloc_aligned_at_start 100 16372 0xC100000C fresh (run (kmalloc_aligned 100 16 fresh)).1
      (omega arith) refl refl (omega arith) (omega arith) first-ran

bootstrap_alloc_aligned-Bumps_example :
    let r = bootstrap_alloc_aligned 100 (2 ^ 12) fresh in
    ((r ≡ (0, fresh)) × ((hundred ≡ 0) ⊎ NoRoom 12 100 fresh)) ⊎ Bumps 12 100 r.0 fresh r.1
bootstrap_alloc_aligned-Bumps_example =
    bootstrap_alloc_aligned-Bumps 12 20 100 fresh refl (omega arith) (omega arith) (omega arith)

found-zero : find_free_block 0 fresh.heap ≡ some 0xC1000000
unfolding program
found-zero = refl

kmalloc_wraps_example : kmalloc 0xFFFFFFF8 fresh ≡ some (use_block 0xC1000000 0 fresh)
kmalloc_wraps_example =
    kmalloc_wraps 0xFFFFFFF8 0xC1000000 fresh (omega arith) (omega arith) refl found-zero
