-- ===== src/Memory/NoPages.antt =====
-- The heap where no page can be had.
use frewozet.Base.{
  ap, ℕ, zero, suc, ◌+◌, ◌*◌, ◌<◌, ◌≡◌, ◌∙◌, refl, arith, false, some, ltb, if◌then◌else◌,
  Bool-cases, inl, inr, u32,
}
use frewozet.Pmm
use frewozet.Pmm.Alloc.{alloc_page-no_bitmap}
use frewozet.Heap.{header_size}
use frewozet.RamMapper.{Info}
use frewozet.Paging.{Paging}
use frewozet.Memory.Room.{bootstrap_of}
use frewozet.Memory.{
  Memory, heap_grow, heap_grow_pages, kernel_heap_end, map_pages, pages_needed_for,
  memory_enable_pmm_backend, memory_init,
}

map_pages-no_bitmap :
    (n virt : ℕ) (s : Paging) → s.pmm.bitmap ≡ 0 → 0 < n → map_pages n virt s ≡ some (false, s)
unfolding map_pages
map_pages-no_bitmap zero virt s h some_pages = absurd (omega arith)
map_pages-no_bitmap (suc n) virt s h some_pages = rw (alloc_page-no_bitmap s.pmm h) refl

abbrev NotGrown : ℕ → Memory → Type 0
NotGrown n m =
    (m' : Memory) × (heap_grow n m ≡ some (false, m')) × (bootstrap_of m' ≡ bootstrap_of m)

heap_grow-no_bitmap : (n : ℕ) (m : Memory) → m.paging.pmm.bitmap ≡ 0 → NotGrown n m
unfolding heap_grow
heap_grow-no_bitmap n m h = elim (Bool-cases (ltb end start)) [
  | inl wraps ↦ rw wraps (m, refl, refl)
  | inr stays ↦ elim (Bool-cases (ltb kernel_heap_end end)) [
    | inl beyond ↦ rw (stays, beyond) (m, refl, refl)
    | inr fits ↦
        rw (stays, fits, map_pages-no_bitmap pages start m.paging h (ground arith)) (m, refl, refl)
  ]
]
  where
    pages : ℕ
    pages =
        let needed = pages_needed_for (u32 (n + header_size)) in
        if ltb needed heap_grow_pages then heap_grow_pages else needed

    start : ℕ
    start = m.heap_virtual_current

    end : ℕ
    end = u32 (start + u32 (pages * Pmm.page_size))

-- Without a bitmap the kernel stays with its bootstrap heap.
pub memory_enable_pmm_backend-no_bitmap :
    (m : Memory)
    → m.paging.pmm.bitmap ≡ 0
    → m.pmm_backend_enabled ≡ false
    → (m' : Memory) × (memory_enable_pmm_backend m ≡ some m') × (bootstrap_of m' ≡ bootstrap_of m)
unfolding memory_enable_pmm_backend
memory_enable_pmm_backend-no_bitmap m h off =
    let (m', not_grown, same) = heap_grow-no_bitmap 1 m h in
    simp (off, not_grown)
      (_, refl, same ∙ ap (λ on. (m.bootstrap_heap_current, m.bootstrap_heap_limit, on)) off)

pub memory_init-keeps :
    (info : Info) (kernel_end : ℕ) (m : Memory) → (memory_init info kernel_end m).paging ≡ m.paging
unfolding memory_init
memory_init-keeps info kernel_end m = refl
