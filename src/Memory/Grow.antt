-- ===== src/Memory/Grow.antt =====
-- `heap_grow` of memory.c, and the invariant of the heap over the page allocator.
use frewozet.Base.{
  ℕ, ◌+◌, ◌-◌, ◌*◌, ◌^◌, ◌≤◌, ◌<◌, ◌≡◌, ◌≢◌, refl, Bool, true, false, Option, none, some, [], ◌∷◌,
  ◌++◌, arith, ltb, if◌then◌else◌, u32, Bool-cases, Option-cases, inl, inr, ◌⊎◌, ne→==, gt→leb,
}
use frewozet.Pmm
use frewozet.Paging.{Paging}
use frewozet.Heap
use frewozet.Heap.{Block, header_size}
use frewozet.Heap.Tiles.{Tiles, add_region-Tiles}
use frewozet.Memory.{
  Memory, kernel_heap_start, kernel_heap_end, heap_grow_pages, pages_needed_for, map_pages,
  heap_grow,
}

-- The blocks tile the committed part of the heap's address range, which `heap_committed_bytes`
-- counts.
pub record IsValid (m : Memory) : Type 0 where
  pub tiles : Tiles kernel_heap_start m.heap m.heap_virtual_current
  pub below : m.heap_virtual_current ≤ kernel_heap_end
  pub committed : kernel_heap_start + m.heap_committed_bytes ≡ m.heap_virtual_current

-- What growing for `n` bytes does: nothing to the heap but for the page tables, or one free block
-- behind the others, with room for `n` bytes if these and a header do not overflow the word.
pub record Grows (n : ℕ) (m m' : Memory) (grown : Bool) : Type 0 where
  pub valid : IsValid m'
  pub enabled : m'.pmm_backend_enabled ≡ m.pmm_backend_enabled
  pub heap :
      ((grown ≡ false) × (m'.heap ≡ m.heap))
      ⊎ ((grown ≡ true)
          × (b : Block) × (b.free ≡ true)
          × (n < 2 ^ 31 → n ≤ b.size)
          × (m'.heap ≡ m.heap ++ b ∷ []))

-- The number of pages, and of bytes, that `heap_grow` asks for.
abbrev pages_for : ℕ → ℕ
pages_for n =
    let needed = pages_needed_for (u32 (n + header_size)) in
    if ltb needed heap_grow_pages then heap_grow_pages else needed

abbrev region_size_for : ℕ → ℕ
region_size_for n = u32 (pages_for n * Pmm.page_size)

some-injective :
    {a b : Bool} {x y : Memory}
    → ◌≡◌ {A = Option (Bool × Memory)} (some (a, x)) (some (b, y))
    → (a ≡ b) × (x ≡ y)
some-injective e = (cc, cc)

region_size_for_bounds :
    (n : ℕ)
    → (16384 ≤ region_size_for n)
      × (region_size_for n < 2 ^ 32)
      × (n < 2 ^ 31 → n + 12 ≤ region_size_for n)
unfolding pages_needed_for
region_size_for_bounds n = ground arith

module _ {grown : Bool} (n : ℕ) (m m' : Memory) (v : IsValid m) where
  kept-Grows : (s : Paging) → (false ≡ grown) × (record m { paging = s } ≡ m') → Grows n m m' grown
  kept-Grows s e =
      rw (← e.0, ← e.1)
        (record {
          valid = record { tiles = v.tiles; below = v.below; committed = v.committed };
          enabled = refl;
          heap = inl (refl, refl);
        })

  added-Grows :
      (s : Paging) (size end committed : ℕ)
      → 16384 ≤ size
      → (n < 2 ^ 31 → n + 12 ≤ size)
      → m.heap_virtual_current + size ≡ end
      → end ≤ kernel_heap_end
      → u32 (m.heap_committed_bytes + size) ≡ committed
      → (true ≡ grown)
        × (record m {
          paging = s;
          heap_virtual_current = end;
          heap_committed_bytes = committed;
          heap = Heap.add_region m.heap_virtual_current size m.heap;
        }
            ≡ m')
      → Grows n m m' grown
  unfolding Heap.add_region
  added-Grows s size end committed large room at_end fits counted e =
      rw (← e.0, ← e.1)
        (record {
          valid = record {
            tiles = rw (← at_end) (
                add_region-Tiles m.heap kernel_heap_start m.heap_virtual_current size v.tiles
                  not_null (omega arith));
            below = fits;
            committed = omega (arith, v.committed);
          };
          enabled = refl;
          heap = inr (
            refl,
            record { addr = m.heap_virtual_current; size = size - header_size; free = true },
            refl,
            (λ h. omega (arith, room h)),
            rw (ne→== m.heap_virtual_current 0 not_null, gt→leb size 12 (omega arith)) refl,
          );
        })
    where
      not_null : m.heap_virtual_current ≢ 0
      not_null = omega (arith, v.committed)

-- `heap_grow` keeps the invariant, and a growth adds one free block, which is large enough when less
-- than 2 ^ 31 bytes are asked for; otherwise the blocks stay as they are.
pub heap_grow-Grows :
    {grown : Bool} (n : ℕ) (m m' : Memory)
    → IsValid m
    → heap_grow n m ≡ some (grown, m')
    → Grows n m m' grown
unfolding heap_grow
heap_grow-Grows {grown} n m m' v e = elim (Bool-cases (ltb region_end m.heap_virtual_current)) [
  | inl wraps ↦ kept-Grows n m m' v m.paging (some-injective (rw wraps at e))
  | inr stays ↦ elim (Bool-cases (ltb kernel_heap_end region_end)) [
    | inl beyond ↦ kept-Grows n m m' v m.paging (some-injective (rw (stays, beyond) at e))
    | inr fits ↦ elim (Option-cases (map_pages (pages_for n) m.heap_virtual_current m.paging)) [
      | inl fault ↦
          let never : ◌≡◌ {A = Option (Bool × Memory)} none (some (grown, m')) =
            rw (stays, fits, fault) at e in
          cc
      | inr ((false, s), failed) ↦
          kept-Grows n m m' v s (some-injective (rw (stays, fits, failed) at e))
      | inr ((true, s), mapped) ↦
          added-Grows n m m' v s (region_size_for n) region_end
            (u32 (m.heap_committed_bytes + region_size_for n)) (sizes.0) (sizes.2)
            (ground (arith, sizes, v.below)) (ground arith) refl
            (some-injective (rw (stays, fits, mapped) at e))
    ]
  ]
]
  where
    region_end : ℕ
    region_end = u32 (m.heap_virtual_current + region_size_for n)

    sizes :
        (16384 ≤ region_size_for n)
        × (region_size_for n < 2 ^ 32)
        × (n < 2 ^ 31 → n + 12 ≤ region_size_for n)
    sizes = region_size_for_bounds n
