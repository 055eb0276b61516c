-- ===== src/Memory/Aligned.antt =====
-- `kmalloc_aligned` of memory.c, above the alignment that `kmalloc` rounds sizes to.
use native.Mathlib.Nat.{div-mul-le_self, lt-div-mul-add}
use frewozet.Base.{
  ℕ, ◌+◌, ◌-◌, ◌*◌, ◌/◌, ◌%◌, ◌^◌, ◌≤◌, ◌<◌, ◌≡◌, ◌≢◌, refl, ap, ◌∙◌, subst, sym, true, false,
  Option, not, none, some, arith, ◌==◌, if◌then◌else◌, bit_and, u32, sub32, not32, Option-cases,
  inl, inr, ◌⊎◌, ne→==, gt→leb, le→leb, [], ◌∷◌,
}
use frewozet.Heap.{header_size, align_up_size, find_free_block}
use frewozet.Heap.Tiles.{block_at-Tiles, align_up_size_lem}
use frewozet.Memory.{
  Memory, kernel_heap_start, kernel_heap_end, kmalloc, kmalloc_aligned, use_block, store32,
}
use frewozet.Memory.Grow.{IsValid}
use frewozet.Memory.Alloc.{Hands, Kmallocs, Full, kmalloc-Kmallocs}
use frewozet.Memory.Bootstrap.{align_mask}

-- The size that `kmalloc` is asked for, rounded up.
abbrev pub rounded : (k size : ℕ) → ℕ
rounded k size = (size + (2 ^ k + 4) + 15) / 16 * 16

-- `p` is a multiple of the alignment 2 ^ `k`; `size` bytes from there lie in the range of a block
-- that `kmalloc` took, and the word below `p` is that range's address.
pub record HandsAligned (k size p : ℕ) (m m' : Memory) : Type 0 where
  pub between : Memory
  pub raw : ℕ
  pub hands : Hands (rounded k size) raw m between
  pub same_heap : m'.heap ≡ between.heap
  pub multiple : ℕ
  pub aligned : p ≡ multiple * 2 ^ k
  pub above : raw + 4 ≤ p
  pub inside : p + size ≤ raw + hands.size
  pub recorded :
      m'.bytes (p - 4)
        + 2 ^ 8 * m'.bytes (p - 3)
        + 2 ^ 16 * m'.bytes (p - 2)
        + 2 ^ 24 * m'.bytes (p - 1)
      ≡ raw

store32_lem :
    (bytes : ℕ → ℕ) (a v p : ℕ)
    → v < 2 ^ 32
    → a + 4 ≡ p
    → let b = store32 bytes a v in
      b (p - 4) + 2 ^ 8 * b (p - 3) + 2 ^ 16 * b (p - 2) + 2 ^ 24 * b (p - 1) ≡ v
store32_lem bytes a v p h e = ground arith

module _ (k j size : ℕ) (m : Memory) (word : k + j ≡ 32) (wide : 16 < 2 ^ k)
    (fits : size + 2 ^ k + 4 < 2 ^ 30) where
  abbrev align_raw : ℕ → ℕ
  align_raw raw = bit_and (sub32 (u32 (u32 (raw + 4) + 2 ^ k)) 1) (not32 (sub32 (2 ^ k) 1))

  raw-HandsAligned :
      (raw : ℕ) (m1 : Memory)
      → Hands (rounded k size) raw m m1
      → HandsAligned k size
          (align_raw raw)
          m
          (record m1 { bytes = store32 m1.bytes (sub32 (align_raw raw) 4) raw })
  raw-HandsAligned raw m1 h = record {
    between = m1;
    raw = raw;
    hands = h;
    same_heap = refl;
    multiple = (raw + 4 + 2 ^ k - 1) / 2 ^ k;
    aligned = at_p;
    above = omega (arith, at_p, reach);
    inside = omega (arith, at_p, reach, h.enough);
    recorded =
        store32_lem m1.bytes (sub32 (align_raw raw) 4) raw (align_raw raw)
          (omega (arith, below, h.enough)) (omega (arith, at_p, reach, below, h.enough));
  }
    where
      below : raw + h.size ≤ kernel_heap_end
      below = omega (
        arith,
        h.payload,
        h.valid.below,
        block_at-Tiles m1.heap kernel_heap_start m1.heap_virtual_current h.addr h.valid.tiles
            h.used,
      )

      at_p : align_raw raw ≡ (raw + 4 + 2 ^ k - 1) / 2 ^ k * 2 ^ k
      at_p =
          ap (λ x. bit_and x (not32 (sub32 (2 ^ k) 1))) {y = raw + 4 + 2 ^ k - 1}
            (omega (arith, below, h.enough))
          ∙ align_mask k j (raw + 4 + 2 ^ k - 1) word (omega (arith, below, h.enough))

      reach :
          (raw + 4 ≤ (raw + 4 + 2 ^ k - 1) / 2 ^ k * 2 ^ k)
          × ((raw + 4 + 2 ^ k - 1) / 2 ^ k * 2 ^ k ≤ raw + 4 + 2 ^ k - 1)
      reach = (
        omega (arith, lt-div-mul-add {a = raw + 4 + 2 ^ k - 1} {b = 2 ^ k} (omega arith)),
        div-mul-le_self (raw + 4 + 2 ^ k - 1) (2 ^ k),
      )

  -- `kmalloc_aligned` over the page allocator, for an alignment 2 ^ k above 16 and a size above 0 with
  -- size + 2 ^ k + 4 < 2 ^ 30, when it does not fault: it gives null, no free block being large
  -- enough, and the block list is as it was; or an aligned range inside a block that `kmalloc` took.
  pub kmalloc_aligned-HandsAligned :
      (p : ℕ) (m' : Memory)
      → size ≢ 0
      → m.pmm_backend_enabled ≡ true
      → IsValid m
      → kmalloc_aligned size (2 ^ k) m ≡ some (p, m')
      → ((p ≡ 0) × (m'.heap ≡ m.heap) × Full (rounded k size) m.heap) ⊎ HandsAligned k size p m m'
  unfolding kmalloc_aligned
  kmalloc_aligned-HandsAligned p m' some_bytes on v e =
      elim (Option-cases (kmalloc (u32 (size + u32 (2 ^ k + 4))) m)) [
        | inl fault ↦
            let never : ◌≡◌ {A = Option (ℕ × Memory)} none (some (p, m')) =
              rw (fault, start, on, gt→leb (2 ^ k) 16 wide) at e in
            cc
        | inr ((raw, m1), got) ↦
            took raw m1
              (kmalloc-Kmallocs (size + (2 ^ k + 4)) raw m m1 (omega arith) (omega arith) on v
                (rw asked at got))
              (rw (got, start, on, gt→leb (2 ^ k) 16 wide) at e)
      ]
    where
      start : (size == 0) ≡ false
      start = ne→== size 0 some_bytes

      asked : u32 (size + u32 (2 ^ k + 4)) ≡ size + (2 ^ k + 4)
      asked = omega arith

      took :
          (raw : ℕ) (m1 : Memory)
          → Kmallocs (rounded k size) raw m m1
          → ◌≡◌ {A = Option (ℕ × Memory)}
              (some (
                if raw == 0 then (0, m1) else (
                  align_raw raw,
                  record m1 { bytes = store32 m1.bytes (sub32 (align_raw raw) 4) raw },
                )))
              (some (p, m'))
          → ((p ≡ 0) × (m'.heap ≡ m.heap) × Full (rounded k size) m.heap)
            ⊎ HandsAligned k size p m m'
      took raw m1 (inl (null, same, full, _, _)) e =
          let done : ◌≡◌ {A = Option (ℕ × Memory)} (some (0, m1)) (some (p, m')) = rw null at e in
          let at_p : 0 ≡ p = cc in
          let same' : m1 ≡ m' = cc in inl (sym at_p, rw (← same') same, full)
      took raw m1 (inr h) e =
          let given : (raw == 0) ≡ false = ne→== raw 0 (omega (arith, h.payload)) in
          let done : ◌≡◌ {A = Option (ℕ × Memory)}
              (some (
                align_raw raw,
                record m1 { bytes = store32 m1.bytes (sub32 (align_raw raw) 4) raw },
              ))
              (some (p, m')) =
            rw given at e in
          let pair : ◌≡◌ {A = ℕ × Memory}
              (align_raw raw, record m1 { bytes = store32 m1.bytes (sub32 (align_raw raw) 4) raw })
              (p, m') =
            cc in
          inr (subst (λ r. HandsAligned k size r.0 m r.1) pair (raw-HandsAligned raw m1 h))

use_block-payload : (block n : ℕ) (m : Memory) → (use_block block n m).0 ≡ block + header_size
unfolding use_block
use_block-payload block n m = refl

-- At or below the default alignment nothing aligns the payload: while the heap is one free block, as
-- the first growth leaves it, `kmalloc_aligned` gives an address that is 12 more than a multiple of
-- 16 when it is asked for one.
pub kmalloc_aligned_at_start :
    (size n p : ℕ) (m m' : Memory)
    → size ≢ 0
    → m.pmm_backend_enabled ≡ true
    → m.heap ≡ record { addr = kernel_heap_start; size = n; free = true } ∷ []
    → size + 15 ≤ n
    → n < 2 ^ 32
    → kmalloc_aligned size 16 m ≡ some (p, m')
    → p % 16 ≡ 12
unfolding kmalloc_aligned kmalloc find_free_block
kmalloc_aligned_at_start size n p m m' some_bytes on heap room small e =
    let start : (size == 0) ≡ false = ne→== size 0 some_bytes in
    let taken : ◌≡◌ {A = Option (ℕ × Memory)}
        (some (use_block kernel_heap_start (align_up_size size 16) m)) (some (p, m')) =
      rw (found, start, ap not on) at e in
    let pair : use_block kernel_heap_start (align_up_size size 16) m ≡ (p, m') = cc in
    omega (
      arith,
      sym (use_block-payload kernel_heap_start (align_up_size size 16) m) ∙ ap (λ r. r.0) pair,
    )
  where
    found : find_free_block (align_up_size size 16) m.heap ≡ some kernel_heap_start
    found =
        rw
          (
            heap,
            align_up_size_lem size (omega arith),
            le→leb ((size + 15) / 16 * 16) n (omega arith),
          )
          refl
