-- ===== src/Memory/Alloc.antt =====
-- `kmalloc` of memory.c over the page allocator.
use frewozet.Base.{
  ℕ, ◌+◌, ◌*◌, ◌/◌, ◌%◌, ◌^◌, ◌≤◌, ◌<◌, ◌≡◌, ◌≢◌, refl, ◌∙◌, subst, sym, true, false, Option, none,
  some, List, [], ◌∷◌, ◌++◌, arith, Option-cases, inl, inr, ◌⊎◌, ne→==,
}
use frewozet.Heap
use frewozet.Heap.{Block, header_size, align_up_size, find_free_block, default_alignment}
use frewozet.Heap.Tiles.{block_at, align_up_size_lem}
use frewozet.Heap.Split.{
  Used, find_free_block-block_at, find_free_block-none, Takes, take_found-Takes,
}
use frewozet.Memory.{Memory, kernel_heap_start, heap_grow, use_block, kmalloc}
use frewozet.Memory.Grow.{IsValid, Grows, heap_grow-Grows}

-- The address `p` is the payload of a block of at least `n` bytes that was not used before and is
-- now; blocks that were used are as they were.
pub record Hands (n p : ℕ) (m m' : Memory) : Type 0 where
  pub valid : IsValid m'
  pub enabled : m'.pmm_backend_enabled ≡ m.pmm_backend_enabled
  pub addr : ℕ
  pub size : ℕ
  pub payload : p ≡ addr + header_size
  pub used : Used m'.heap addr size
  pub enough : n ≤ size
  pub fresh : (k : ℕ) → ¬ Used m.heap addr k
  pub kept : (c k : ℕ) → Used m.heap c k → Used m'.heap c k

-- No block is free and large enough.
abbrev pub Full : ℕ → List Block → Type 0
Full n heap = (a : ℕ) (b : Block) → block_at a heap ≡ some b → b.free ≡ true → b.size < n

use_block-Hands :
    (n a : ℕ) (m : Memory)
    → n % 16 ≡ 0
    → IsValid m
    → find_free_block n m.heap ≡ some a
    → Hands n (use_block a n m).0 m (use_block a n m).1
unfolding use_block
use_block-Hands n a m round v e = record {
  valid = record { tiles = taken.tiles; below = v.below; committed = v.committed };
  enabled = refl;
  addr = a;
  size = taken.size;
  payload = refl;
  used = taken.used;
  enough = taken.enough;
  fresh = λ k u. ground (arith, found.1, found.2);
  kept = taken.kept;
}
  where
    taken :
        Takes n a kernel_heap_start m.heap_virtual_current m.heap
          (Heap.take_block a (Heap.split_block a n m.heap))
    taken =
        take_found-Takes m.heap n a kernel_heap_start m.heap_virtual_current round
          (omega (arith, v.below)) v.tiles e

    found : (b : Block) × (block_at a m.heap ≡ some b) × (b.free ≡ true) × (n ≤ b.size)
    found = find_free_block-block_at m.heap kernel_heap_start m.heap_virtual_current n a v.tiles e

block_at-append :
    (heap ys : List Block) (a : ℕ) {b : Block}
    → block_at a heap ≡ some b
    → block_at a (heap ++ ys) ≡ some b
block_at-append [] ys a e = cc
block_at-append (x ∷ heap) ys a {b} e = ground (arith, block_at-append heap ys a {b = b})

find_free_block-last :
    (heap : List Block) (b : Block) (n : ℕ)
    → find_free_block n (heap ++ b ∷ []) ≡ none
    → b.free ≡ true
    → b.size < n
unfolding find_free_block
find_free_block-last [] b n e f = ground arith
find_free_block-last (x ∷ heap) b n e f = ground (arith, find_free_block-last heap b n)

-- What holds of the heap grown by a block is so of the heap before.
Hands-grown :
    {n p : ℕ} (m m1 : Memory) {m' : Memory} → Grows n m m1 true → Hands n p m1 m' → Hands n p m m'
Hands-grown {n} {p} m m1 {m'} g h = elim g.heap [
  | inl (e, same) ↦ absurd (no e)
  | inr (e, b, f, large, added) ↦ record {
    valid = h.valid;
    enabled = h.enabled ∙ g.enabled;
    addr = h.addr;
    size = h.size;
    payload = h.payload;
    used = h.used;
    enough = h.enough;
    fresh = λ k u. h.fresh k (grown b added h.addr k u);
    kept = λ c k u. h.kept c k (grown b added c k u);
  }
]
  where
    no : true ≡ false → ⊥
    no e = cc

    grown :
        (b : Block) → m1.heap ≡ m.heap ++ b ∷ [] → (c k : ℕ) → Used m.heap c k → Used m1.heap c k
    grown b added c k u = rw added (block_at-append m.heap (b ∷ []) c u)

-- What `kmalloc` does with a request of `n` bytes, rounded up.
abbrev pub Kmallocs : (n p : ℕ) (m m' : Memory) → Type 0
Kmallocs n p m m' =
    ((p ≡ 0) × (m'.heap ≡ m.heap) × Full n m.heap × IsValid m' × (m'.pmm_backend_enabled ≡ true))
    ⊎ Hands n p m m'

handed :
    (n a : ℕ) {p : ℕ} (m : Memory) {m' : Memory}
    → n % 16 ≡ 0
    → IsValid m
    → find_free_block n m.heap ≡ some a
    → ◌≡◌ {A = Option (ℕ × Memory)} (some (use_block a n m)) (some (p, m'))
    → Hands n p m m'
handed n a {p} m {m'} round v found e =
    let same : use_block a n m ≡ (p, m') = cc in
    subst (λ r. Hands n r.0 m r.1) same (use_block-Hands n a m round v found)

after_growth :
    (n p : ℕ) (m m1 m' : Memory)
    → n % 16 ≡ 0
    → n < 2 ^ 31
    → Grows n m m1 true
    → ◌≡◌ {A = Option (ℕ × Memory)}
        (elim (find_free_block n m1.heap) [
          | some block ↦ some (use_block block n m1)
          | none ↦ some (0, m1)
        ])
        (some (p, m'))
    → Hands n p m m'
after_growth n p m m1 m' round small g e = elim (Option-cases (find_free_block n m1.heap)) [
  | inl full ↦ elim g.heap [
    | inl (off, same) ↦ absurd (true_false off)
    | inr (on, b, f, large, added) ↦
        absurd (too_small b added large (find_free_block-last m.heap b n (rw added at full) f))
  ]
  | inr (a, found) ↦ Hands-grown m m1 g (handed n a m1 round g.valid found (rw found at e))
]
  where
    true_false : true ≡ false → ⊥
    true_false e = cc

    too_small :
        (b : Block) → m1.heap ≡ m.heap ++ b ∷ [] → (n < 2 ^ 31 → n ≤ b.size) → b.size < n → ⊥
    too_small b added large less = omega (arith, large small)

-- `kmalloc` over the page allocator, for 0 < size < 2 ^ 30, when it does not fault: it gives null,
-- no free block being large enough, and the block list is as it was; or the payload of a block that
-- was not used, large enough, and used now. The blocks still tile the heap, and used blocks are
-- kept.
pub kmalloc-Kmallocs :
    (size p : ℕ) (m m' : Memory)
    → size ≢ 0
    → size < 2 ^ 30
    → m.pmm_backend_enabled ≡ true
    → IsValid m
    → kmalloc size m ≡ some (p, m')
    → Kmallocs ((size + 15) / 16 * 16) p m m'
unfolding kmalloc
kmalloc-Kmallocs size p m m' some_bytes small on v e =
    subst (λ k. Kmallocs k p m m') aligned
      (elim (Option-cases (find_free_block n m.heap)) [
        | inr (a, found) ↦ inr (
            handed n a m (omega (arith, aligned)) v found
              (rw (ne→== size 0 some_bytes, on, found) at e))
        | inl full ↦ elim (Option-cases (heap_grow n m)) [
          | inl fault ↦
              let never : ◌≡◌ {A = Option (ℕ × Memory)} none (some (p, m')) =
                rw (ne→== size 0 some_bytes, on, full, fault) at e in
              cc
          | inr ((false, m1), failed) ↦ inl (
              kept m1 (heap_grow-Grows n m m1 v failed) full
                (rw (ne→== size 0 some_bytes, on, full, failed) at e))
          | inr ((true, m1), grown) ↦ inr (
              after_growth n p m m1 m' (omega (arith, aligned)) (omega (arith, aligned))
                (heap_grow-Grows n m m1 v grown)
                (rw (ne→== size 0 some_bytes, on, full, grown) at e))
        ]
      ])
  where
    n : ℕ
    n = align_up_size size default_alignment

    aligned : n ≡ (size + 15) / 16 * 16
    aligned = align_up_size_lem size (omega arith)

    kept :
        (m1 : Memory)
        → Grows n m m1 false
        → find_free_block n m.heap ≡ none
        → ◌≡◌ {A = Option (ℕ × Memory)} (some (0, m1)) (some (p, m'))
        → (p ≡ 0)
          × (m'.heap ≡ m.heap)
          × Full n m.heap
          × IsValid m'
          × (m'.pmm_backend_enabled ≡ true)
    kept m1 g full e =
        let null : 0 ≡ p = cc in
        let same : m1 ≡ m' = cc in
        elim g.heap [
          | inl (off, unchanged) ↦ (
            sym null,
            rw (← same) unchanged,
            (λ a b at_a f. find_free_block-none m.heap n a full at_a f),
            rw (← same) g.valid,
            rw (← same) (g.enabled ∙ on),
          )
          | inr (off, b, f, large, added) ↦ let never : false ≡ true = off in cc
        ]
