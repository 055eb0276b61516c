-- ===== src/Memory/Payload.antt =====
-- What the callers of `kmalloc` of memory.c get: ranges apart, cleared ranges, aligned ranges.
use native.Mathlib.Nat.{div-lt_iff_lt-mul}
use frewozet.Base.{
  ℕ, ◌+◌, ◌-◌, ◌*◌, ◌/◌, ◌^◌, ◌≤◌, ◌<◌, ◌≡◌, ◌≢◌, refl, subst, true, false, Option, none, some, ap,
  not, arith, ne→==, ltb, leb, ◌==◌, ◌&&◌, ◌||◌, if◌then◌else◌, u32, Bool-cases, Option-cases, inl,
  inr, ◌⊎◌, ltb→lt, tests, ge→ltb, lt→ltb,
}
use frewozet.Heap.{header_size, align_up_size, find_free_block}
use frewozet.Heap.Tiles.{align_up_size_wraps, block_at-apart}
use frewozet.Heap.Split.{Used}
use frewozet.Memory.{Memory, kernel_heap_start, kmalloc, use_block, kcalloc}
use frewozet.Memory.Grow.{IsValid}
use frewozet.Memory.Alloc.{Hands, Kmallocs, kmalloc-Kmallocs}

Hands-apart :
    {n p : ℕ} {m m' : Memory} (c k : ℕ)
    → Hands n p m m'
    → Used m.heap c k
    → (p + n ≤ c) ⊎ (c + header_size + k + header_size ≤ p)
Hands-apart {n} {p} {m} {m'} c k h u = elim (Bool-cases (h.addr == c)) [
  | inl same ↦ absurd (h.fresh k (subst (λ a. Used m.heap a k) (omega (tests, same)) u))
  | inr ne ↦ elim (Bool-cases (ltb h.addr c)) [
    | inl before ↦ inl (
        omega (
          arith,
          h.payload,
          h.enough,
          block_at-apart m'.heap kernel_heap_start m'.heap_virtual_current h.addr c h.valid.tiles
              h.used (h.kept c k u) (ltb→lt h.addr c before),
        ))
    | inr after ↦ inr (
        omega (
          arith,
          h.payload,
          block_at-apart m'.heap kernel_heap_start m'.heap_virtual_current c h.addr h.valid.tiles
              (h.kept c k u) h.used (omega (tests, ne, after)),
        ))
  ]
]

-- For 0 < size < 2 ^ 30, a range that `kmalloc` gives over the page allocator, and its header, do not
-- overlap a block that was used before, nor its header.
pub kmalloc-apart :
    (size p c k : ℕ) (m m' : Memory)
    → size ≢ 0
    → size < 2 ^ 30
    → m.pmm_backend_enabled ≡ true
    → IsValid m
    → kmalloc size m ≡ some (p, m')
    → p ≢ 0
    → Used m.heap c k
    → (p + size ≤ c) ⊎ (c + header_size + k + header_size ≤ p)
kmalloc-apart size p c k m m' some_bytes small on v e given u =
    apart (kmalloc-Kmallocs size p m m' some_bytes small on v e)
  where
    apart :
        Kmallocs ((size + 15) / 16 * 16) p m m'
        → (p + size ≤ c) ⊎ (c + header_size + k + header_size ≤ p)
    apart (inl null) = absurd (given null.0)
    apart (inr h) = ground (arith, Hands-apart c k h u)

-- A product that overflows the word gives null, and nothing changes.
pub kcalloc-overflow :
    (num size : ℕ) (m : Memory) → 2 ^ 32 ≤ num * size → kcalloc num size m ≡ some (0, m)
unfolding kcalloc
kcalloc-overflow num size m h = elim (Bool-cases (num == 0 || size == 0)) [
  | inl zero ↦ rw zero refl
  | inr positive ↦
      rw
        (
          positive,
          lt→ltb ((2 ^ 32 - 1) / size) num (
              (div-lt_iff_lt-mul {k = size} {x = 2 ^ 32 - 1} {y = num} (ground arith)).1
                (omega arith)),
        )
        refl
]

-- For a product above 0 and at most 2 ^ 32 - 16, `kcalloc` gives what `kmalloc` gives for the product,
-- null included, when it does not fault; the bytes of the range are cleared, and the block list and
-- all other bytes are as `kmalloc` leaves them.
pub kcalloc-kmalloc :
    (num size p : ℕ) (m m' : Memory)
    → num * size ≤ 2 ^ 32 - 16
    → num * size ≢ 0
    → kcalloc num size m ≡ some (p, m')
    → (m1 : Memory) × (kmalloc (num * size) m ≡ some (p, m1))
      × (m'.heap ≡ m1.heap)
      × (p ≢ 0 → (a : ℕ) → p ≤ a → a < p + num * size → m'.bytes a ≡ 0)
      × ((a : ℕ) → (a < p) ⊎ (p + num * size ≤ a) → m'.bytes a ≡ m1.bytes a)
unfolding kcalloc
kcalloc-kmalloc num size p m m' fits some_bytes e =
    elim (Option-cases (kmalloc (u32 (num * size)) m)) [
      | inl fault ↦
          let never : ◌≡◌ {A = Option (ℕ × Memory)} none (some (p, m')) =
            rw (positive, no_overflow, fault) at e in
          cc
      | inr ((q, m1), got) ↦ elim (Bool-cases (q == 0)) [
        | inl null ↦
            let done : ◌≡◌ {A = Option (ℕ × Memory)} (some (0, m1)) (some (p, m')) =
              rw (positive, no_overflow, got, null) at e in
            let at_p : 0 ≡ p = cc in
            let same : m1 ≡ m' = cc in
            rw (← at_p, ← same)
              (
                m1,
                subst (λ q. kmalloc (num * size) m ≡ some (q, m1)) (omega (tests, null))
                    (rw total at got),
                refl,
                (λ given. absurd (given refl)),
                λ a h. refl,
              )
        | inr given ↦
            let done : ◌≡◌ {A = Option (ℕ × Memory)} (some (q, record m1 { bytes = cleared q m1 }))
                (some (p, m')) =
              rw (positive, no_overflow, got, given, short) at e in
            let at_p : q ≡ p = cc in
            let same : record m1 { bytes = cleared q m1 } ≡ m' = cc in
            rw (← at_p, ← same)
              (
                m1,
                rw total at got,
                refl,
                (λ _ a h h'. ground (arith, total)),
                λ a h. ground (arith, total),
              )
      ]
    ]
  where
    cleared : ℕ → Memory → ℕ → ℕ
    cleared q m1 a = if leb q a && ltb a (q + u32 (num * size)) then 0 else m1.bytes a

    total : u32 (num * size) ≡ num * size
    total = omega arith

    short : ltb (2 ^ 32 - 16) (u32 (num * size)) ≡ false
    short = ge→ltb (2 ^ 32 - 16) (u32 (num * size)) (omega (arith, total))

    positive : (num == 0 || size == 0) ≡ false
    positive = grind arith

    no_overflow : ltb ((2 ^ 32 - 1) / size) num ≡ false
    no_overflow =
        ge→ltb ((2 ^ 32 - 1) / size) num
          (grind (arith, (div-lt_iff_lt-mul {k = size} {x = 2 ^ 32 - 1} {y = num} (grind arith)).0))

-- A request within 15 bytes of 2 ^ 32 is rounded up to 0: `kmalloc` grants it from the first free
-- block of the heap, however small.
pub kmalloc_wraps :
    (size a : ℕ) (m : Memory)
    → 2 ^ 32 ≤ size + 15
    → size < 2 ^ 32
    → m.pmm_backend_enabled ≡ true
    → find_free_block 0 m.heap ≡ some a
    → kmalloc size m ≡ some (use_block a 0 m)
unfolding kmalloc
kmalloc_wraps size a m high word on found =
    let wraps : align_up_size size 16 ≡ 0 = align_up_size_wraps size word high in
    let found' : find_free_block (align_up_size size 16) m.heap ≡ some a = rw wraps found in
    rw (found', ne→== size 0 (omega arith), ap not on) (ap (λ n. some (use_block a n m)) wraps)
