-- ===== src/Heap/Tiles.antt =====
-- The blocks of the heap lie end to end: no gap, no overlap.
use frewozet.Base.{
  ℕ, not, ◌+◌, ◌-◌, ◌*◌, ◌/◌, ◌^◌, ◌≤◌, ◌<◌, ◌≡◌, refl, ap, ◌∙◌, Bool, bit_and, Option, none, some,
  List, [], ◌∷◌, ◌++◌, length, arith, ◌==◌, if◌then◌else◌, ne→==, gt→leb, ◌≢◌,
}
use frewozet.Base.Bits.{bit_and_high}
use frewozet.Heap.{Block, header_size, align_up_size, add_region, used_bytes, free_bytes}

-- From `lo` on the blocks follow one another up to `hi`, each a header and its bytes.
abbrev pub Tiles : ℕ → List Block → ℕ → Type 0
Tiles lo [] hi = lo ≡ hi
Tiles lo (b ∷ heap) hi = (b.addr ≡ lo) × Tiles (lo + header_size + b.size) heap hi

-- The block with its header at `a`.
abbrev pub block_at : ℕ → List Block → Option Block
block_at a [] = none
block_at a (b ∷ heap) = if b.addr == a then some b else block_at a heap

pub Tiles-le : (heap : List Block) (lo hi : ℕ) → Tiles lo heap hi → lo ≤ hi
Tiles-le [] lo hi t = omega arith
Tiles-le (b ∷ heap) lo hi t = omega (arith, Tiles-le heap (lo + header_size + b.size) hi t.1)

pub Tiles-append :
    (xs ys : List Block) (lo mid hi : ℕ)
    → Tiles lo xs mid
    → Tiles mid ys hi
    → Tiles lo (xs ++ ys) hi
Tiles-append [] ys lo mid hi t u = rw t u
Tiles-append (x ∷ xs) ys lo mid hi t u =
    (t.0, Tiles-append xs ys (lo + header_size + x.size) mid hi t.1 u)

-- `heap_add_region` extends the heap by a region that begins where it ends.
pub add_region-Tiles :
    (heap : List Block) (lo r n : ℕ)
    → Tiles lo heap r
    → r ≢ 0
    → header_size < n
    → Tiles lo (add_region r n heap) (r + n)
unfolding add_region
add_region-Tiles heap lo r n t hr hn =
    rw (ne→== r 0 hr, gt→leb n header_size hn)
      (Tiles-append heap _ lo r (r + n) t (refl, omega arith))

-- Where a block lies.
pub block_at-Tiles :
    (heap : List Block) (lo hi a : ℕ) {b : Block}
    → Tiles lo heap hi
    → block_at a heap ≡ some b
    → (lo ≤ a) × (b.addr ≡ a) × (a + header_size + b.size ≤ hi)
block_at-Tiles [] lo hi a t e = cc
block_at-Tiles (x ∷ heap) lo hi a {b} t e = ground (
  arith,
  Tiles-le heap (lo + header_size + x.size) hi,
  block_at-Tiles heap (lo + header_size + x.size) hi a {b = b} t.1,
)

-- Two blocks of the heap do not overlap, headers included.
pub block_at-apart :
    (heap : List Block) (lo hi a c : ℕ) {x y : Block}
    → Tiles lo heap hi
    → block_at a heap ≡ some x
    → block_at c heap ≡ some y
    → a < c
    → a + header_size + x.size ≤ c
block_at-apart [] lo hi a c t e e' h = cc
block_at-apart (z ∷ heap) lo hi a c {x} {y} t e e' h = ground (
  arith,
  block_at-Tiles heap (lo + header_size + z.size) hi a {b = x} t.1,
  block_at-Tiles heap (lo + header_size + z.size) hi c {b = y} t.1,
  block_at-apart heap (lo + header_size + z.size) hi a c {x = x} {y = y} t.1,
)

-- What the two sums are without wrap-around.
abbrev pub total_of : (Bool → Bool) → List Block → ℕ
total_of pick [] = 0
total_of pick (b ∷ heap) = (if pick b.free then b.size else 0) + total_of pick heap

used_bytes-total_of :
    (heap : List Block) (acc : ℕ)
    → acc + total_of not heap < 2 ^ 32
    → used_bytes heap acc ≡ acc + total_of not heap
unfolding used_bytes
used_bytes-total_of [] acc h = omega arith
used_bytes-total_of (b ∷ heap) acc h =
    ground (arith, used_bytes-total_of heap acc, used_bytes-total_of heap (acc + b.size))

free_bytes-total_of :
    (heap : List Block) (acc : ℕ)
    → acc + total_of (λ f. f) heap < 2 ^ 32
    → free_bytes heap acc ≡ acc + total_of (λ f. f) heap
unfolding free_bytes
free_bytes-total_of [] acc h = omega arith
free_bytes-total_of (b ∷ heap) acc h =
    ground (arith, free_bytes-total_of heap acc, free_bytes-total_of heap (acc + b.size))

Tiles-totals :
    (heap : List Block) (lo hi : ℕ)
    → Tiles lo heap hi
    → lo + total_of not heap + total_of (λ f. f) heap + header_size * length heap ≡ hi
Tiles-totals [] lo hi t = omega arith
Tiles-totals (b ∷ heap) lo hi t =
    ground (arith, Tiles-totals heap (lo + header_size + b.size) hi t.1)

-- The used bytes, the free bytes and the headers make up the whole heap.
pub heap_bytes_account :
    (heap : List Block) (lo hi : ℕ)
    → Tiles lo heap hi
    → hi < 2 ^ 32
    → used_bytes heap 0 + free_bytes heap 0 + header_size * length heap ≡ hi - lo
heap_bytes_account heap lo hi t small = omega (
  arith,
  Tiles-totals heap lo hi t,
  used_bytes-total_of heap 0 (omega (arith, Tiles-totals heap lo hi t)),
  free_bytes-total_of heap 0 (omega (arith, Tiles-totals heap lo hi t)),
)

-- `(value + 15) & ~15`, below the last sixteen values of the word
pub align_up_size_lem : (n : ℕ) → n + 15 < 2 ^ 32 → align_up_size n 16 ≡ (n + 15) / 16 * 16
unfolding align_up_size
align_up_size_lem n h =
    ap (λ w. bit_and w 0xFFFFFFF0) (omega arith) ∙ bit_and_high 4 28 (n + 15) (omega arith)

-- A request within 15 bytes of the end of the word wraps round to 0.
pub align_up_size_wraps : (n : ℕ) → n < 2 ^ 32 → 2 ^ 32 ≤ n + 15 → align_up_size n 16 ≡ 0
unfolding align_up_size
align_up_size_wraps n h h' =
    ap (λ w. bit_and w 0xFFFFFFF0) {y = n + 15 - 2 ^ 32} (omega arith)
    ∙ bit_and_high 4 28 (n + 15 - 2 ^ 32) (omega arith)
    ∙ omega arith
