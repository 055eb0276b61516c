-- ===== src/Heap/Split.antt =====
-- `kmalloc`'s use of the block list: find a free block, split it, mark it used.
use frewozet.Base.{
  ℕ, ◌+◌, ◌%◌, ◌^◌, ◌≤◌, ◌<◌, ◌≡◌, refl, subst, ◌∙◌, true, false, ◌&&◌, none, some, List, [], ◌∷◌,
  ◌++◌, arith, leb, u32, ne→==, eq→==, ==_refl, Bool-cases, inl, inr,
}
use frewozet.Heap.{
  Block, header_size, align_up_size, find_free_block, split, split_block, take_block,
}
use frewozet.Heap.Tiles.{Tiles, Tiles-le, block_at, block_at-Tiles, align_up_size_lem}

-- A block that is used, as `heap_block_t` at its address.
abbrev pub Used : List Block → (addr size : ℕ) → Type 0
Used heap addr size = block_at addr heap ≡ some (record { addr = addr; size = size; free = false })

-- What `heap_find_free_block` finds is a free block of the heap that is large enough.
pub find_free_block-block_at :
    (heap : List Block) (lo hi n a : ℕ)
    → Tiles lo heap hi
    → find_free_block n heap ≡ some a
    → (b : Block) × (block_at a heap ≡ some b) × (b.free ≡ true) × (n ≤ b.size)
unfolding find_free_block
find_free_block-block_at [] lo hi n a t e = cc
find_free_block-block_at (x ∷ heap) lo hi n a t e = elim (Bool-cases (x.free && leb n x.size)) [
  | inl fits ↦ (x, ground arith, ground arith, ground arith)
  | inr skip ↦
      let rest =
        find_free_block-block_at heap (lo + header_size + x.size) hi n a t.1 (rw skip at e) in
      let inside = block_at-Tiles heap (lo + header_size + x.size) hi a {b = rest.0} t.1 rest.1 in
      (rest.0, ground (arith, inside), rest.2, rest.3)
]

-- When `heap_find_free_block` finds nothing, no block of the heap is free and large enough.
pub find_free_block-none :
    (heap : List Block) (n a : ℕ) {b : Block}
    → find_free_block n heap ≡ none
    → block_at a heap ≡ some b
    → b.free ≡ true
    → b.size < n
unfolding find_free_block
find_free_block-none [] n a e e' f = cc
find_free_block-none (x ∷ heap) n a {b} e e' f =
    ground (arith, find_free_block-none heap n a {b = b})

-- The list after the block at `a` has been split and marked used.
pub record Takes (n a lo hi : ℕ) (heap heap' : List Block) : Type 0 where
  pub tiles : Tiles lo heap' hi
  pub size : ℕ
  pub used : Used heap' a size
  pub enough : n ≤ size
  pub kept : (c m : ℕ) → Used heap c m → Used heap' c m

take-split :
    (n lo hi : ℕ) (b : Block) (heap : List Block)
    → n % 16 ≡ 0
    → hi + 28 < 2 ^ 32
    → b.free ≡ true
    → n ≤ b.size
    → Tiles lo (b ∷ heap) hi
    → Takes n b.addr lo hi (b ∷ heap) (take_block b.addr (split b n ++ heap))
unfolding split take_block
take-split n lo hi b heap round small free fits t =
    rw aligned (elim (Bool-cases (leb b.size (u32 (n + header_size + 16)))) [
      | inl whole ↦
          rw (whole, eq→== b.addr b.addr refl)
            (record {
              tiles = t;
              size = b.size;
              used = ground arith;
              enough = fits;
              kept = λ c m u. ground arith;
            })
      | inr parted ↦
          rw (parted, eq→== b.addr b.addr refl)
            (record {
              tiles = (
                t.0,
                (
                  omega arith,
                  subst (λ m. Tiles m heap hi) (omega (arith, inside, no_wrap parted)) t.1,
                ),
              );
              size = n;
              used = ground arith;
              enough = omega arith;
              kept = λ c m u. ground (
                arith,
                block_at-Tiles heap (lo + header_size + b.size) hi c
                    {b = record { addr = c; size = m; free = false }} t.1,
                no_wrap parted,
              );
            })
    ])
  where
    inside : b.addr + header_size + b.size ≤ hi
    inside = omega (arith, Tiles-le heap (lo + header_size + b.size) hi t.1)

    no_wrap : leb b.size (u32 (n + header_size + 16)) ≡ false → n + 28 < b.size
    no_wrap h = ground (arith, inside)

    aligned : align_up_size n 16 ≡ n
    aligned = align_up_size_lem n (omega (arith, inside)) ∙ omega arith

Takes-cons :
    {n a lo hi : ℕ} (b : Block) {heap heap' : List Block}
    → b.addr ≡ lo
    → lo + header_size + b.size ≤ a
    → Takes n a (lo + header_size + b.size) hi heap heap'
    → Takes n a lo hi (b ∷ heap) (b ∷ heap')
Takes-cons b here below w = record {
  tiles = (here, w.tiles);
  size = w.size;
  used = ground (arith, w.used);
  enough = w.enough;
  kept = λ c m u. ground (arith, w.kept c m);
}

-- `kmalloc` on its block list: the block that `heap_find_free_block` found is split and used. The
-- blocks still tile the heap, the block at that address is used and holds the `n` bytes, and every
-- block that was used is as it was.
pub take_found-Takes :
    (heap : List Block) (n a lo hi : ℕ)
    → n % 16 ≡ 0
    → hi + 28 < 2 ^ 32
    → Tiles lo heap hi
    → find_free_block n heap ≡ some a
    → Takes n a lo hi heap (take_block a (split_block a n heap))
unfolding find_free_block split_block take_block
take_found-Takes [] n a lo hi round small t e = cc
take_found-Takes (b ∷ heap) n a lo hi round small t e = elim (Bool-cases (b.free && leb n b.size)) [
  | inl fits ↦
      let same : b.addr ≡ a = ground arith in
      rw (← same, ==_refl b.addr)
        (take-split n lo hi b heap round small (ground arith) (ground arith) t)
  | inr skip ↦
      let e' : find_free_block n heap ≡ some a = rw skip at e in
      rw
        (ne→== b.addr a (omega (arith, t.0, past e')), ne→== b.addr a (omega (arith, t.0, past e')))
        (Takes-cons b t.0 (past e')
          (take_found-Takes heap n a (lo + header_size + b.size) hi round small t.1 e'))
]
  where
    past : find_free_block n heap ≡ some a → lo + header_size + b.size ≤ a
    past e' =
        let found = find_free_block-block_at heap (lo + header_size + b.size) hi n a t.1 e' in
        (block_at-Tiles heap (lo + header_size + b.size) hi a {b = found.0} t.1 found.1).0
