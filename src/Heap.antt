-- ===== src/Heap.antt =====
-- The block list of memory.c. `heap_head` and the `next` pointers are a list, in link order; a
-- block keeps the address of its header, and a pointer to a block is that address.
pub mod Tiles
pub mod Split
mod Tests
use frewozet.Base.{
  ℕ, ◌+◌, ◌-◌, ◌%◌, ◌^◌, bit_and, Bool, true, false, ◌&&◌, ◌||◌, Option, none, some, List, [], ◌∷◌,
  ◌++◌, ltb, leb, ◌==◌, if◌then◌else◌, u32, sub32, not32,
}

pub record Block : Type 0 where
  pub addr : ℕ
  pub size : ℕ
  pub free : Bool

-- `sizeof(heap_block_t)` on the i386
abbrev pub header_size : ℕ
header_size = 12

abbrev pub default_alignment : ℕ
default_alignment = 16

abbrev pub min_split : ℕ
min_split = 16

unfoldable pub align_up_size : ℕ → ℕ → ℕ
align_up_size value alignment =
    let mask = sub32 alignment 1 in bit_and (u32 (value + mask)) (not32 mask)

unfoldable pub add_region : (region region_size : ℕ) → List Block → List Block
add_region region region_size heap =
    if region == 0 || leb region_size header_size
    then heap
    else heap ++ record { addr = region; size = region_size - header_size; free = true } ∷ []

-- The first free block that is large enough: null is `none`.
unfoldable pub find_free_block : ℕ → List Block → Option ℕ
find_free_block size [] = none
find_free_block size (b ∷ heap) =
    if b.free && leb size b.size then some b.addr else find_free_block size heap

-- A block that is split: its first part and the new block, which is linked behind it.
unfoldable pub split : Block → ℕ → List Block
split b size =
    let aligned_size = align_up_size size default_alignment in
    if leb b.size (u32 (aligned_size + header_size + min_split))
    then b ∷ []
    else record b { size = aligned_size }
      ∷ record {
        addr = b.addr + header_size + aligned_size;
        size = sub32 (sub32 b.size aligned_size) header_size;
        free = true;
      }
      ∷ []

-- `heap_split_block` at the block whose header is at `block`
unfoldable pub split_block : (block size : ℕ) → List Block → List Block
split_block block size [] = []
split_block block size (b ∷ heap) =
    if b.addr == block then split b size ++ heap else b ∷ split_block block size heap

-- `block->free = 0`
unfoldable pub take_block : ℕ → List Block → List Block
take_block block [] = []
take_block block (b ∷ heap) =
    if b.addr == block then record b { free = false } ∷ heap else b ∷ take_block block heap

-- The sums of `memory_get_heap_used_bytes` and `memory_get_heap_free_bytes`.
unfoldable pub used_bytes : List Block → ℕ → ℕ
used_bytes [] total = total
used_bytes (b ∷ heap) total = used_bytes heap (if b.free then total else u32 (total + b.size))

unfoldable pub free_bytes : List Block → ℕ → ℕ
free_bytes [] total = total
free_bytes (b ∷ heap) total = free_bytes heap (if b.free then u32 (total + b.size) else total)

-- What a test unfolds to run this file.
unfoldable pub program : Unit {0}
unfolding align_up_size add_region find_free_block split split_block take_block used_bytes
    free_bytes
program = tt
