-- ===== src/Paging/Entry.antt =====
-- Directory and table entries of paging.c as arithmetic, and the abstract view of the tables.
use frewozet.Base.{
  ℕ, ◌+◌, ◌*◌, ◌/◌, ◌%◌, ◌^◌, ◌≤◌, ◌<◌, bit_and, bit_or, ◌≡◌, ap, ◌∙◌, arith, ◌==◌, if◌then◌else◌,
  some, none, update,
}
use frewozet.Base.Bits.{bit_and_low, bit_and_high, bit_or_fields, bit_or-one}
use frewozet.Paging.{
  Paging, direct, direct_limit, phys_to_virt, page_present, load, store, zero_page, zero_words,
}

-- `entry & 0xFFFFF000` is the page that an entry names.
pub frame_bits : (e : ℕ) → e < 2 ^ 32 → bit_and e 0xFFFFF000 ≡ e / 4096 * 4096
frame_bits e h = bit_and_high 12 20 e (omega arith)

pub frame_bits_page : (k : ℕ) → k < 2 ^ 20 → bit_and (k * 4096) 0xFFFFF000 ≡ k * 4096
frame_bits_page k h = frame_bits (k * 4096) (omega arith) ∙ omega arith

-- `addr & 0xFFF`
pub offset_bits : (a : ℕ) → bit_and a 0xFFF ≡ a % 4096
offset_bits a = bit_and_low 12 a

-- `(virt_addr >> 12) & 0x3FF`
pub index_bits : (a : ℕ) → bit_and a 0x3FF ≡ a % 1024
index_bits a = bit_and_low 10 a

pub flag_bits : (a f : ℕ) → f < 4096 → bit_or (a * 4096) f ≡ a * 4096 + f
flag_bits a f h = bit_or_fields 12 a f h

-- What `phys | (flags & 0xFFF) | PAGE_PRESENT` is for the page `k`.
abbrev pub entry : ℕ → ℕ → ℕ
entry k flags = (k * 4096 + flags % 4096) / 2 * 2 + 1

pub entry_lem :
    (k flags : ℕ) → bit_or (bit_or (k * 4096) (bit_and flags 0xFFF)) page_present ≡ entry k flags
entry_lem k flags =
    bit_or-one (bit_or (k * 4096) (bit_and flags 0xFFF))
    ∙ ap (λ w. w / 2 * 2 + 1)
        (ap (λ f. bit_or (k * 4096) f) (offset_bits flags)
          ∙ flag_bits k (flags % 4096) (omega arith))

-- Pointers into the direct map.
pub direct-phys_to_virt :
    (a off : ℕ) → a + off < direct_limit → direct (phys_to_virt a + off) ≡ some (a + off)
unfolding direct
direct-phys_to_virt a off h = ground arith

module _ (a off : ℕ) (s : Paging) (h : a + off < direct_limit) where
  pub load_lem : load (phys_to_virt a + off) s ≡ some (s.mem (a + off))
  unfolding load
  load_lem = rw (direct-phys_to_virt a off h, load)

  pub store_lem :
      (x : ℕ)
      → store (phys_to_virt a + off) x s ≡ some (record s { mem = update s.mem (a + off) x })
  unfolding store
  store_lem x = rw (direct-phys_to_virt a off h, store)

pub zero_page_lem :
    (a : ℕ) (s : Paging)
    → a < direct_limit
    → zero_page (phys_to_virt a) s ≡ some (record s { mem = zero_words s.mem a })
unfolding zero_page
zero_page_lem a s h = rw (at_start, zero_page)
  where
    at_start : direct (phys_to_virt a) ≡ some a
    at_start = unfold direct in ground arith

pub zero_page_far :
    (k : ℕ) (s : Paging) → 1024 ≤ k → k < 2 ^ 20 → zero_page (phys_to_virt (k * 4096)) s ≡ none
unfolding zero_page
zero_page_far k s h h' = rw (outside, zero_page)
  where
    outside : direct (phys_to_virt (k * 4096)) ≡ none
    outside = unfold direct in ground arith

-- The directory entry of an address, the cell of its table entry, and that entry: 0 where there is
-- no table.
abbrev pub pde : (ℕ → ℕ) → ℕ → ℕ
pde mem i = mem (0x9000 + 4 * i)

abbrev pub cell : (ℕ → ℕ) → ℕ → ℕ
cell mem va = pde mem (va / 2 ^ 22) / 4096 * 4096 + 4 * (va / 4096 % 1024)

abbrev pub pte_of : (ℕ → ℕ) → ℕ → ℕ
pte_of mem va = if pde mem (va / 2 ^ 22) % 2 == 0 then 0 else mem (cell mem va)

-- The abstract page map: the physical address of a mapped address, 0 otherwise.
abbrev pub resolve : ℕ → ℕ → ℕ
resolve pte va = if pte % 2 == 0 then 0 else pte / 4096 * 4096 + va % 4096
