-- ===== src/Paging/Lookup.antt =====
-- Reading the tables: `paging_translate` computes the abstract page map.
use frewozet.Base.{
  ℕ, ◌+◌, ◌*◌, ◌/◌, ◌%◌, ◌^◌, ◌<◌, bit_and, bit_or, ◌≡◌, ◌≢◌, arith, ◌==◌, Bool, if◌then◌else◌,
  some, update, inl, inr, Bool-cases,
}
use frewozet.Base.Bits.{bit_and-one}
use frewozet.Paging.{
  Paging, phys_to_virt, get_page_directory, dir_index, table_index, page_present, load, store,
  new_page_table, get_page_table, translate,
}
use frewozet.Paging.Entry.{
  pde, cell, pte_of, resolve, frame_bits, offset_bits, index_bits, flag_bits, load_lem, store_lem,
}
use frewozet.Paging.Tables.{IsValid}

-- The directory entry of an address is always reached.
pub load-pde :
    (va : ℕ) (s : Paging)
    → va < 2 ^ 32
    → load (get_page_directory + 4 * dir_index va) s ≡ some (pde s.mem (va / 2 ^ 22))
load-pde va s h = load_lem 0x9000 (4 * dir_index va) s (omega arith)

pub load-pte :
    (va k : ℕ) (s : Paging)
    → k < 1024
    → load (phys_to_virt (k * 4096) + 4 * (va / 4096 % 1024)) s
      ≡ some (s.mem (k * 4096 + 4 * (va / 4096 % 1024)))
load-pte va k s h = load_lem (k * 4096) (4 * (va / 4096 % 1024)) s (omega arith)

decode :
    (pte va : ℕ)
    → pte < 2 ^ 32
    → (if bit_and pte page_present == 0
        then 0
        else bit_or (bit_and pte 0xFFFFF000) (bit_and va 0xFFF))
      ≡ resolve pte va
decode pte va h = rw (
  bit_and-one pte,
  frame_bits pte h,
  offset_bits va,
  flag_bits (pte / 4096) (va % 4096) (omega arith),
)

-- `paging_translate` computes the abstract page map: the page of the entry and the offset of the
-- address, or 0 where the directory or the table has no present entry. It never faults.
pub translate-resolve :
    {s : Paging} (va : ℕ)
    → IsValid s
    → va < 2 ^ 32
    → translate va s ≡ some (resolve (pte_of s.mem va) va)
unfolding translate
translate-resolve {s} va v small =
    rw
      (
        load-pde va s small,
        bit_and-one,
        frame_bits (pde s.mem (va / 2 ^ 22)) (v.words _),
        index_bits (va / 2 ^ 12),
      )
      (elim (Bool-cases (pde s.mem (va / 2 ^ 22) % 2 == 0)) [
        | inl absent ↦ rw absent
        | inr present ↦ rw (
          present,
          load-pte va (pde s.mem (va / 2 ^ 22) / 4096) s (ground (arith, v.reached (va / 2 ^ 22))),
          decode (s.mem (cell s.mem va)) va (v.words _),
        )
      ])

module _ {s : Paging} (va : ℕ) (v : IsValid s) (small : va < 2 ^ 32) where
  pub get_page_table_present :
      (create : Bool) (flags : ℕ)
      → pde s.mem (va / 2 ^ 22) % 2 ≡ 1
      → get_page_table va create flags s
        ≡ some (phys_to_virt (pde s.mem (va / 2 ^ 22) / 4096 * 4096), s)
  unfolding get_page_table
  get_page_table_present create flags here =
      rw (load-pde va s small, bit_and-one, here, frame_bits (pde s.mem (va / 2 ^ 22)) (v.words _))

  pub get_page_table_absent :
      (create : Bool) (flags : ℕ)
      → pde s.mem (va / 2 ^ 22) % 2 ≡ 0
      → get_page_table va create flags s ≡ (
          if create
          then new_page_table (get_page_directory + 4 * dir_index va) flags s
          else some (0, s))
  unfolding get_page_table
  get_page_table_absent create flags absent = rw (load-pde va s small, bit_and-one, absent)

-- The cell of the table's pointer that is written: `b` is `va`, aligned to its page.
module _ (va b : ℕ) (small : va < 2 ^ 32) (page : b / 4096 ≡ va / 4096)
    (dir : b / 2 ^ 22 ≡ va / 2 ^ 22) {s : Paging} (v : IsValid s)
    (here : pde s.mem (va / 2 ^ 22) % 2 ≡ 1) where
  pub store-cell :
      (x : ℕ)
      → store (phys_to_virt (pde s.mem (b / 2 ^ 22) / 4096 * 4096) + 4 * table_index b) x s
        ≡ some (record s { mem = update s.mem (cell s.mem va) x })
  store-cell x =
      rw (index_bits (b / 2 ^ 12), dir, page)
        (store_lem (pde s.mem (va / 2 ^ 22) / 4096 * 4096) (4 * (va / 4096 % 1024)) s
          (omega (arith, v.reached (va / 2 ^ 22) (omega arith) here)) x)

  pub table_not_null : phys_to_virt (pde s.mem (b / 2 ^ 22) / 4096 * 4096) ≢ 0
  table_not_null = rw dir (omega (arith, v.reached (va / 2 ^ 22) (omega arith) here))
