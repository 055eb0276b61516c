-- ===== src/Paging/Map.antt =====
-- `paging_map_page` changes the abstract page map at its page only.
use frewozet.Base.{
  ℕ, ◌+◌, ◌*◌, ◌/◌, ◌%◌, ◌^◌, ◌≤◌, ◌<◌, bit_and, bit_or, ◌≡◌, refl, arith, ◌==◌, ◌⊎◌, Bool, true,
  false, if◌then◌else◌, Option, some, none, inl, inr, ne→==,
}
use frewozet.Pmm.Alloc.{FirstFit}
use frewozet.Paging.{
  Paging, phys_to_virt, table_index, store, get_page_table, map_page, translate, invalidate_page,
  ◌>>=◌,
}
use frewozet.Paging.Entry.{pde, pte_of, entry, entry_lem, frame_bits}
use frewozet.Paging.Tables.{IsValid, pte_of-cell_written, cell_written-IsValid, IsValid_ignores}
use frewozet.Paging.Lookup.{translate-resolve, store-cell, table_not_null}
use frewozet.Paging.Create.{TableFor, get_page_table-TableFor}

-- What `paging_map_page` does: it faults, since it needs a new table and the lowest free page is
-- beyond the direct map; or it needs one and no page is free, and nothing changes; or the page of
-- the address gets the entry, and every other page keeps its own.
abbrev pub Maps : Paging → (va phys flags : ℕ) → Option (Bool × Paging) → Type 0
Maps s va phys flags none =
    (k : ℕ) × (1024 ≤ k) × FirstFit s.pmm 1 (some k) × (pde s.mem (va / 2 ^ 22) % 2 ≡ 0)
Maps s va phys flags (some (done, s')) =
    ((done ≡ false) × (s' ≡ s) × FirstFit s.pmm 1 none × (pde s.mem (va / 2 ^ 22) % 2 ≡ 0))
    ⊎ ((done ≡ true)
        × IsValid s'
        × ((va' : ℕ)
            → va' < 2 ^ 32
            → pte_of s'.mem va'
              ≡ (if va' / 4096 == va / 4096 then entry (phys / 4096) flags else pte_of s.mem va')))

module _ (s : Paging) (va b phys flags : ℕ) (small : va < 2 ^ 32) (fits : phys < 2 ^ 32)
    (page : b / 4096 ≡ va / 4096) (dir : b / 2 ^ 22 ≡ va / 2 ^ 22) where
  -- The rest of `paging_map_page`, when the table of the aligned address `b` is at hand.
  write_entry-Maps :
      (r : Option (ℕ × Paging))
      → TableFor s b r
      → Maps s va phys flags (do
        (page_table, s) ← r
        if page_table == 0 then some (false, s) else (do
          s ← store (page_table + 4 * table_index b) (entry (phys / 4096) flags) s
          some (true, invalidate_page b s)))
  write_entry-Maps none (k, far, fit, absent) = (k, far, fit, rw dir at absent)
  write_entry-Maps (some (t, s')) (inl (e, same, full, absent)) =
      rw e (inl (refl, same, full, rw dir at absent))
  write_entry-Maps (some (t, s')) (inr (e, here, v, unchanged)) =
      rw
        (
          e,
          ne→== (phys_to_virt (pde s'.mem (b / 2 ^ 22) / 4096 * 4096)) 0
              (table_not_null va b small page dir v here'),
          store-cell va b small page dir v here' x,
        )
        (inr (
          refl,
          IsValid_ignores _ (cell_written-IsValid v va small here' x (omega arith)),
          λ va' h. ground (arith, pte_of-cell_written v va small here' x va' h, unchanged va' h),
        ))
    where
      x : ℕ
      x = entry (phys / 4096) flags

      here' : pde s'.mem (va / 2 ^ 22) % 2 ≡ 1
      here' = rw dir at here

-- `paging_map_page` keeps the invariant and changes the abstract page map at its page only.
pub map_page-Maps :
    {s : Paging} (va phys flags : ℕ)
    → IsValid s
    → va < 2 ^ 32
    → phys < 2 ^ 32
    → Maps s va phys flags (map_page va phys flags s)
unfolding map_page
map_page-Maps {s} va phys flags v small small' =
    rw (frame_bits va small, frame_bits phys small', entry_lem (phys / 4096) flags)
      (write_entry-Maps s va (va / 4096 * 4096) phys flags small small' (omega arith) (omega arith)
        (get_page_table (va / 4096 * 4096) true table_flags s)
        (get_page_table-TableFor (va / 4096 * 4096) v (omega arith) table_flags))
  where
    table_flags : ℕ
    table_flags = if bit_and flags 4 == 0 then 2 else bit_or 2 4

-- After a successful `paging_map_page`, `paging_translate` gives the mapped page's address with the
-- same offset for every address of that page, and for any other address what it gave before.
pub translate-map_page :
    {s s' : Paging} (va phys flags va' : ℕ)
    → IsValid s
    → va < 2 ^ 32
    → phys < 2 ^ 32
    → va' < 2 ^ 32
    → map_page va phys flags s ≡ some (true, s')
    → translate va' s' ≡ (
        if va' / 4096 == va / 4096 then some (phys / 4096 * 4096 + va' % 4096) else translate va' s)
translate-map_page {s} {s'} va phys flags va' v small fits small' mapped =
    done (map_page va phys flags s) mapped (map_page-Maps va phys flags v small fits)
  where
    done :
        (r : Option (Bool × Paging))
        → r ≡ some (true, s')
        → Maps s va phys flags r
        → translate va' s' ≡ (
            if va' / 4096 == va / 4096
            then some (phys / 4096 * 4096 + va' % 4096)
            else translate va' s)
    done none e m = cc
    done (some (b, t)) e (inl h) = ground (arith, h.0)
    done (some (b, t)) e (inr (ok, v', pages)) =
        let same : t ≡ s' = ground arith in
        rw (← same, translate-resolve va' v' small', translate-resolve va' v small')
          (ground (arith, pages va' small'))
