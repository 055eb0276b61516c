-- ===== src/Paging/Unmap.antt =====
-- `paging_unmap_page` removes its page from the abstract page map.
use native.Mathlib.Decide.{ℕ_discrete}
use frewozet.Base.{
  ℕ, ◌*◌, ◌/◌, ◌%◌, ◌^◌, ◌<◌, ◌≡◌, refl, arith, ◌==◌, false, if◌then◌else◌, some, update, ◌∷◌,
  ne→==,
}
use frewozet.Paging.{
  Paging, phys_to_virt, unmap_page, translate, remove_identity_map, store, direct,
}
use frewozet.Paging.Entry.{pde, cell, frame_bits}
use frewozet.Paging.Tables.{IsValid, pte_of-cell_written, cell_written-IsValid, IsValid_ignores}
use frewozet.Paging.Lookup.{
  translate-resolve, get_page_table_present, get_page_table_absent, store-cell, table_not_null,
}

-- `paging_unmap_page` never faults; it keeps the invariant, and afterwards `paging_translate` gives
-- 0 for every address of the page and for any other address what it gave before.
pub translate-unmap_page :
    {s : Paging} (va : ℕ)
    → IsValid s
    → va < 2 ^ 32
    → (s' : Paging) × (unmap_page va s ≡ some s')
      × IsValid s'
      × ((va' : ℕ)
          → va' < 2 ^ 32
          → translate va' s' ≡ (if va' / 4096 == va / 4096 then some 0 else translate va' s))
unfolding unmap_page
translate-unmap_page {s} va v small =
    rw (frame_bits va small) (elim (ℕ_discrete (pde s.mem (va / 2 ^ 22) % 2) 1) [
      | yes here ↦ (
        record s {
          mem = update s.mem (cell s.mem va) 0;
          invalidated = va / 4096 * 4096 ∷ s.invalidated;
        },
        rw
            (
              get_page_table_present b v b_small false 0 (rw dir here),
              ne→== (phys_to_virt (pde s.mem (b / 2 ^ 22) / 4096 * 4096)) 0
                  (table_not_null va b small page dir v here),
              store-cell va b small page dir v here 0,
            )
            refl,
        IsValid_ignores _ (cell_written-IsValid v va small here 0 (omega arith)),
        λ va' h.
            rw
              (
                translate-resolve va'
                    (IsValid_ignores (b ∷ s.invalidated)
                      (cell_written-IsValid v va small here 0 (omega arith)))
                    h,
                translate-resolve va' v h,
              )
              (ground (arith, pte_of-cell_written v va small here 0 va' h)),
      )
      | no absent ↦ (
        s,
        rw (get_page_table_absent b v b_small false 0 (rw dir (omega arith))) refl,
        v,
        λ va' h. rw (translate-resolve va' v h) (ground arith),
      )
    ])
  where
    b : ℕ
    b = va / 4096 * 4096

    page : va / 4096 * 4096 / 4096 ≡ va / 4096
    page = omega arith

    dir : va / 4096 * 4096 / 2 ^ 22 ≡ va / 2 ^ 22
    dir = omega arith

    b_small : va / 4096 * 4096 < 2 ^ 32
    b_small = omega arith

-- `paging_remove_identity_map` cannot fault: the directory is in the direct map.
pub remove_identity_map-total :
    (s : Paging) → (s' : Paging) × (remove_identity_map s ≡ some s') × (s'.pmm ≡ s.pmm)
unfolding remove_identity_map store direct
remove_identity_map-total s = (_, refl, refl)
