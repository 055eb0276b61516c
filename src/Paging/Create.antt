-- ===== src/Paging/Create.antt =====
-- `paging_get_page_table` when it may create a table.
use native.Mathlib.Decide.{dec_lt, ℕ_discrete}
use frewozet.Base.{
  ℕ, ◌+◌, ◌*◌, ◌/◌, ◌%◌, ◌^◌, ◌≤◌, ◌<◌, bit_and, bit_or, ◌≡◌, refl, ap, arith, ◌==◌, ◌⊎◌, true,
  if◌then◌else◌, Option, some, none, update, inl, inr, ne→==,
}
use frewozet.Pmm.{Pmm, alloc_page, max_pages}
use frewozet.Pmm.Bitmap.{used, Writes}
use frewozet.Pmm.Alloc.{in_run, FirstFit, Allocates, alloc_page-Allocates}
use frewozet.Pmm
use frewozet.Paging.{
  Paging, zero_words, phys_to_virt, get_page_directory, dir_index, page_present, store,
  new_page_table, get_page_table, invalidate_page, zero_page, ◌>>=◌,
}
use frewozet.Paging.Entry.{
  pde, pte_of, entry, entry_lem, store_lem, zero_page_lem, zero_page_far, frame_bits_page,
}
use frewozet.Paging.Tables.{IsValid, pte_of-table_added, table_added-IsValid, IsValid_ignores}
use frewozet.Paging.Lookup.{get_page_table_present, get_page_table_absent}

-- What `paging_get_page_table` does when it may create: it faults, since the lowest free page is
-- beyond the direct map; or no page is free and it returns null; or it returns the table of the
-- address, and the abstract page map is what it was.
abbrev pub TableFor : Paging → ℕ → Option (ℕ × Paging) → Type 0
TableFor s va none =
    (k : ℕ) × (1024 ≤ k) × FirstFit s.pmm 1 (some k) × (pde s.mem (va / 2 ^ 22) % 2 ≡ 0)
TableFor s va (some (t, s')) =
    ((t ≡ 0) × (s' ≡ s) × FirstFit s.pmm 1 none × (pde s.mem (va / 2 ^ 22) % 2 ≡ 0))
    ⊎ ((t ≡ phys_to_virt (pde s'.mem (va / 2 ^ 22) / 4096 * 4096))
        × (pde s'.mem (va / 2 ^ 22) % 2 ≡ 1)
        × IsValid s'
        × ((va' : ℕ) → va' < 2 ^ 32 → pte_of s'.mem va' ≡ pte_of s.mem va'))

module _ {s : Paging} (va flags : ℕ) (v : IsValid s) (small : va < 2 ^ 32)
    (absent : pde s.mem (va / 2 ^ 22) % 2 ≡ 0) where
  new_table_near :
      (k : ℕ) (pmm' : Pmm)
      → k < 1024
      → FirstFit s.pmm 1 (some k)
      → Writes 1 (in_run k 1) s.pmm pmm'
      → Pmm.Free.IsValid pmm'
      → TableFor s va (do
        s ← zero_page (phys_to_virt (k * 4096)) (record s { pmm = pmm' })
        s ←
            store
              (get_page_directory + 4 * dir_index va)
              (bit_or (bit_or (bit_and (k * 4096) 0xFFFFF000) (bit_and flags 0xFFF)) page_present)
              s
        some (phys_to_virt (k * 4096), invalidate_page (get_page_directory + 4 * dir_index va) s))
  new_table_near k pmm' near fit w pages =
      rw
        (
          zero_page_lem (k * 4096) (record s { pmm = pmm' }) (omega arith),
          frame_bits_page k (omega arith),
          entry_lem k flags,
          store_lem 0x9000 (4 * dir_index va)
              (record s { mem = zero_words s.mem (k * 4096); pmm = pmm' }) (omega arith)
              (entry k flags),
        )
        (inr (
          ap phys_to_virt (ground (arith, slot)),
          ground (arith, slot),
          IsValid_ignores _ (table_added-IsValid v i k flags in_dir near absent free w pages),
          pte_of-table_added v i k flags in_dir near absent free,
        ))
    where
      i : ℕ
      i = va / 2 ^ 22

      in_dir : va / 2 ^ 22 < 1024
      in_dir = omega arith

      free : used s.pmm k ≡ 0
      free = fit.1 k (omega arith) (omega arith)

      slot :
          update
            (zero_words s.mem (k * 4096))
            (0x9000 + 4 * (va / 2 ^ 22))
            (entry k flags)
            (0x9000 + 4 * (va / 2 ^ 22))
          ≡ entry k flags
      slot = ground arith

  new_page_table-TableFor :
      TableFor s va (new_page_table (get_page_directory + 4 * dir_index va) flags s)
  unfolding new_page_table
  new_page_table-TableFor = outcome (alloc_page s.pmm) did
    where
      did : Allocates 1 s.pmm (alloc_page s.pmm)
      did = alloc_page-Allocates s.pmm v.pages.allocated v.pages.tracked

      outcome :
          (r : ℕ × Pmm)
          → Allocates 1 s.pmm r
          → TableFor s va (
              if r.0 == 0 then some (0, record s { pmm = r.1 }) else (do
                t ← zero_page (phys_to_virt r.0) (record s { pmm = r.1 })
                t ←
                    store
                      (get_page_directory + 4 * dir_index va)
                      (bit_or (bit_or (bit_and r.0 0xFFFFF000) (bit_and flags 0xFFF)) page_present)
                      t
                some (phys_to_virt r.0, invalidate_page (get_page_directory + 4 * dir_index va) t)))
      outcome (a, q) (inl (e, same, none_free)) = rw (e, same) (inl (refl, refl, none_free, absent))
      outcome (a, q) (inr (k, e, fit, w)) =
          rw
            (
              e,
              ne→== (k * 4096) 0
                  (omega (arith, Pmm.Free.run_start-ne_zero v.pages (omega arith) fit)),
            )
            (elim (dec_lt k 1024) [
              | yes near ↦
                  new_table_near k q near fit w
                    (Pmm.Free.Allocates-IsValid 1 (a, q) v.pages (inr (k, e, fit, w)))
              | no far ↦
                  rw
                    (zero_page_far k (record s { pmm = q }) (omega arith)
                      (omega (arith, fit.0, v.pages.tracked)))
                    (k, omega arith, fit, absent)
            ])

module _ {s : Paging} (va : ℕ) (v : IsValid s) (small : va < 2 ^ 32) where
  pub get_page_table-TableFor : (flags : ℕ) → TableFor s va (get_page_table va true flags s)
  get_page_table-TableFor flags = elim (ℕ_discrete (pde s.mem (va / 2 ^ 22) % 2) 1) [
    | yes here ↦
        rw (get_page_table_present va v small true flags here) (inr (refl, here, v, λ va' h. refl))
    | no absent ↦
        rw (get_page_table_absent va v small true flags (omega arith))
          (new_page_table-TableFor va flags v small (omega arith))
  ]
