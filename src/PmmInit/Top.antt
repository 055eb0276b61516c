-- ===== src/PmmInit/Top.antt =====
-- A usable region that reaches the end of the 32-bit addresses.
use frewozet.Base.{
  ℕ, suc, ◌+◌, ◌≤◌, ◌^◌, ◌≡◌, ◌||◌, not, ltb, leb, ◌==◌, if◌then◌else◌, ap, ◌∙◌, refl, arith,
  Bool-cases, inl, inr, u32, u64,
}
use frewozet.Pmm
use frewozet.Pmm.{Pmm}
use frewozet.Pmm.Ranges.{mark_range_free_to_zero}
use frewozet.RamMapper.{Info}
use frewozet.PmmInit.{free_regions}

-- Where the loop of `pmm_init` that frees the usable regions comes to a region that ends, as a
-- 64-bit sum, at 4 GiB or above, it frees none of its pages, as if the region were not in the map.
pub free_regions_at_top :
    (info : Info) (rounds i : ℕ) (p : Pmm)
    → 2 ^ 32 ≤ u64 ((info.entries i).base + (info.entries i).length)
    → free_regions info (suc rounds) i p ≡ free_regions info rounds (i + 1) p
unfolding free_regions
free_regions_at_top info rounds i p top = ap (free_regions info rounds (i + 1)) passed
  where
    sum : ℕ
    sum = u64 ((info.entries i).base + (info.entries i).length)

    cut : u32 (if ltb 0x100000000 sum then 0x100000000 else sum) ≡ 0
    cut = ground (arith, top)

    nothing :
        Pmm.mark_range_free
          (u32 (info.entries i).base)
          (u32 (if ltb 0x100000000 sum then 0x100000000 else sum))
          p
        ≡ p
    nothing =
        ap (λ e. Pmm.mark_range_free (u32 (info.entries i).base) e p) cut
        ∙ mark_range_free_to_zero (u32 (info.entries i).base) p (omega arith)

    passed :
        (if not ((info.entries i).type == 1) || leb 0x100000000 (info.entries i).base
          then p
          else Pmm.mark_range_free
              (u32 (info.entries i).base)
              (u32 (if ltb 0x100000000 sum then 0x100000000 else sum))
              p)
        ≡ p
    passed =
        elim (Bool-cases
          (not ((info.entries i).type == 1) || leb 0x100000000 (info.entries i).base)) [
            | inl skipped ↦ rw skipped refl
            | inr freed ↦ rw freed nothing
          ]
