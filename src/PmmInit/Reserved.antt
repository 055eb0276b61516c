-- ===== src/PmmInit/Reserved.antt =====
-- The pages that `pmm_init` keeps from being handed out.
use frewozet.Base.{
  ℕ, zero, suc, ◌+◌, ◌*◌, ◌/◌, ◌^◌, ◌≤◌, ◌<◌, ◌≡◌, refl, ◌∙◌, arith, ◌⊎◌, Bool, true, false, ◌||◌,
  not, ltb, leb, ◌==◌, if◌then◌else◌, u32, u64, for_range, update,
}
use frewozet.Pmm.{Pmm, mark_range_used, mark_range_free}
use frewozet.Pmm.Bitmap.{used, Writes}
use frewozet.Pmm.Ranges.{between, mark_range_used-Writes, mark_range_free-total_pages}
use frewozet.Paging.{virt_to_phys}
use frewozet.RamMapper.{Info}
use frewozet.PmmInit.{free_regions, fill_bitmap}

free_regions-total_pages :
    (info : Info) (n i : ℕ) (p : Pmm) → (free_regions info n i p).total_pages ≡ p.total_pages
unfolding free_regions
free_regions-total_pages info zero i p = refl
free_regions-total_pages info (suc n) i p =
    free_regions-total_pages info n (i + 1) (
      if not ((info.entries i).type == 1) || leb 0x100000000 (info.entries i).base
      then p
      else freed)
    ∙ skips (not ((info.entries i).type == 1) || leb 0x100000000 (info.entries i).base)
  where
    sum : ℕ
    sum = u64 ((info.entries i).base + (info.entries i).length)

    freed : Pmm
    freed =
        mark_range_free (u32 (info.entries i).base)
          (u32 (if ltb 0x100000000 sum then 0x100000000 else sum)) p

    skips : (b : Bool) → (if b then p else freed).total_pages ≡ p.total_pages
    skips true = refl
    skips false =
        mark_range_free-total_pages (u32 (info.entries i).base)
          (u32 (if ltb 0x100000000 sum then 0x100000000 else sum)) p

-- When `pmm_init` has filled its bitmap, no tracked page below 1 MiB, of the kernel's image, or of
-- the bitmap itself is free, whatever the map says, if the kernel and the bitmap end 4095 bytes
-- before 4 GiB.
pub fill_bitmap_reserved :
    (info : Info) (kernel_end bitmap bitmap_words page : ℕ) (p : Pmm)
    → virt_to_phys kernel_end + 4095 < 2 ^ 32
    → virt_to_phys bitmap + bitmap_words * 4 + 4095 < 2 ^ 32
    → page < p.total_pages
    → (page * 4096 < 0x100000)
      ⊎ ((page * 4096 < virt_to_phys kernel_end)
          ⊎ ((virt_to_phys bitmap ≤ page * 4096 + 4095)
              × (page * 4096 < virt_to_phys bitmap + bitmap_words * 4)))
    → used (fill_bitmap info kernel_end bitmap bitmap_words p) page ≡ 1
unfolding fill_bitmap
fill_bitmap_reserved info kernel_end bitmap bitmap_words page p hk hb tracked reserved = ground (
  arith,
  low.digits page,
  kernel.digits page,
  own.digits page,
  low.total_pages,
  kernel.total_pages,
  free_regions-total_pages info info.count 0 p0,
  bytes,
)
  where
    bytes :
        u32 (virt_to_phys bitmap + u32 (bitmap_words * 4)) ≡ virt_to_phys bitmap + bitmap_words * 4
    bytes = omega arith

    p0 : Pmm
    p0 = record p {
      bitmap = bitmap;
      words = for_range bitmap_words 0 (λ i words. update words i 0xFFFFFFFF) p.words;
    }

    p1 : Pmm
    p1 = free_regions info info.count 0 p0

    p2 : Pmm
    p2 = mark_range_used 0 0x00100000 p1

    p3 : Pmm
    p3 = mark_range_used 0 (virt_to_phys kernel_end) p2

    low : Writes 1 (between p1.total_pages (0 / 4096) ((0x00100000 + 4095) / 4096)) p1 p2
    low = mark_range_used-Writes 0 0x00100000 p1 (omega arith) (omega arith)

    kernel :
        Writes 1 (between p2.total_pages (0 / 4096) ((virt_to_phys kernel_end + 4095) / 4096)) p2 p3
    kernel = mark_range_used-Writes 0 (virt_to_phys kernel_end) p2 (omega arith) hk

    end : ℕ
    end = u32 (virt_to_phys bitmap + u32 (bitmap_words * 4))

    own :
        Writes 1
          (between p3.total_pages (virt_to_phys bitmap / 4096) ((end + 4095) / 4096))
          p3
          (mark_range_used (virt_to_phys bitmap) end p3)
    own = mark_range_used-Writes (virt_to_phys bitmap) end p3 (omega arith) (omega (arith, bytes))
