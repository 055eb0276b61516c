-- ===== src/PmmInit/Tests.antt =====
-- A map with one usable region of 128 MiB.
use frewozet.Base.{◌+◌, ◌≡◌, arith, inl, inr}
use frewozet.Pmm.{Pmm}
use frewozet.Pmm.Bitmap.{used}
use frewozet.RamMapper.{Info, e820_sig}
use frewozet.PmmInit.{fill_bitmap, free_regions}
use frewozet.PmmInit.Top.{free_regions_at_top}
use frewozet.PmmInit.Reserved.{fill_bitmap_reserved}

abbrev map : Info
map = record {
  signature = e820_sig;
  count = 1;
  entries = λ i. record { base = 0; length = 0x8000000; type = 1 };
}

abbrev counted : Pmm
counted = record {
  bitmap = 0;
  words = λ i. 0;
  total_pages = 32768;
  total_usable_pages = 32768;
  total_usable_bytes = 0x8000000;
}

fill_bitmap_reserved_example : used (fill_bitmap map 0xC0123456 0xC0124000 1024 counted) 290 ≡ 1
fill_bitmap_reserved_example =
    fill_bitmap_reserved map 0xC0123456 0xC0124000 1024 290 counted (omega arith) (omega arith)
      (omega arith) (inr (inl (omega arith)))

-- The upper two of four GiB.
abbrev high : Info
high = record {
  signature = e820_sig;
  count = 1;
  entries = λ i. record { base = 0x80000000; length = 0x80000000; type = 1 };
}

free_regions_at_top_example : free_regions high 1 0 counted ≡ free_regions high 0 (0 + 1) counted
free_regions_at_top_example = free_regions_at_top high 0 0 counted (omega arith)
