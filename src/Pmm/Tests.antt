-- ===== src/Pmm/Tests.antt =====
-- pmm.c on a machine of eight pages, of which 0, 1 and 3 are used: its runs, and the theorems there.
use frewozet.Base.{◌+◌, ◌≡◌, refl, arith, ◌/◌}
use frewozet.Base.Bits.{bit}
use frewozet.Pmm.{
  Pmm, program, mark_range_used, mark_range_free, alloc_contiguous, alloc_page_below,
  free_contiguous, get_free_pages, get_used_pages,
}
use frewozet.Pmm.Bitmap.{used, Writes}
use frewozet.Pmm.Ranges.{between, mark_range_free-Writes}
use frewozet.Pmm.Alloc.{Allocates, alloc_contiguous-Allocates}
use frewozet.Pmm.Free.{IsValid, free_contiguous-IsValid, free-alloc}

abbrev machine : Pmm
machine = record {
  bitmap = 0xC0010000;
  words = λ i. 0b1011;
  total_pages = 8;
  total_usable_pages = 6;
  total_usable_bytes = 24576;
}

-- the first two free pages in a row are 4 and 5
alloc_two : (alloc_contiguous 2 machine).0 ≡ 0x4000
unfolding program bit
alloc_two = refl

alloc_six : (alloc_contiguous 6 machine).0 ≡ 0
unfolding program bit
alloc_six = refl

alloc_below : (alloc_page_below 0x2FFF machine).0 ≡ 0
unfolding program bit
alloc_below = refl

counts : (get_free_pages machine ≡ 5) × (get_used_pages machine ≡ 1)
unfolding program bit
counts = (refl, refl)

marked : get_free_pages (mark_range_used 0x2001 0x4001 machine) ≡ 3
unfolding program bit
marked = refl

machine-IsValid : IsValid machine
unfolding bit
machine-IsValid = record { allocated = omega arith; tracked = omega arith; zero_used = refl }

mark_range_free-Writes_example :
    Writes 0
      (between 8 ((0x0800 + 4095) / 4096) (0x4800 / 4096))
      machine
      (mark_range_free 0x0800 0x4800 machine)
mark_range_free-Writes_example =
    mark_range_free-Writes 0x0800 0x4800 machine (omega arith) (omega arith)

alloc_contiguous-Allocates_example : Allocates 2 machine (alloc_contiguous 2 machine)
alloc_contiguous-Allocates_example =
    alloc_contiguous-Allocates 2 machine (omega arith) (omega arith) (omega arith)

free_contiguous-IsValid_example : IsValid (free_contiguous 0x3000 2 machine)
free_contiguous-IsValid_example = free_contiguous-IsValid 0x3000 2 machine-IsValid

free-alloc_example :
    let (a, q) = alloc_contiguous 2 machine in used (free_contiguous a 2 q) 4 ≡ used machine 4
free-alloc_example = free-alloc 2 machine-IsValid (omega arith) 4
