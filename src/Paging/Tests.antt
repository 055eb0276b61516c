-- ===== src/Paging/Tests.antt =====
-- The page tables as loader2.asm and `paging_remove_identity_map` leave them: the first 4 MiB are
-- mapped at KERNEL_VIRT_BASE, and the first sixteen pages are used.
use frewozet.Base.{
  ℕ, ◌+◌, ◌-◌, ◌*◌, ◌/◌, ◌%◌, ◌^◌, ◌<◌, ◌≡◌, refl, arith, ltb, leb, ◌==◌, ◌&&◌, if◌then◌else◌, some,
  none, [], ◌∷◌, true,
}
use frewozet.Base.Bits.{bit}
use frewozet.Pmm
use frewozet.Pmm.{Pmm}
use frewozet.Paging.{Paging, program, map_page, unmap_page, translate}
use frewozet.Paging.Entry.{pde}
use frewozet.Paging.Tables.{IsValid}
use frewozet.Paging.Map.{Maps, map_page-Maps, translate-map_page}
use frewozet.Paging.Unmap.{translate-unmap_page}

abbrev pages : Pmm
pages = record {
  bitmap = 0xC0010000;
  words = λ i. if i == 0 then 0xFFFF else 0;
  total_pages = 1024;
  total_usable_pages = 1008;
  total_usable_bytes = 1008 * 4096;
}

abbrev booted : Paging
booted = record {
  mem = λ a.
      if a == 0x9000 + 4 * 768
      then 0xA003
      else if leb 0xA000 a && ltb a 0xB000
      then (a - 0xA000) / 4 * 4096 + 3
      else 0;
  invalidated = [];
  cr3_reloads = 1;
  pmm = pages;
}

pages-IsValid : Pmm.Free.IsValid pages
unfolding bit
pages-IsValid = record { allocated = omega arith; tracked = omega arith; zero_used = refl }

slot_of : (i : ℕ) → i < 1024 → pde booted.mem i % 2 ≡ 1 → (i ≡ 768)
slot_of i h p = ground arith

booted-IsValid : IsValid booted
booted-IsValid = record {
  pages = pages-IsValid;
  words = λ a. ground arith;
  directory = unfold bit in refl;
  reached = λ i h p. ground (arith, slot_of i h p);
  taken = λ i h p. rw (slot_of i h p) (unfold bit in refl);
  apart = λ i h p. ground (arith, slot_of i h p);
  distinct = λ i j h h' p p' ne. ground (arith, slot_of i h p, slot_of j h' p');
}

-- 0xD0000123 needs a new table: page 16 becomes it.
abbrev after : Paging
after = elim (map_page 0xD0000123 0x12345678 2 booted) [ none ↦ booted | some (done, s) ↦ s ]

after-mapped : map_page 0xD0000123 0x12345678 2 booted ≡ some (true, after)
unfolding program
after-mapped = refl

translated : translate 0xD0000ABC after ≡ some 0x12345ABC
unfolding program
translated = refl

flushed : after.invalidated ≡ 0xD0000000 ∷ (0xC0009000 + 4 * 0x340) ∷ []
unfolding program
flushed = refl

translate-map_page_example : translate 0xD0000ABC after ≡ (
    if 0xD0000ABC / 4096 == 0xD0000123 / 4096
    then some (0x12345678 / 4096 * 4096 + 0xD0000ABC % 4096)
    else translate 0xD0000ABC booted)
translate-map_page_example =
    translate-map_page 0xD0000123 0x12345678 2 0xD0000ABC booted-IsValid (omega arith) (omega arith)
      (omega arith) after-mapped

translate-unmap_page_example :
    (s' : Paging) × (unmap_page 0xC00B8123 booted ≡ some s')
    × IsValid s'
    × ((va' : ℕ)
        → va' < 2 ^ 32
        → translate va' s'
          ≡ (if va' / 4096 == 0xC00B8123 / 4096 then some 0 else translate va' booted))
translate-unmap_page_example = translate-unmap_page 0xC00B8123 booted-IsValid (omega arith)

map_page-Maps_example :
    Maps booted 0xD0000123 0x12345678 2 (map_page 0xD0000123 0x12345678 2 booted)
map_page-Maps_example =
    map_page-Maps 0xD0000123 0x12345678 2 booted-IsValid (omega arith) (omega arith)
