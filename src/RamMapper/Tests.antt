-- ===== src/RamMapper/Tests.antt =====
-- A map with 5 GiB usable in two entries.
use frewozet.Base.{◌%◌, ◌^◌, ◌≡◌, refl, ◌==◌, if◌then◌else◌}
use frewozet.RamMapper.{Info, e820_sig, available, sum_usable, get_total_usable_memory}
use frewozet.RamMapper.Total.{usable_bytes, get_total_usable_memory_lem}

abbrev large : Info
large = record {
  signature = e820_sig;
  count = 3;
  entries = λ i.
      if i == 0
      then record { base = 0; length = 0x80000000; type = 1 }
      else if i == 1
      then record { base = 0x80000000; length = 0x80000000; type = 2 }
      else record { base = 0x100000000; length = 0xC0000000; type = 1 };
}

large-total : get_total_usable_memory large ≡ 0x40000000
unfolding get_total_usable_memory available sum_usable
large-total = refl

get_total_usable_memory_lem_example :
    get_total_usable_memory large ≡ usable_bytes large 3 0 % 2 ^ 32
get_total_usable_memory_lem_example = get_total_usable_memory_lem large refl
