-- ===== src/RamMapper/Total.antt =====
-- The total of the usable memory of ram_mapper.c.
use frewozet.Base.{ℕ, zero, suc, ◌+◌, ◌%◌, ◌^◌, ◌<◌, ◌≡◌, arith, ◌==◌, if◌then◌else◌, u32, eq→==}
use frewozet.RamMapper.{Info, e820_sig, available, sum_usable, get_total_usable_memory}

-- The bytes of the usable ones among the `n` entries from `i` on.
abbrev pub usable_bytes : Info → (n i : ℕ) → ℕ
usable_bytes info zero i = 0
usable_bytes info (suc n) i =
    (if (info.entries i).type == 1 then (info.entries i).length else 0)
    + usable_bytes info n (i + 1)

sum_usable_lem :
    (info : Info) (n i total : ℕ)
    → total < 2 ^ 32
    → sum_usable info n i total ≡ (total + usable_bytes info n i) % 2 ^ 32
unfolding sum_usable
sum_usable_lem info zero i total h = omega arith
sum_usable_lem info (suc n) i total h = ground (
  arith,
  sum_usable_lem info n (i + 1) total h,
  sum_usable_lem info n (i + 1) (u32 (total + (info.entries i).length)) (omega arith),
)

-- The total that is reported is the bytes of the usable entries modulo 2 ^ 32: a machine with 4 GiB
-- or more is reported with that much less.
pub get_total_usable_memory_lem :
    (info : Info)
    → info.signature ≡ e820_sig
    → get_total_usable_memory info ≡ usable_bytes info info.count 0 % 2 ^ 32
unfolding get_total_usable_memory available
get_total_usable_memory_lem info h =
    rw (eq→== info.signature e820_sig h)
      (omega (arith, sum_usable_lem info info.count 0 0 (omega arith)))
