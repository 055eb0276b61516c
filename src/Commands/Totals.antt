-- ===== src/Commands/Totals.antt =====
-- What `meminfo` and `runtime` show.
use frewozet.Base.{
  ℕ, zero, suc, ◌+◌, ◌*◌, ◌/◌, ◌<◌, ◌≡◌, refl, true, arith, ◌==◌, if◌then◌else◌, u32, u64,
  for_range,
}
use frewozet.RamMapper.{Entry, Info, available, sum_usable, get_total_usable_memory}
use frewozet.Timer.{Timer}
use frewozet.Commands.Status.{Totals, no_totals, add_entry, add_entries, total_ram, runtime}

-- The lengths of `n` entries from `i` on.
abbrev pub sum_lengths : Info → (n i total : ℕ) → ℕ
sum_lengths info zero i total = total
sum_lengths info (suc n) i total = sum_lengths info n (i + 1) (total + (info.entries i).length)

total_ram-add_entry :
    (e : Entry) (totals : Totals)
    → total_ram (add_entry e totals) ≡ u64 (total_ram totals + e.length)
unfolding total_ram add_entry
total_ram-add_entry e totals = ground arith

total_ram-add_entries :
    (info : Info) (n i x : ℕ) (totals : Totals)
    → total_ram totals ≡ u64 x
    → total_ram (add_entries info n i totals) ≡ u64 (sum_lengths info n i x)
unfolding add_entries for_range
total_ram-add_entries info zero i x totals h = h
total_ram-add_entries info (suc n) i x totals h =
    total_ram-add_entries info n (i + 1) (x + (info.entries i).length)
      (add_entry (info.entries i) totals)
      (omega (arith, total_ram-add_entry (info.entries i) totals, h))

usable-add_entry :
    (e : Entry) (x : ℕ) (totals : Totals)
    → x ≡ u32 totals.usable
    → (if e.type == 1 then u32 (x + e.length) else x) ≡ u32 (add_entry e totals).usable
unfolding add_entry
usable-add_entry e x totals h = ground (arith, h)

usable-add_entries :
    (info : Info) (n i x : ℕ) (totals : Totals)
    → x ≡ u32 totals.usable
    → sum_usable info n i x ≡ u32 (add_entries info n i totals).usable
unfolding add_entries for_range sum_usable
usable-add_entries info zero i x totals h = h
usable-add_entries info (suc n) i x totals h =
    usable-add_entries info n (i + 1)
      (if (info.entries i).type == 1 then u32 (x + (info.entries i).length) else x)
      (add_entry (info.entries i) totals) (usable-add_entry (info.entries i) x totals h)

-- `meminfo` shows as the total of the RAM the sum of the lengths of all entries, whatever their
-- types, modulo 2 ^ 64, and as usable a total that agrees modulo 2 ^ 32 with the one of ram_mapper.c.
pub add_entries-totals :
    (info : Info)
    → available info ≡ true
    → let totals = add_entries info info.count 0 no_totals in
      (total_ram totals ≡ u64 (sum_lengths info info.count 0 0))
      × (get_total_usable_memory info ≡ u32 totals.usable)
unfolding get_total_usable_memory total_ram
add_entries-totals info there = (
  total_ram-add_entries info info.count 0 0 no_totals refl,
  rw there (usable-add_entries info info.count 0 0 no_totals refl),
)

-- The hours, minutes and seconds of `runtime` make up the whole seconds that the timer ran, with
-- fewer than sixty minutes and fewer than sixty seconds.
pub runtime_lem :
    (timer : Timer)
    → let r = runtime timer in
      ((r.0) * 3600 + (r.1) * 60 + (r.2) ≡ timer.ticks / timer.frequency)
      × ((r.1) < 60)
      × ((r.2) < 60)
unfolding runtime
runtime_lem timer = (omega arith, omega arith, omega arith)
