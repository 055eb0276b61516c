-- ===== src/Gdt/Fields.antt =====
-- What the fields of a segment descriptor hold.
use frewozet.Base.{
  ℕ, ◌+◌, ◌*◌, ◌/◌, ◌%◌, ◌^◌, ◌<◌, ◌≡◌, bit_and, bit_or, arith, ==_refl, ne→==, refl, sym, u8, shr,
}
use frewozet.Base.Bits.{bit_and_low, bit_and_high, bit_or_low_first}
use frewozet.Gdt.{Entry, Gdt, gdt_set_gate}

-- The base, the limit and the flags that the processor reads from a descriptor.
abbrev pub base_of : Entry → ℕ
base_of e = e.base_low + 2 ^ 16 * e.base_middle + 2 ^ 24 * e.base_high

abbrev pub limit_of : Entry → ℕ
limit_of e = e.limit_low + 2 ^ 16 * (e.granularity % 2 ^ 4)

abbrev pub flags_of : Entry → ℕ
flags_of e = e.granularity / 2 ^ 4

-- The byte of the granularity field: the flags above the four high digits of the limit.
flags_field :
    (limit granularity : ℕ)
    → granularity < 2 ^ 8
    → bit_or (u8 (bit_and (shr limit 16) 0x0F)) (bit_and granularity 0xF0)
      ≡ granularity / 2 ^ 4 * 2 ^ 4 + limit / 2 ^ 16 % 2 ^ 4
flags_field limit granularity byte =
    simp (bit_and_low 4 (limit / 2 ^ 16), bit_and_high 4 4 granularity (omega arith))
      (ground (
        arith,
        bit_or_low_first 4 (granularity / 2 ^ 4) (limit / 2 ^ 16 % 2 ^ 4 % 2 ^ 8) (omega arith),
      ))

-- The processor reads back from a descriptor the base, the low 20 bits of the limit, the access byte
-- and the flags that `gdt_set_gate` was given, and no other descriptor changes.
pub gdt_set_gate-reads :
    (num base limit access granularity : ℕ) (g : Gdt)
    → base < 2 ^ 32
    → limit < 2 ^ 32
    → granularity < 2 ^ 8
    → let g' = gdt_set_gate num base limit access granularity g in
      (base_of (g'.gdt num) ≡ base)
      × (limit_of (g'.gdt num) ≡ limit % 2 ^ 20)
      × ((g'.gdt num).access ≡ access)
      × (flags_of (g'.gdt num) ≡ granularity / 2 ^ 4)
      × ((i : ℕ) → ¬ (i ≡ num) → g'.gdt i ≡ g.gdt i)
unfolding gdt_set_gate
gdt_set_gate-reads num base limit access granularity g small word byte = rw (==_refl num) (
  omega (arith, bit_and_low 16 base, bit_and_low 8 (base / 2 ^ 16), bit_and_low 8 (base / 2 ^ 24)),
  omega (arith, bit_and_low 16 limit, flags_field limit granularity byte),
  refl,
  omega (arith, flags_field limit granularity byte),
  λ i other. rw (ne→== num i (λ e. other (sym e))) refl,
)
