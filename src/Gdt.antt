-- ===== src/Gdt.antt =====
-- gdt.c: the three segment descriptors. Loading them is assembly; the table is what it loads.
pub mod Fields
mod Tests
use frewozet.Base.{ℕ, ◌-◌, ◌*◌, ◌/◌, ◌%◌, ◌^◌, bit_and, bit_or, update, u8, u16, shr}

-- `struct gdt_entry`
pub record Entry : Type 0 where
  pub limit_low : ℕ
  pub base_low : ℕ
  pub base_middle : ℕ
  pub access : ℕ
  pub granularity : ℕ
  pub base_high : ℕ

pub record Gdt : Type 0 where
  pub gdt : ℕ → Entry
  pub gp_limit : ℕ
  pub gp_base : ℕ

unfoldable pub gdt_set_gate : (num base limit access granularity : ℕ) → Gdt → Gdt
gdt_set_gate num base limit access granularity g = record g {
  gdt = update g.gdt num (record {
    base_low = u16 (bit_and base 0xFFFF);
    base_middle = u8 (bit_and (shr base 16) 0xFF);
    base_high = u8 (bit_and (shr base 24) 0xFF);
    limit_low = u16 (bit_and limit 0xFFFF);
    granularity = bit_or (u8 (bit_and (shr limit 16) 0x0F)) (bit_and granularity 0xF0);
    access = access;
  });
}

-- `address` is where the linker puts the table.
unfoldable pub gdt_init : (address : ℕ) → Gdt → Gdt
gdt_init address g = gdt_set_gate 2 0 0xFFFFFFFF 0x92 0xCF (
    gdt_set_gate 1 0 0xFFFFFFFF 0x9A 0xCF
      (gdt_set_gate 0 0 0 0 0 (record g { gp_limit = 3 * 8 - 1; gp_base = address })))
