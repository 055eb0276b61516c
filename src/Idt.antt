-- ===== src/Idt.antt =====
-- idt.c: the interrupt descriptor table. Loading it is assembly; interrupt_handler is in Kernel.
pub mod Gates
mod Tests
use frewozet.Base.{ℕ, ◌+◌, ◌-◌, ◌*◌, ◌/◌, ◌%◌, ◌^◌, bit_and, update, for_range, u8, u16, u32, shr}

-- `struct idt_entry`
pub record Entry : Type 0 where
  pub offset_low : ℕ
  pub selector : ℕ
  pub zero : ℕ
  pub type_attr : ℕ
  pub offset_high : ℕ

pub record Idt : Type 0 where
  pub idt : ℕ → Entry
  pub idtp_limit : ℕ
  pub idtp_base : ℕ

unfoldable pub idt_set_gate : (num handler selector type_attr : ℕ) → Idt → Idt
idt_set_gate num handler selector type_attr g = record g {
  idt = update g.idt num (record {
    offset_low = u16 (bit_and handler 0xFFFF);
    selector = selector;
    zero = 0;
    type_attr = type_attr;
    offset_high = u16 (bit_and (shr handler 16) 0xFFFF);
  });
}

-- `stub i` is the address of isr<i> for i below 32 and of irq<i - 32> for the sixteen above, which
-- isr_irq.asm has; `address` is where the linker puts the table. The calls of `idt_set_gate` for the
-- 48 stubs are written out in the source, in this order.
unfoldable pub idt_init : (stub : ℕ → ℕ) (address : ℕ) → Idt → Idt
idt_init stub address g =
    let g = for_range 256 0 (λ i g. idt_set_gate (u8 i) 0 0 0 g) g in
    let g = for_range 32 0 (λ i g. idt_set_gate i (stub i) 0x08 0x8E g) g in
    let g = for_range 16 32 (λ i g. idt_set_gate i (stub i) 0x08 0x8E g) g in
    record g { idtp_limit = u16 (256 * 8 - 1); idtp_base = address }
