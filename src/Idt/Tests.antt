-- ===== src/Idt/Tests.antt =====
-- The gate of the keyboard.
use frewozet.Base.{ℕ, ◌+◌, ◌*◌, ◌%◌, ◌≡◌, arith}
use frewozet.Idt.{Idt, idt_init}
use frewozet.Idt.Gates.{offset_of, idt_init-gates}

abbrev empty : Idt
empty = record {
  idt = λ i. record { offset_low = 0; selector = 0; zero = 0; type_attr = 0; offset_high = 0 };
  idtp_limit = 0;
  idtp_base = 0;
}

-- The stubs of 16 bytes each.
abbrev stub : ℕ → ℕ
stub i = 0xC0120000 + 16 * (i % 256)

idt_init-gates_example :
    let e = (idt_init stub 0xC0111000 empty).idt 33 in
    (offset_of e ≡ 0xC0120210) × (e.selector ≡ 0x08) × (e.type_attr ≡ 0x8E)
idt_init-gates_example = idt_init-gates stub 0xC0111000 33 empty (λ n. omega arith) (omega arith)
