-- ===== src/Gdt/Tests.antt =====
-- The descriptor of the code segment.
use frewozet.Base.{ℕ, ◌≡◌, ◌%◌, ◌/◌, ◌^◌, arith}
use frewozet.Gdt.{Gdt, gdt_set_gate}
use frewozet.Gdt.Fields.{base_of, limit_of, flags_of, gdt_set_gate-reads}

abbrev empty : Gdt
empty = record {
  gdt = λ i. record {
    limit_low = 0;
    base_low = 0;
    base_middle = 0;
    access = 0;
    granularity = 0;
    base_high = 0;
  };
  gp_limit = 0;
  gp_base = 0;
}

gdt_set_gate-reads_example :
    let g = gdt_set_gate 1 0xC0DE1234 0xFFFFFFFF 0x9A 0xCF empty in
    (base_of (g.gdt 1) ≡ 0xC0DE1234)
    × (limit_of (g.gdt 1) ≡ 0xFFFFFFFF % 2 ^ 20)
    × ((g.gdt 1).access ≡ 0x9A)
    × (flags_of (g.gdt 1) ≡ 0xCF / 2 ^ 4)
    × ((i : ℕ) → ¬ (i ≡ 1) → g.gdt i ≡ empty.gdt i)
gdt_set_gate-reads_example =
    gdt_set_gate-reads 1 0xC0DE1234 0xFFFFFFFF 0x9A 0xCF empty (omega arith) (omega arith)
      (omega arith)
