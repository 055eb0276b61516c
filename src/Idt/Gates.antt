-- ===== src/Idt/Gates.antt =====
-- What the gates of the table hold.
use frewozet.Base.{
  ℕ, zero, suc, ◌+◌, ◌*◌, ◌/◌, ◌^◌, ◌<◌, ◌≡◌, refl, arith, ◌&&◌, leb, ltb, ◌==◌, if◌then◌else◌,
  for_range, bit_and, u8, u16, ◌≢◌, ==→eq, ==→ne, gt→leb, le→leb, lt→ltb, Bool-cases, inl, inr, ap,
  ◌∙◌,
}
use frewozet.Base.Bits.{bit_and_low}
use frewozet.Idt.{Entry, Idt, idt_set_gate, idt_init}

-- The address that the processor calls through a gate.
abbrev pub offset_of : Entry → ℕ
offset_of e = e.offset_low + 2 ^ 16 * e.offset_high

-- A gate as `idt_set_gate` writes it.
abbrev gate : (handler selector type_attr : ℕ) → Entry
gate handler selector type_attr = record {
  offset_low = u16 (bit_and handler 0xFFFF);
  selector = selector;
  zero = 0;
  type_attr = type_attr;
  offset_high = u16 (bit_and (handler / 2 ^ 16) 0xFFFF);
}

within :
    (from n i : ℕ)
    → from ≢ i
    → (leb (from + 1) i && ltb i (from + 1 + n)) ≡ (leb from i && ltb i (from + suc n))
within from n i h = ground arith

module _ (at handler : ℕ → ℕ) (selector type_attr : ℕ) where
  set_gates :
      (n from i : ℕ) (g : Idt)
      → ((j : ℕ) → j < from + n → at j ≡ j)
      → (for_range n from (λ j g. idt_set_gate (at j) (handler j) selector type_attr g) g).idt i
        ≡ (if leb from i && ltb i (from + n) then gate (handler i) selector type_attr else g.idt i)
  unfolding for_range idt_set_gate
  set_gates zero from i g same = ground arith
  set_gates (suc n) from i g same =
      set_gates n (from + 1) i (idt_set_gate (at from) (handler from) selector type_attr g)
        (λ j h. same j (omega arith))
      ∙ elim (Bool-cases (from == i)) [
        | inl here ↦
            let e : from ≡ i = ==→eq from i here in
            rw
              (
                same from (omega arith),
                here,
                gt→leb (from + 1) i (omega (arith, e)),
                le→leb from i (omega (arith, e)),
                lt→ltb i (from + suc n) (omega (arith, e)),
              )
              (ap (λ k. gate (handler k) selector type_attr) e)
        | inr apart ↦ rw (same from (omega arith), apart, within from n i (==→ne from i apart)) refl
      ]

in_ranges :
    (i : ℕ) (a b c : Entry)
    → i < 256
    → (if leb 32 i && ltb i 48
        then a
        else if leb 0 i && ltb i 32
        then a
        else if leb 0 i && ltb i 256
        then b
        else c)
      ≡ (if ltb i 48 then a else b)
in_ranges i a b c h = ground arith

-- After `idt_init` each of the first 48 gates is an interrupt gate of ring 0, marked present, through
-- which the processor calls the stub of its number; the other gates are absent.
pub idt_init-gates :
    (stub : ℕ → ℕ) (address i : ℕ) (g : Idt)
    → ((n : ℕ) → stub n < 2 ^ 32)
    → i < 256
    → let e = (idt_init stub address g).idt i in
      (offset_of e ≡ (if ltb i 48 then stub i else 0))
      × (e.selector ≡ (if ltb i 48 then 0x08 else 0))
      × (e.type_attr ≡ (if ltb i 48 then 0x8E else 0))
unfolding idt_init
idt_init-gates stub address i g small h = elim (Bool-cases (ltb i 48)) [
  | inl used ↦
      rw (all, used)
        (
          omega (arith, bit_and_low 16 (stub i), bit_and_low 16 (stub i / 2 ^ 16), small i),
          refl,
          refl,
        )
  | inr free ↦ rw (all, free) (refl, refl, refl)
]
  where
    cleared : Idt
    cleared = for_range 256 0 (λ j g. idt_set_gate (u8 j) 0 0 0 g) g

    lower : Idt
    lower = for_range 32 0 (λ j g. idt_set_gate j (stub j) 0x08 0x8E g) cleared

    all :
        (idt_init stub address g).idt i ≡ (if ltb i 48 then gate (stub i) 0x08 0x8E else gate 0 0 0)
    all =
        set_gates (λ j. j) stub 0x08 0x8E 16 32 i lower (λ j h. refl)
        ∙ ap (λ e. if leb 32 i && ltb i 48 then gate (stub i) 0x08 0x8E else e)
            (set_gates (λ j. j) stub 0x08 0x8E 32 0 i cleared (λ j h. refl)
              ∙ ap (λ e. if leb 0 i && ltb i 32 then gate (stub i) 0x08 0x8E else e)
                  (set_gates (λ j. u8 j) (λ j. 0) 0 0 256 0 i g (λ j h. omega arith)))
        ∙ in_ranges i (gate (stub i) 0x08 0x8E) (gate 0 0 0) (g.idt i) h
