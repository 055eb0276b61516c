-- ===== src/Memory/Bootstrap.antt =====
-- The bootstrap allocator of memory.c: a pointer that only moves up.
use frewozet.Base.{
  ℕ, zero, suc, ◌+◌, ◌-◌, ◌*◌, ◌/◌, ◌^◌, ◌≤◌, ◌<◌, ◌≡◌, refl, subst, sym, ap, ◌∙◌, arith, ltb, ◌==◌,
  bit_and, u32, sub32, not32, ◌⊎◌, inl, inr, Bool-cases, ne→==, tests, true, false,
}
use frewozet.Base.Bits.{bit_and_high}
use native.Mathlib.Nat.{
  pow-suc, one-le-pow, div-lt_iff_lt-mul, lt-div-mul-add, div-mul-le_self, mul-le-mul_right,
  lt_of_mul-lt-mul_right,
}
use frewozet.Memory.{Memory, align_up_u32, bootstrap_alloc_aligned}

two_pow_add : (k j : ℕ) → 2 ^ (k + j) ≡ 2 ^ j * 2 ^ k
two_pow_add zero j = ap (λ e. 2 ^ e) {y = j} (omega arith) ∙ omega arith
two_pow_add (suc k) j = grind (arith, two_pow_add k j, pow-suc 2 (k + j), pow-suc 2 k)

pred-mul : (a b : ℕ) → (a - 1) * b ≡ a * b - b
pred-mul zero b = omega arith
pred-mul (suc a) b = grind arith

-- `x & ~(alignment - 1)` for an alignment that is a power of two.
pub align_mask :
    (k j x : ℕ) → k + j ≡ 32 → x < 2 ^ 32 → bit_and x (not32 (sub32 (2 ^ k) 1)) ≡ x / 2 ^ k * 2 ^ k
align_mask k j x e h =
    ap (λ w. bit_and x w) mask
    ∙ bit_and_high k j x (
        (div-lt_iff_lt-mul {k = 2 ^ k} {x = x} {y = 2 ^ j} (one-le-pow k 2 (omega arith))).1
          (omega (arith, whole)))
  where
    whole : 2 ^ j * 2 ^ k ≡ 2 ^ 32
    whole = sym (two_pow_add k j) ∙ ap (λ e. 2 ^ e) e

    small : 2 ^ k ≤ 2 ^ 32
    small = grind (arith, whole, one-le-pow j 2)

    mask : not32 (sub32 (2 ^ k) 1) ≡ (2 ^ j - 1) * 2 ^ k
    mask = omega (arith, whole, pred-mul (2 ^ j) (2 ^ k), one-le-pow k 2 (omega arith), small)

pub two_pow_le : (k j : ℕ) → k + j ≡ 32 → 2 ^ k ≤ 2 ^ 32
two_pow_le k j e = grind (arith, sym (two_pow_add k j) ∙ ap (λ e. 2 ^ e) e, one-le-pow j 2)

pub align_up_u32_lem :
    (k j v : ℕ) → k + j ≡ 32 → align_up_u32 v (2 ^ k) ≡ u32 (v + (2 ^ k - 1)) / 2 ^ k * 2 ^ k
unfolding align_up_u32
align_up_u32_lem k j v e =
    rw
      (
        ne→== (2 ^ k) 0 (omega (arith, one-le-pow k 2 (omega arith))),
        align_mask k j (u32 (v + sub32 (2 ^ k) 1)) e (omega arith),
      )
      (ap (λ w. u32 (v + w) / 2 ^ k * 2 ^ k)
        (omega (arith, two_pow_le k j e, one-le-pow k 2 (omega arith))))

-- `p` is a multiple of the alignment 2 ^ `k`; the bytes from there lie between the pointer and the
-- limit, and the pointer moves behind them.
pub record Bumps (k size p : ℕ) (m m' : Memory) : Type 0 where
  pub multiple : ℕ
  pub aligned : p ≡ multiple * 2 ^ k
  pub above : m.bootstrap_heap_current ≤ p
  pub inside : p + size ≤ m.bootstrap_heap_limit
  pub moved : m' ≡ record m { bootstrap_heap_current = p + size }

-- No aligned range of `size` bytes lies between the pointer and the limit.
abbrev pub NoRoom : (k size : ℕ) → Memory → Type 0
NoRoom k size m =
    (q : ℕ) → m.bootstrap_heap_current ≤ q * 2 ^ k → m.bootstrap_heap_limit < q * 2 ^ k + size

-- The aligned address is the least multiple.
least : (a v q : ℕ) → 0 < a → v ≤ q * a → (v + (a - 1)) / a * a ≤ q * a
least a v q h h' =
    mul-le-mul_right a
      (omega (arith, (div-lt_iff_lt-mul {k = a} {x = v + (a - 1)} {y = q + 1} h).1 (grind arith)))

past_the_word :
    (k j v q : ℕ) → k + j ≡ 32 → 2 ^ 32 ≤ v + (2 ^ k - 1) → v ≤ q * 2 ^ k → 2 ^ 32 ≤ q * 2 ^ k
past_the_word k j v q e h h' =
    subst (λ w. w ≤ q * 2 ^ k) whole (mul-le-mul_right (2 ^ k) (omega (arith, beyond)))
  where
    whole : 2 ^ j * 2 ^ k ≡ 2 ^ 32
    whole = sym (two_pow_add k j) ∙ ap (λ e. 2 ^ e) e

    beyond : 2 ^ j < q + 1
    beyond = lt_of_mul-lt-mul_right (2 ^ k) (grind (arith, whole, one-le-pow k 2))

-- The bootstrap allocator, for an alignment that is a power of two: null and nothing changes, or an
-- aligned range below the limit, which nothing was given before.
pub bootstrap_alloc_aligned-Bumps :
    (k j size : ℕ) (m : Memory)
    → k + j ≡ 32
    → size < 2 ^ 32
    → m.bootstrap_heap_current < 2 ^ 32
    → m.bootstrap_heap_limit < 2 ^ 32
    → let r = bootstrap_alloc_aligned size (2 ^ k) m in
      ((r ≡ (0, m)) × ((size ≡ 0) ⊎ NoRoom k size m)) ⊎ Bumps k size r.0 m r.1
unfolding bootstrap_alloc_aligned
bootstrap_alloc_aligned-Bumps k j size m e fits small below =
    rw (ne→== (2 ^ k) 0 (omega (arith, positive)), align_up_u32_lem k j m.bootstrap_heap_current e)
      (elim (Bool-cases (size == 0)) [
        | inl nothing ↦ rw nothing (inl (refl, inl (ground arith)))
        | inr some_bytes ↦ elim (Bool-cases (ltb p m.bootstrap_heap_current)) [
          | inl wraps ↦
              rw (some_bytes, wraps)
                (inl (
                  refl,
                  inr λ q h. omega (
                    tests,
                    wraps,
                    past_the_word k j m.bootstrap_heap_current q e (wrapped wraps) h,
                  ),
                ))
          | inr above ↦ elim (Bool-cases (ltb (u32 (p + size)) p)) [
            | inl wraps ↦
                rw (some_bytes, above, wraps)
                  (inl (refl, inr λ q h. omega (tests, wraps, least_multiple above q h, p_le)))
            | inr stays ↦ elim (Bool-cases (ltb m.bootstrap_heap_limit (u32 (p + size)))) [
              | inl full ↦
                  rw (some_bytes, above, stays, full)
                    (inl (refl, inr λ q h. omega (tests, stays, full, least_multiple above q h)))
              | inr inside ↦
                  rw (some_bytes, above, stays, inside)
                    (inr (record {
                      multiple = u32 (m.bootstrap_heap_current + (2 ^ k - 1)) / 2 ^ k;
                      aligned = refl;
                      above = ground arith;
                      inside = omega (tests, stays, inside);
                      moved =
                          ap (λ c. record m { bootstrap_heap_current = c })
                            (omega (tests, stays, p_le));
                    }))
            ]
          ]
        ]
      ])
  where
    p : ℕ
    p = u32 (m.bootstrap_heap_current + (2 ^ k - 1)) / 2 ^ k * 2 ^ k

    positive : 0 < 2 ^ k
    positive = one-le-pow k 2 (omega arith)

    sum : ℕ
    sum = m.bootstrap_heap_current + (2 ^ k - 1)

    p_le : p ≤ u32 sum
    p_le = div-mul-le_self (u32 sum) (2 ^ k)

    wrapped : ltb p m.bootstrap_heap_current ≡ true → 2 ^ 32 ≤ sum
    wrapped h = omega (tests, h, lt-div-mul-add {a = u32 sum} {b = 2 ^ k} positive)

    least_multiple :
        ltb p m.bootstrap_heap_current ≡ false
        → (q : ℕ) → m.bootstrap_heap_current ≤ q * 2 ^ k
        → p ≤ q * 2 ^ k
    least_multiple above q h =
        subst (λ x. x / 2 ^ k * 2 ^ k ≤ q * 2 ^ k) (omega (tests, above, p_le, two_pow_le k j e))
          (least (2 ^ k) m.bootstrap_heap_current q positive h)
