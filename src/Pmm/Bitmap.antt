-- ===== src/Pmm/Bitmap.antt =====
-- The bitmap of pmm.c as a map from pages to digits.
use frewozet.Base.{
  ℕ, ◌+◌, ◌*◌, ◌/◌, ◌%◌, ◌^◌, ◌<◌, bit_and, ◌≡◌, ap, ◌∙◌, arith, Bool, false, ◌||◌, refl, ◌==◌,
  if◌then◌else◌, not32,
}
use frewozet.Base.Bits.{
  bit, bit-lt, bit-bit_or, bit-bit_and, bit-two-pow, bit-complement, bit_and-shr-one, bit_and_high,
}
use native.Mathlib.Nat.{pow-le-pow_right}
use frewozet.Pmm.{Pmm, align_up_u32, align_down_u32, set_bit, clear_bit, test_bit}

-- The digit of a page: 1 when it is used.
abbrev pub used : Pmm → ℕ → ℕ
used p page = bit (p.words (page / 32)) (page % 32)

pub used-lt : (p : Pmm) (page : ℕ) → used p page < 2
used-lt p page = bit-lt (page % 32) (p.words (page / 32))

-- `pmm_test_bit` reads the digit of its page.
pub test_bit-used : (p : Pmm) (page : ℕ) → test_bit p page ≡ used p page
unfolding test_bit
test_bit-used p page = bit_and-shr-one (page % 32) (p.words (page / 32))

place-lt : (i : ℕ) → 2 ^ (i % 32) < 2 ^ 32
place-lt i =
    omega (arith, pow-le-pow_right {n = 2} (omega arith) {i = i % 32} {j = 31} (omega arith))

-- `pmm_set_bit` marks its page used and leaves every other page alone.
pub used-set_bit : (i j : ℕ) (p : Pmm) → used (set_bit i p) j ≡ (if i == j then 1 else used p j)
unfolding set_bit
used-set_bit i j p = ground (
  arith,
  bit-bit_or (j % 32) (p.words (i / 32)) (2 ^ (i % 32)),
  bit-two-pow (i % 32) (j % 32),
  bit-lt (j % 32) (p.words (i / 32)),
)

-- `pmm_clear_bit` marks its page free and leaves every other page alone.
pub used-clear_bit : (i j : ℕ) (p : Pmm) → used (clear_bit i p) j ≡ (if i == j then 0 else used p j)
unfolding clear_bit
used-clear_bit i j p = ground (
  arith,
  place-lt i,
  bit-bit_and (j % 32) (p.words (i / 32)) (not32 (2 ^ (i % 32))),
  bit-complement 32 (j % 32) (2 ^ (i % 32)),
  bit-two-pow (i % 32) (j % 32),
  bit-lt (j % 32) (p.words (i / 32)),
)

pub align_down_page : (a : ℕ) → a < 2 ^ 32 → align_down_u32 a 4096 ≡ a / 4096 * 4096
unfolding align_down_u32
align_down_page a h = bit_and_high 12 20 a (omega arith)

pub align_up_page : (a : ℕ) → a + 4095 < 2 ^ 32 → align_up_u32 a 4096 ≡ (a + 4095) / 4096 * 4096
unfolding align_up_u32
align_up_page a h =
    ap (λ w. bit_and w 4294963200) (omega arith) ∙ bit_and_high 12 20 (a + 4095) (omega arith)

-- `q` is `p` but for the digits of the pages that `at` picks, which are `v`.
pub record Writes (v : ℕ) (at : ℕ → Bool) (p q : Pmm) : Type 0 where
  pub digits : (page : ℕ) → used q page ≡ (if at page then v else used p page)
  pub bitmap : q.bitmap ≡ p.bitmap
  pub total_pages : q.total_pages ≡ p.total_pages
  pub total_usable_pages : q.total_usable_pages ≡ p.total_usable_pages
  pub total_usable_bytes : q.total_usable_bytes ≡ p.total_usable_bytes

pub set_bit-Writes : (i : ℕ) (p : Pmm) → Writes 1 (λ j. i == j) p (set_bit i p)
unfolding set_bit
set_bit-Writes i p = record {
  digits = λ j. used-set_bit i j p;
  bitmap = refl;
  total_pages = refl;
  total_usable_pages = refl;
  total_usable_bytes = refl;
}

pub clear_bit-Writes : (i : ℕ) (p : Pmm) → Writes 0 (λ j. i == j) p (clear_bit i p)
unfolding clear_bit
clear_bit-Writes i p = record {
  digits = λ j. used-clear_bit i j p;
  bitmap = refl;
  total_pages = refl;
  total_usable_pages = refl;
  total_usable_bytes = refl;
}

module _ {v : ℕ} {p q : Pmm} where
  -- Another description of the pages will do where the two give the same digits.
  pub Writes-mono :
      {at at' : ℕ → Bool}
      → Writes v at p q
      → ((page : ℕ) → (if at page then v else used p page) ≡ (if at' page then v else used p page))
      → Writes v at' p q
  Writes-mono w same = record {
    digits = λ page. w.digits page ∙ same page;
    bitmap = w.bitmap;
    total_pages = w.total_pages;
    total_usable_pages = w.total_usable_pages;
    total_usable_bytes = w.total_usable_bytes;
  }

  pub Writes-trans :
      {r : Pmm} {at at' : ℕ → Bool}
      → Writes v at p q
      → Writes v at' q r
      → Writes v (λ page. at page || at' page) p r
  Writes-trans {at} {at'} w w' = record {
    digits = λ page. ground (arith, w.digits page, w'.digits page);
    bitmap = w'.bitmap ∙ w.bitmap;
    total_pages = w'.total_pages ∙ w.total_pages;
    total_usable_pages = w'.total_usable_pages ∙ w.total_usable_pages;
    total_usable_bytes = w'.total_usable_bytes ∙ w.total_usable_bytes;
  }

pub Writes-refl : (v : ℕ) (p : Pmm) → Writes v (λ page. false) p p
Writes-refl v p = record {
  digits = λ page. refl;
  bitmap = refl;
  total_pages = refl;
  total_usable_pages = refl;
  total_usable_bytes = refl;
}
