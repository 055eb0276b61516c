-- ===== src/Base/Bits.antt =====
-- The binary digits of a word, and the bitwise operations of C through them.
use Prim.Native.Nat.{digits, bitwise, bit_and-bitwise, bit_or-bitwise}
use native.Mathlib.Nat.{pow-suc, one-le-pow, div-div-eq-div-mul}
use frewozet.Base.{
  ℕ, zero, suc, ◌+◌, ◌-◌, ◌*◌, ◌/◌, ◌%◌, ◌^◌, ◌≤◌, ◌<◌, min, max, bit_and, bit_or, ◌≡◌, refl, sym,
  ap, ◌∙◌, arith, ◌==◌, if◌then◌else◌,
}

-- Digit `i` of `w`.
unfoldable pub bit : ℕ → ℕ → ℕ
bit w zero = w % 2
bit w (suc i) = bit (w / 2) i

pub bit-lt : (i w : ℕ) → bit w i < 2
unfolding bit
bit-lt zero w = omega arith
bit-lt (suc i) w = bit-lt i (w / 2)

-- The digit recursion takes no notice of fuel beyond the first number.
module _ (z : ℕ → ℕ) (f : ℕ → ℕ → ℕ) where
  digits_enough : (n m a b : ℕ) → a ≤ n → a ≤ m → digits z f n a b ≡ digits z f m a b
  digits_enough zero zero a b p q = refl
  digits_enough zero (suc m) zero b p q = refl
  digits_enough zero (suc m) (suc a) b p q = absurd (omega arith)
  digits_enough (suc n) zero zero b p q = refl
  digits_enough (suc n) zero (suc a) b p q = absurd (omega arith)
  digits_enough (suc n) (suc m) zero b p q = refl
  digits_enough (suc n) (suc m) (suc a) b p q =
      rw (digits_enough n m (suc a / 2) (b / 2) (omega arith) (omega arith))

  bitwise_lowest :
      (a b : ℕ)
      → bitwise z f (suc a) b ≡ bitwise z f (suc a / 2) (b / 2) * 2 + f (suc a % 2) (b % 2)
  bitwise_lowest a b =
      omega (arith, digits_enough a (suc a / 2) (suc a / 2) (b / 2) (omega arith) (omega arith))

pub bit_or_halves : (a b : ℕ) → bit_or a b ≡ bit_or (a / 2) (b / 2) * 2 + max (a % 2) (b % 2)
bit_or_halves zero b = simp bit_or-bitwise (omega arith)
bit_or_halves (suc a) b = simp bit_or-bitwise (bitwise_lowest (λ y. y) max a b)

pub bit_and_halves : (a b : ℕ) → bit_and a b ≡ bit_and (a / 2) (b / 2) * 2 + min (a % 2) (b % 2)
bit_and_halves zero b = simp bit_and-bitwise (omega arith)
bit_and_halves (suc a) b = simp bit_and-bitwise (bitwise_lowest (λ y. 0) min a b)

pub bit-bit_or : (i a b : ℕ) → bit (bit_or a b) i ≡ max (bit a i) (bit b i)
unfolding bit
bit-bit_or zero a b = omega (arith, bit_or_halves a b)
bit-bit_or (suc i) a b =
    ap (λ w. bit w i) (omega (arith, bit_or_halves a b)) ∙ bit-bit_or i (a / 2) (b / 2)

pub bit-bit_and : (i a b : ℕ) → bit (bit_and a b) i ≡ min (bit a i) (bit b i)
unfolding bit
bit-bit_and zero a b = omega (arith, bit_and_halves a b)
bit-bit_and (suc i) a b =
    ap (λ w. bit w i) (omega (arith, bit_and_halves a b)) ∙ bit-bit_and i (a / 2) (b / 2)

zero-bit : (i : ℕ) → bit 0 i ≡ 0
unfolding bit
zero-bit zero = refl
zero-bit (suc i) = zero-bit i

bit_and-zero : (k a : ℕ) → a < 2 ^ k → bit_and a 0 ≡ 0
bit_and-zero zero a h = rw (small a h) refl
  where
    small : (b : ℕ) → b < 2 ^ 0 → b ≡ 0
    small b lt = omega arith
bit_and-zero (suc k) a h =
    omega (arith, bit_and_halves a 0, bit_and-zero k (a / 2) (omega (arith, pow-suc 2 k)))

bit_or-zero : (k a : ℕ) → a < 2 ^ k → bit_or a 0 ≡ a
bit_or-zero zero a h = rw (small a h) refl
  where
    small : (b : ℕ) → b < 2 ^ 0 → b ≡ 0
    small b lt = omega arith
bit_or-zero (suc k) a h =
    omega (arith, bit_or_halves a 0, bit_or-zero k (a / 2) (omega (arith, pow-suc 2 k)))

lt-two-pow : (a : ℕ) → a < 2 ^ a
lt-two-pow zero = omega arith
lt-two-pow (suc a) = omega (arith, lt-two-pow a, pow-suc 2 a)

pub bit_and-one : (a : ℕ) → bit_and a 1 ≡ a % 2
bit_and-one a =
    omega (arith, bit_and_halves a 1, bit_and-zero a (a / 2) (omega (arith, lt-two-pow a)))

-- `a >> suc i`, one place at a time.
pub div-two-pow-suc : (a i : ℕ) → a / 2 ^ suc i ≡ a / 2 / 2 ^ i
div-two-pow-suc a i =
    ap (λ d. a / d) (omega (arith, pow-suc 2 i)) ∙ sym (div-div-eq-div-mul a 2 (2 ^ i))

-- `(w >> i) & 1` is digit `i`.
pub bit_and-shr-one : (i w : ℕ) → bit_and (w / 2 ^ i) 1 ≡ bit w i
unfolding bit
bit_and-shr-one zero w = omega (arith, bit_and-one w, bit_and-one (w / 2 ^ 0))
bit_and-shr-one (suc i) w = rw (div-two-pow-suc w i) (bit_and-shr-one i (w / 2))

-- `1 << i` has digit `i` and no other.
pub bit-two-pow : (i j : ℕ) → bit (2 ^ i) j ≡ (if i == j then 1 else 0)
unfolding bit
bit-two-pow zero zero = refl
bit-two-pow zero (suc j) = zero-bit j ∙ ground arith
bit-two-pow (suc i) zero = ground (arith, pow-suc 2 i)
bit-two-pow (suc i) (suc j) =
    ap (λ w. bit w j) (omega (arith, pow-suc 2 i)) ∙ bit-two-pow i j ∙ ground arith

-- `~x` at `k` bits flips each digit below `k`.
pub bit-complement : (k i x : ℕ) → i < k → x < 2 ^ k → bit (2 ^ k - 1 - x) i ≡ 1 - bit x i
unfolding bit
bit-complement zero i x h lt = absurd (omega arith)
bit-complement (suc k) zero x h lt = omega (arith, pow-suc 2 k, one-le-pow k 2)
bit-complement (suc k) (suc i) x h lt =
    ap (λ w. bit w i) half ∙ bit-complement k i (x / 2) (omega arith) (omega (arith, pow-suc 2 k))
  where
    half : (2 ^ suc k - 1 - x) / 2 ≡ 2 ^ k - 1 - x / 2
    half = omega (arith, pow-suc 2 k)

double_field : (q k : ℕ) → q * 2 ^ suc k ≡ 2 * (q * 2 ^ k)
double_field q k = omega (arith, ap (λ (t : ℕ). q * t) (pow-suc 2 k))

-- A word of two fields, `q` above the lowest `k` digits and `r` in them.
bit_and_low_field : (k q r : ℕ) → r < 2 ^ k → bit_and (q * 2 ^ k + r) (2 ^ k - 1) ≡ r
bit_and_low_field zero q r h =
    omega (arith, bit_and-zero (q * 2 ^ 0 + r) (q * 2 ^ 0 + r) (lt-two-pow (q * 2 ^ 0 + r)))
bit_and_low_field (suc k) q r h = ground (
  arith,
  bit_and_halves (q * 2 ^ suc k + r) (2 ^ suc k - 1),
  double_field q k,
  pow-suc 2 k,
  one-le-pow k 2,
  bit_and_low_field k q (r / 2) (omega (arith, pow-suc 2 k)),
)

bit_and_high_field :
    (k m q r : ℕ)
    → q < 2 ^ m
    → r < 2 ^ k
    → bit_and (q * 2 ^ k + r) ((2 ^ m - 1) * 2 ^ k) ≡ q * 2 ^ k
bit_and_high_field zero m q r hq h = ground (arith, bit_and_low_field m 0 q hq)
bit_and_high_field (suc k) m q r hq h = ground (
  arith,
  bit_and_halves (q * 2 ^ suc k + r) ((2 ^ m - 1) * 2 ^ suc k),
  double_field q k,
  double_field (2 ^ m - 1) k,
  bit_and_high_field k m q (r / 2) hq (omega (arith, pow-suc 2 k)),
)

-- `(q << k) | r` is a sum when `r` fits `k` bits.
pub bit_or_fields : (k q r : ℕ) → r < 2 ^ k → bit_or (q * 2 ^ k) r ≡ q * 2 ^ k + r
bit_or_fields zero q r h =
    ground (arith, bit_or-zero (q * 2 ^ 0) (q * 2 ^ 0) (lt-two-pow (q * 2 ^ 0)))
bit_or_fields (suc k) q r h = ground (
  arith,
  bit_or_halves (q * 2 ^ suc k) r,
  double_field q k,
  bit_or_fields k q (r / 2) (omega (arith, pow-suc 2 k)),
)

zero-bit_or : (b : ℕ) → bit_or 0 b ≡ b
zero-bit_or b = simp bit_or-bitwise refl

-- `r | (q << k)` is the same sum.
pub bit_or_low_first : (k q r : ℕ) → r < 2 ^ k → bit_or r (q * 2 ^ k) ≡ q * 2 ^ k + r
bit_or_low_first zero q r h =
    rw (none_below r (omega arith)) (zero-bit_or (q * 2 ^ 0) ∙ omega arith)
  where
    none_below : (r : ℕ) → r < 1 → r ≡ 0
    none_below r h = omega arith
bit_or_low_first (suc k) q r h = ground (
  arith,
  bit_or_halves r (q * 2 ^ suc k),
  double_field q k,
  bit_or_low_first k q (r / 2) (omega (arith, pow-suc 2 k)),
)

-- `x & (2 ^ k - 1)` is the remainder.
pub bit_and_low : (k x : ℕ) → bit_and x (2 ^ k - 1) ≡ x % 2 ^ k
bit_and_low k x = ground (arith, one-le-pow k 2, bit_and_low_field k (x / 2 ^ k) (x % 2 ^ k))

-- `x & ~(2 ^ k - 1)`, at `k + m` bits, clears the `k` lowest digits.
pub bit_and_high :
    (k m x : ℕ) → x / 2 ^ k < 2 ^ m → bit_and x ((2 ^ m - 1) * 2 ^ k) ≡ x / 2 ^ k * 2 ^ k
bit_and_high k m x h =
    ground (arith, one-le-pow k 2, bit_and_high_field k m (x / 2 ^ k) (x % 2 ^ k))

-- `x | 1` sets the lowest digit.
pub bit_or-one : (a : ℕ) → bit_or a 1 ≡ a / 2 * 2 + 1
bit_or-one a = omega (arith, bit_or_halves a 1, bit_or-zero (a / 2) (a / 2) (lt-two-pow (a / 2)))
