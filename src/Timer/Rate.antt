-- ===== src/Timer/Rate.antt =====
-- The rate of the timer.
use frewozet.Base.{ℕ, zero, suc, ◌+◌, ◌*◌, ◌/◌, ◌%◌, ◌^◌, ◌≤◌, ◌<◌, ◌≡◌, ◌∷◌, arith}
use native.Mathlib.Nat.{mul-div-le, lt-mul-div-succ, mul-le-mul, mul_comm}
use frewozet.Base.Bits.{bit_and_low}
use frewozet.Terminal.{Terminal}
use frewozet.Timer.{
  Timer, pit_command_port, pit_channel0_port, pit_base_frequency, divisor_for, timer_init,
}

quotient :
    (f : ℕ)
    → 19 ≤ f
    → f ≤ pit_base_frequency
    → let d = pit_base_frequency / f in
      (0 < d) × (d < 2 ^ 16) × (d * f ≤ pit_base_frequency) × (pit_base_frequency < (d + 1) * f)
quotient f slow fast = (omega (arith, positive, upper), omega (arith, bounded, lower), lower, upper)
  where
    lower : pit_base_frequency / f * f ≤ pit_base_frequency
    lower = omega (arith, mul_comm (pit_base_frequency / f) f, mul-div-le pit_base_frequency f)

    upper : pit_base_frequency < (pit_base_frequency / f + 1) * f
    upper = omega (
      arith,
      mul_comm (pit_base_frequency / f + 1) f,
      lt-mul-div-succ pit_base_frequency {b = f} (omega arith),
    )

    bounded : pit_base_frequency / f * 19 ≤ pit_base_frequency / f * f
    bounded = mul-le-mul {n₁ = pit_base_frequency / f} (omega arith) slow

    some : (d : ℕ) → pit_base_frequency < (d + 1) * f → 0 < d
    some zero h = absurd (omega arith)
    some (suc d) h = omega arith

    positive : 0 < pit_base_frequency / f
    positive = some (pit_base_frequency / f) upper

-- From 19 to 1193182 Hz, `timer_init` writes the control word and then the low and the high byte of a
-- divisor, the largest with which the timer is at least as fast as asked for.
pub timer_init-divides :
    (frequency_hz : ℕ) (timer : Timer) (t : Terminal)
    → 19 ≤ frequency_hz
    → frequency_hz ≤ pit_base_frequency
    → (low : ℕ) × (high : ℕ) × ((timer_init frequency_hz (timer, t)).1.ports
        ≡ (pit_channel0_port, high) ∷ (pit_channel0_port, low) ∷ (pit_command_port, 0x36) ∷ t.ports)
      × ((low + 256 * high) * frequency_hz ≤ pit_base_frequency)
      × (pit_base_frequency < (low + 256 * high + 1) * frequency_hz)
unfolding timer_init divisor_for
timer_init-divides frequency_hz timer t slow fast = (
  pit_base_frequency / frequency_hz % 256,
  pit_base_frequency / frequency_hz / 256,
  ground (
    arith,
    bit_and_low 8 (pit_base_frequency / frequency_hz),
    bit_and_low 8 (pit_base_frequency / frequency_hz / 2 ^ 8),
    quotient frequency_hz slow fast,
  ),
  ground (arith, quotient frequency_hz slow fast),
  ground (arith, quotient frequency_hz slow fast),
)
