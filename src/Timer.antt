-- ===== src/Timer.antt =====
-- timer.c: channel 0 of the interval timer, and the count of its ticks.
pub mod Rate
mod Tests
use frewozet.Base.{ℕ, ◌+◌, ◌/◌, ◌%◌, ◌^◌, bit_and, ◌==◌, if◌then◌else◌, u8, u32, shr}
use frewozet.Terminal.{Terminal, outb}

abbrev pub pit_command_port : ℕ
pit_command_port = 0x43

abbrev pub pit_channel0_port : ℕ
pit_channel0_port = 0x40

abbrev pub pit_base_frequency : ℕ
pit_base_frequency = 1193182

pub record Timer : Type 0 where
  pub ticks : ℕ
  pub frequency : ℕ

-- 100 Hz for a frequency of zero
abbrev pub chosen_frequency : ℕ → ℕ
chosen_frequency frequency_hz = if frequency_hz == 0 then 100 else frequency_hz

unfoldable pub divisor_for : ℕ → ℕ
divisor_for frequency =
    let divisor = pit_base_frequency / frequency in if divisor == 0 then 1 else divisor

unfoldable pub timer_init : ℕ → Timer × Terminal → Timer × Terminal
timer_init frequency_hz (timer, t) =
    let frequency = chosen_frequency frequency_hz in
    let divisor = divisor_for frequency in
    (
      record timer { frequency = frequency },
      outb pit_channel0_port (u8 (bit_and (shr divisor 8) 0xFF))
          (outb pit_channel0_port (u8 (bit_and divisor 0xFF)) (outb pit_command_port 0x36 t)),
    )

unfoldable pub timer_tick : Timer → Timer
timer_tick timer = record timer { ticks = u32 (timer.ticks + 1) }
