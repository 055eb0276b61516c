-- ===== src/Timer/Tests.antt =====
-- The timer at 100 Hz.
use frewozet.Base.{ℕ, ◌+◌, ◌*◌, ◌≤◌, ◌<◌, ◌≡◌, refl, arith, false, [], ◌∷◌}
use frewozet.Terminal.{Terminal}
use frewozet.Timer.{
  Timer, pit_base_frequency, pit_channel0_port, pit_command_port, timer_init, timer_tick,
}
use frewozet.Timer.Rate.{timer_init-divides}

abbrev screen : Terminal
screen = record {
  cursor_row = 0;
  cursor_col = 0;
  cursor_color = 7;
  buffer = λ i. 0x0720;
  color_mode = false;
  ports = [];
}

abbrev stopped : Timer
stopped = record { ticks = 0xFFFFFFFF; frequency = 0 }

tick-wraps : (timer_tick stopped).ticks ≡ 0
unfolding timer_tick
tick-wraps = refl

timer_init-divides_example :
    (low : ℕ) × (high : ℕ) × ((timer_init 100 (stopped, screen)).1.ports
      ≡ (pit_channel0_port, high) ∷ (pit_channel0_port, low) ∷ (pit_command_port, 0x36) ∷ [])
    × ((low + 256 * high) * 100 ≤ pit_base_frequency)
    × (pit_base_frequency < (low + 256 * high + 1) * 100)
timer_init-divides_example = timer_init-divides 100 stopped screen (omega arith) (omega arith)
