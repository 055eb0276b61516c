-- ===== src/Pic/Tests.antt =====
-- The controllers moved to 32 and 40, with all requests masked.
use frewozet.Base.{false, []}
use frewozet.Terminal.{Terminal}

abbrev screen : Terminal
screen = record {
  cursor_row = 0;
  cursor_col = 0;
  cursor_color = 7;
  buffer = λ i. 0x0720;
  color_mode = false;
  ports = [];
}
