-- ===== src/Pic.antt =====
-- pic.c: the two interrupt controllers. What was written to the ports is the log of the terminal's
-- record; `inb` is what reading a port gives.
pub mod Remap
mod Tests
use frewozet.Base.{ℕ, ◌|>◌, leb, if◌then◌else◌}
use frewozet.Terminal.{Terminal, outb}

abbrev pub pic1_command : ℕ
pic1_command = 0x20

abbrev pub pic1_data : ℕ
pic1_data = 0x21

abbrev pub pic2_command : ℕ
pic2_command = 0xA0

abbrev pub pic2_data : ℕ
pic2_data = 0xA1

abbrev pub pic_eoi : ℕ
pic_eoi = 0x20

abbrev pub io_wait : Terminal → Terminal
io_wait t = outb 0x80 0 t

unfoldable pub pic_remap : (inb : ℕ → ℕ) (offset1 offset2 : ℕ) → Terminal → Terminal
pic_remap inb offset1 offset2 t =
    let a1 = inb pic1_data in
    let a2 = inb pic2_data in
    t
    |> outb pic1_command 0x11
    |> io_wait
    |> outb pic2_command 0x11
    |> io_wait
    |> outb pic1_data offset1
    |> io_wait
    |> outb pic2_data offset2
    |> io_wait
    |> outb pic1_data 0x04
    |> io_wait
    |> outb pic2_data 0x02
    |> io_wait
    |> outb pic1_data 0x01
    |> io_wait
    |> outb pic2_data 0x01
    |> io_wait
    |> outb pic1_data a1
    |> outb pic2_data a2

unfoldable pub pic_send_eoi : ℕ → Terminal → Terminal
pic_send_eoi irq t =
    outb pic1_command pic_eoi (if leb 8 irq then outb pic2_command pic_eoi t else t)
