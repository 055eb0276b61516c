-- ===== src/Commands/Control.antt =====
-- The commands that control the terminal and the processor.
use frewozet.Base.{ℕ, true, false, ◌&&◌, List, ◌|>◌, leb, if◌then◌else◌, length}
use frewozet.Base.Text.{codes}
use frewozet.CString.{strequal}
use frewozet.Terminal.{Terminal, clear, set_color_mode, outb}
use frewozet.Commands.{Devices, Outcome, returned, halted, divide_error, arg, say}

unfoldable pub cmd_clear : Terminal → Terminal
cmd_clear t = clear t

unfoldable pub cmd_colorshell : Terminal → Terminal
cmd_colorshell t =
    if t.color_mode
    then t |> say "Already in ColorShell mode. Run 'quit colorshell' to exit.\n" "info"
    else t
      |> set_color_mode true
      |> say "Welcome to Frewozet ColorShell\nRun 'quit colorshell' to exit.\n" "info"

unfoldable pub cmd_quit : List (List ℕ) → List ℕ → Terminal → Terminal
cmd_quit argv stray t =
    if leb 2 (length argv) && strequal (arg 1 argv stray) (codes "colorshell")
    then (if t.color_mode
        then t |> set_color_mode false |> say "Returned to the default shell.\n" "info"
        else t |> say "Cannot quit ColorShell. Not in ColorShell mode.\n" "warning")
    else t |> say "Usage: quit <arg>[colorshell]\n" "error"

-- `outw` is in the log of the ports too.
unfoldable pub cmd_shutdown : Terminal → Terminal
cmd_shutdown t =
    t
    |> say "Shutting down...\n" "warning"
    |> outb 0x604 0x2000
    |> outb 0xB004 0x2000
    |> outb 0x4004 0x3400
    |> say "FREWOZET SHELL ERROR: This system does not support shutdown.\n" "error"
    |> say "The system can be halted instead with 'halt'\n" "info"

unfoldable pub cmd_halt : Terminal → Devices → Outcome
cmd_halt t d =
    halted (say "FREWOZET SHELL: Halt command invoked. Halting the system...\n" "warning" t) d

unfoldable pub cmd_debug : List (List ℕ) → Terminal → Devices → Outcome
cmd_debug argv t d =
    if leb 2 (length argv) && strequal (arg 1 argv d.stray) (codes "dividezero")
    then divide_error
        (say "FREWOZET SHELL: Debug command invoked. Triggering divide by zero...\n" "warning" t) d
    else returned (say "Usage: debug <arg>[dividezero]\n" "error" t) d
