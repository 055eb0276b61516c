-- ===== src/Commands.antt =====
-- shell_commands.c: the commands of the shell. A command is given its arguments as the strings that
-- `argv` points to, and returns, stops the processor or ends in an exception. The line, the cursor
-- and the history are static variables of shell.c, which a command can only print.
pub mod Calc
pub mod Text
pub mod Control
pub mod Status
pub mod Storage
pub mod Table
pub mod Lookup
pub mod Register
pub mod Help
pub mod Arith
pub mod Totals
mod Tests
use frewozet.Base.{
  ℕ, zero, suc, ◌+◌, Bool, Option, none, some, List, [], ◌∷◌, ◌|>◌, length, get_or, for_range,
  if◌then◌else◌,
}
use frewozet.Base.Text.{codes}
use Prim.Native.String.{String}
use frewozet.CommandTable.{Node}
use frewozet.Memory.{Memory}
use frewozet.RamMapper.{Info}
use frewozet.Terminal
use frewozet.Terminal.{Terminal, write_hex8, colorshell_write}
use frewozet.Timer.{Timer}
use frewozet.Utils.{parse_digits}

-- What the commands reach besides the terminal. `uninitialised` is what memory holds that nothing
-- was written to, and `stray` the string at a slot of `argv` that was not stored.
pub record Devices : Type 0 where
  pub memory : Memory
  pub timer : Timer
  pub table : ℕ → List Node
  pub info : Info
  pub uninitialised : ℕ → ℕ
  pub stray : List ℕ

-- How a command ends: it returns, it stops the processor for good, it divides by zero, or it touches
-- a page that is not mapped.
pub data Outcome : Type 0 where
  returned : Terminal → Devices → Outcome
  halted : Terminal → Devices → Outcome
  divide_error : Terminal → Devices → Outcome
  page_fault : Outcome

-- What follows a call that may fault.
abbrev pub or_fault {ℓ} : {A : Type ℓ} → Option A → (A → Outcome) → Outcome
or_fault none next = page_fault
or_fault (some a) next = next a

-- `argv[i]`
abbrev pub arg : ℕ → List (List ℕ) → List ℕ → List ℕ
arg i argv stray = get_or argv i stray

abbrev pub terminal_write : String → Terminal → Terminal
terminal_write str t = Terminal.write (codes str) t

abbrev pub say : (str type : String) → Terminal → Terminal
say str type t = colorshell_write (codes str) (codes type) t

unfoldable pub shell_dump_bytes : (address length : ℕ) → (ℕ → ℕ) → Terminal → Terminal
shell_dump_bytes address length bytes t =
    terminal_write "\n"
      (for_range length 0 (λ i t. terminal_write " " (write_hex8 (bytes (address + i)) t)) t)

-- The loop is that of `parse_uint`, and the pointer stays where it was.
unfoldable pub shell_parse_uint32 : List ℕ → Option ℕ
shell_parse_uint32 str =
    let (value, found_digit, rest) = parse_digits str 0 Bool.false in
    if found_digit then some value else none
