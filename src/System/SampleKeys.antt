-- ===== src/System/SampleKeys.antt =====
-- The keys that type "help", for the tests.
use frewozet.Base.{ℕ, List, ◌≡◌, ◌≢◌, ◌<◌, refl, arith, some, [], ◌∷◌, take}
use frewozet.Base.Text.{codes}
use frewozet.CString.{strequal, strcmp}
use frewozet.Commands.Table.{Command, find_command, find_in, shell_commands}
use frewozet.Tokenizer.Fields.{fields, between}
use frewozet.Ctype.{isalpha, tolower}
use frewozet.Keyboard.{translate_scancode}
use frewozet.System.{max_args}
use frewozet.System.Typing.{Types, TypesLine}
use frewozet.System.Sample.{system}

abbrev pub help : Command
help = record {
  name = codes "help";
  handler = 0;
  help = codes "help                          - Show help";
}

pub help-known : find_command (codes "help") ≡ some help
unfolding find_command find_in shell_commands strequal strcmp
help-known = refl

abbrev pub help_keys : List ℕ
help_keys = 0x23 ∷ 0x12 ∷ 0x26 ∷ 0x19 ∷ []

printable-Types :
    (key c : ℕ)
    → key < 0x3A
    → (key ≢ 0x2A) × (key ≢ 0x36)
    → translate_scancode key system.keyboard ≡ c
    → 10 < c
    → Types key c system.keyboard
printable-Types key c low shifts gives printable = record {
  before_caps_lock = low;
  no_left_shift = shifts.0;
  no_right_shift = shifts.1;
  gives = gives;
  some_char = omega (arith, printable);
  no_enter = omega (arith, printable);
  no_backspace = omega (arith, printable);
}

pub help-TypesLine : TypesLine system.keyboard help_keys (codes "help")
unfolding translate_scancode isalpha tolower
help-TypesLine = (
  printable-Types 0x23 104 (omega arith) (omega arith, omega arith) refl (omega arith),
  (
    printable-Types 0x12 101 (omega arith) (omega arith, omega arith) refl (omega arith),
    (
      printable-Types 0x26 108 (omega arith) (omega arith, omega arith) refl (omega arith),
      (printable-Types 0x19 112 (omega arith) (omega arith, omega arith) refl (omega arith), tt),
    ),
  ),
)

pub help_field : take max_args (fields between (codes "help")) ≡ codes "help" ∷ []
unfolding fields
help_field = refl
