-- ===== src/System/Tests.antt =====
-- Enter on the line "echo hi".
use frewozet.Base.{◌≡◌, refl, arith, some, [], ◌∷◌, take}
use frewozet.Base.Text.{codes}
use frewozet.CString.{strequal, strcmp}
use frewozet.Commands.Table.{Command, find_command, find_in, shell_commands}
use frewozet.Tokenizer.Fields.{fields, between}
use frewozet.System.{max_args}
use frewozet.System.Enter.{HoldsLine}
use frewozet.System.Sample.{system, line}

abbrev echo : Command
echo = record {
  name = codes "echo";
  handler = 3;
  help = codes "echo <message>                - Print text";
}

echo-known : find_command (codes "echo") ≡ some echo
unfolding find_command find_in shell_commands strequal strcmp
echo-known = refl

two_fields : take max_args (fields between line) ≡ codes "echo" ∷ codes "hi" ∷ []
unfolding fields
two_fields = refl

line-Holds : HoldsLine line system.shell
line-Holds = record {
  holds = (refl, (refl, (refl, (refl, (refl, (refl, (refl, refl)))))));
  free = (
    omega arith,
    (omega arith, (omega arith, (omega arith, (omega arith, (omega arith, (omega arith, tt)))))),
  );
  size = refl;
  fits = omega arith;
}
