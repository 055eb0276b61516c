-- ===== src/Commands/Text.antt =====
-- The commands about texts.
use frewozet.Base.{ℕ, ◌-◌, none, some, List, [], ◌|>◌, ltb, if◌then◌else◌, length, for_range}
use frewozet.Base.Int.{int32, pos}
use frewozet.CString.{strlen, strcmp, strncmp}
use frewozet.Terminal.{Terminal, write, write_decimal}
use frewozet.Commands.{arg, terminal_write, say, shell_parse_uint32}

unfoldable pub shell_print_string_args : List (List ℕ) → Terminal → Terminal
shell_print_string_args argv t =
    for_range (length argv) 0
      (λ i t.
        t
        |> terminal_write "Arg "
        |> write_decimal (pos i)
        |> terminal_write ": "
        |> write (arg i argv [])
        |> terminal_write "\n")
      t

unfoldable pub cmd_echo : List (List ℕ) → Terminal → Terminal
cmd_echo argv t =
    let argc = length argv in
    let t =
      for_range (argc - 1) 1
        (λ i t.
          let t = write (arg i argv []) t in if ltb i (argc - 1) then terminal_write " " t else t)
        t in
    terminal_write "\n" t

unfoldable pub cmd_strlen : List (List ℕ) → Terminal → Terminal
cmd_strlen argv t =
    if ltb (length argv) 2
    then t |> say "Usage: strlen <string>\n" "error"
    else t
      |> terminal_write "Length: "
      |> write_decimal (int32 (strlen (arg 1 argv [])))
      |> terminal_write "\n"

unfoldable pub cmd_strcmp : List (List ℕ) → Terminal → Terminal
cmd_strcmp argv t =
    if ltb (length argv) 3
    then t |> say "Usage: strcmp <string1> <string2>\n" "error"
    else t
      |> terminal_write "strcmp result: "
      |> write_decimal (strcmp (arg 1 argv []) (arg 2 argv []))
      |> terminal_write "\n"

unfoldable pub cmd_strncmp : List (List ℕ) → Terminal → Terminal
cmd_strncmp argv t =
    if ltb (length argv) 4
    then t |> say "Usage: strncmp <string1> <string2> <n>\n" "error"
    else elim (shell_parse_uint32 (arg 3 argv [])) [
      | none ↦ t |> say "Invalid number for n\n" "error"
      | some n ↦
          t
          |> terminal_write "strncmp result: "
          |> write_decimal (strncmp (arg 1 argv []) (arg 2 argv []) n)
          |> terminal_write "\n"
    ]
