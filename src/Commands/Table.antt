-- ===== src/Commands/Table.antt =====
-- The table of the commands, and finding and calling one of them. The address of a command is its
-- place in `shell_commands`.
use frewozet.Base.{
  ℕ, Option, none, some, List, [], ◌∷◌, ◌|>◌, ◌==◌, if◌then◌else◌, length, get_or, for_range, ◌>>=◌,
}
use frewozet.Base.Text.{codes}
use Prim.Native.String.{String}
use frewozet.CString.{strequal}
use frewozet.CommandTable.{Node, table_size, register_command, lookup_command_node}
use frewozet.Shell.{Shell, history_print}
use frewozet.Memory.{Memory}
use frewozet.Terminal
use frewozet.Terminal.{Terminal, write_line}
use frewozet.Commands.{Devices, Outcome, returned, arg, terminal_write, say}
use frewozet.Commands.Calc.{cmd_calc}
use frewozet.Commands.Text.{cmd_echo, cmd_strlen, cmd_strcmp, cmd_strncmp}
use frewozet.Commands.Control.{
  cmd_clear, cmd_colorshell, cmd_quit, cmd_shutdown, cmd_halt, cmd_debug,
}
use frewozet.Commands.Status.{cmd_ticks, cmd_runtime, cmd_meminfo, cmd_heap, cmd_pmminfo}
use frewozet.Commands.Storage.{cmd_alloc, cmd_memcpy, cmd_memset, cmd_pageinfo, cmd_maptest}

-- `struct shell_command`
pub record Command : Type 0 where
  pub name : List ℕ
  pub handler : ℕ
  pub help : List ℕ

abbrev entry : (name : String) → ℕ → (help : String) → Command
entry name handler help = record { name = codes name; handler = handler; help = codes help }

unfoldable pub shell_commands : List Command
shell_commands =
    entry "help" 0 "help                          - Show help"
    ∷ entry "clear" 1 "clear                         - Clear the terminal"
    ∷ entry "ticks" 2 "ticks                         - Show timer ticks"
    ∷ entry "echo" 3 "echo <message>                - Print text"
    ∷ entry "history" 4 "history                       - Show command history"
    ∷ entry "calc" 5 "calc <a> <op> <b>             - Simple arithmetic"
    ∷ entry "colorshell" 6 "colorshell                    - Enter ColorShell mode"
    ∷ entry "quit" 7 "quit colorshell               - Exit ColorShell mode"
    ∷ entry "shutdown" 8 "shutdown                      - Attempt shutdown"
    ∷ entry "halt" 9 "halt                          - Halt the system"
    ∷ entry "debug" 10 "debug dividezero              - Trigger divide error"
    ∷ entry "meminfo" 11 "meminfo                       - Show E820 memory map"
    ∷ entry "heap" 12 "heap                          - Show heap pointers"
    ∷ entry "alloc" 13 "alloc <?size>                 - Allocate memory from heap. Default 64 bytes"
    ∷ entry "pmminfo" 14 "pmminfo                       - Show physical memory manager info"
    ∷ entry "memcpy" 15 "memcpy                        - Test memcpy"
    ∷ entry "memset" 16 "memset                        - Test memset"
    ∷ entry "runtime" 17 "runtime                       - Show system runtime"
    ∷ entry "strlen" 18 "strlen <string>               - String length"
    ∷ entry "strcmp" 19 "strcmp <a> <b>                - Compare strings"
    ∷ entry "strncmp" 20 "strncmp <a> <b> <n>           - Compare prefix"
    ∷ entry "pageinfo" 21 "pageinfo <virtaddr>            - Show physical mapping"
    ∷ entry "maptest" 22 "maptest                        - Map and test one page"
    ∷ []

-- The loop of `find_command`.
unfoldable pub find_in : List ℕ → List Command → Option Command
find_in name [] = none
find_in name (c ∷ commands) =
    let rest = find_in name commands in if strequal c.name name then some c else rest

unfoldable pub find_command : List ℕ → Option Command
find_command name = find_in name shell_commands

-- The loop of `register_all_commands`.
unfoldable pub register_commands :
    List Command → (ℕ → List Node) → Memory → Option ((ℕ → List Node) × Memory)
register_commands [] table m = some (table, m)
register_commands (c ∷ commands) table m = do
  (table, m) ← register_command c.name c.handler c.help table m
  register_commands commands table m

unfoldable pub register_all_commands : (ℕ → List Node) → Memory → Option ((ℕ → List Node) × Memory)
register_all_commands table m = register_commands shell_commands table m

-- The nodes of a bucket, for `cmd_help_new` without an argument.
unfoldable pub write_helps : List Node → Terminal → Terminal
write_helps [] t = t
write_helps (e ∷ nodes) t = write_helps nodes (write_line e.help_text t)

-- The loop of `cmd_help_new` with an argument.
unfoldable pub find_help : List ℕ → List Node → Option (List ℕ)
find_help key [] = none
find_help key (e ∷ nodes) =
    let rest = find_help key nodes in if strequal e.key key then some e.help_text else rest

unfoldable pub cmd_help_new : List (List ℕ) → Terminal → Devices → Terminal
cmd_help_new argv t d =
    if length argv == 1
    then for_range table_size 0 (λ i t. write_helps (d.table i) t) t
    else elim (find_help (arg 1 argv d.stray) (lookup_command_node (arg 1 argv d.stray) d.table)) [
      | none ↦ terminal_write "Command not found\n" t
      | some help_text ↦ write_line help_text t
    ]

-- `shell_history_print` prints on the terminal it is given.
unfoldable pub cmd_history : Shell → Terminal → Terminal
cmd_history s t = (history_print (record s { terminal = t })).terminal

abbrev pub Handler : Type 0
Handler = List (List ℕ) → Shell → Terminal → Devices → Outcome

unfoldable pub handlers : List Handler
handlers =
    (λ argv s t d. returned (cmd_help_new argv t d) d)
    ∷ (λ argv s t d. returned (cmd_clear t) d)
    ∷ (λ argv s t d. returned (cmd_ticks d.timer t) d)
    ∷ (λ argv s t d. returned (cmd_echo argv t) d)
    ∷ (λ argv s t d. returned (cmd_history s t) d)
    ∷ (λ argv s t d. returned (cmd_calc argv t) d)
    ∷ (λ argv s t d. returned (cmd_colorshell t) d)
    ∷ (λ argv s t d. returned (cmd_quit argv d.stray t) d)
    ∷ (λ argv s t d. returned (cmd_shutdown t) d)
    ∷ (λ argv s t d. cmd_halt t d)
    ∷ (λ argv s t d. cmd_debug argv t d)
    ∷ (λ argv s t d. returned (cmd_meminfo d.info d.uninitialised t) d)
    ∷ (λ argv s t d. returned (cmd_heap d.memory d.uninitialised t) d)
    ∷ (λ argv s t d. cmd_alloc argv t d)
    ∷ (λ argv s t d. returned (cmd_pmminfo d.memory.paging.pmm d.uninitialised t) d)
    ∷ (λ argv s t d. cmd_memcpy t d)
    ∷ (λ argv s t d. cmd_memset t d)
    ∷ (λ argv s t d. returned (cmd_runtime d.timer t) d)
    ∷ (λ argv s t d. returned (cmd_strlen argv t) d)
    ∷ (λ argv s t d. returned (cmd_strcmp argv t) d)
    ∷ (λ argv s t d. returned (cmd_strncmp argv t) d)
    ∷ (λ argv s t d. cmd_pageinfo argv t d)
    ∷ (λ argv s t d. cmd_maptest t d)
    ∷ []

-- A call through a function pointer.
unfoldable pub call : ℕ → Handler
call handler = get_or handlers handler (λ argv s t d. returned t d)

unfoldable pub shell_execute_command : List (List ℕ) → Shell → Terminal → Devices → Outcome
shell_execute_command [] s t d = returned t d
shell_execute_command (name ∷ argv) s t d = elim (find_command name) [
  | some cmd ↦ call cmd.handler (name ∷ argv) s t d
  | none ↦
      returned (t |> say "Unknown command: " "error" |> Terminal.write name |> terminal_write "\n")
        d
]
