-- ===== src/Kernel/Typing.antt =====
-- A line that is typed after the start.
use frewozet.Base.{ℕ, ◌≤◌, ◌≡◌, ◌∙◌, ap, subst, sym, some, List, [], ◌∷◌, ◌++◌, length, take}
use frewozet.Commands.Table.{Command, find_command, call}
use frewozet.Commands.Lookup.{all_added}
use frewozet.Shell.{Shell}
use frewozet.Shell.Invariant.{Fits}
use frewozet.Tokenizer.Fields.{fields, between}
use frewozet.System.{running, max_args, end_line, arguments, finish}
use frewozet.System.Enter.{HoldsLine}
use frewozet.System.Keys.{press_keys}
use frewozet.System.Typing.{TypesLine, press_keys-command}
use frewozet.Kernel.{Boot, Kernel, kmain}
use frewozet.Kernel.Start.{reached-Ready}

-- After a start that reaches the endless loop, with no command registered before, typing a line and
-- Enter calls the command that its first field names, with the line's first sixteen fields as its
-- arguments, and then prints a new prompt. The line has at most 127 characters, which the keys give
-- in the state of shift and caps lock that the kernel starts with; the history's buffers hold lines
-- that fit, as zeros do.
pub press_keys-kmain :
    (b : Boot) (k k' : Kernel) (keys line name : List ℕ) (argv : List (List ℕ)) (cmd : Command)
    → ((i : ℕ) → Fits (k.system.shell.history i))
    → k.system.devices.table ≡ (λ i. [])
    → kmain b k ≡ some k'
    → TypesLine k.system.keyboard keys line
    → length line ≤ 127
    → take max_args (fields between line) ≡ name ∷ argv
    → find_command name ≡ some cmd
    → (s : Shell) × HoldsLine line s
      × (let s' = (arguments (end_line s)).1 in
          press_keys (keys ++ 0x1C ∷ []) (running k'.system)
          ≡ finish s' k'.system.keyboard
              (call cmd.handler (name ∷ argv) s' s'.terminal k'.system.devices))
press_keys-kmain b k k' keys line name argv cmd entries none_yet up types short split found =
    let ready = reached-Ready b k k' entries up in
    press_keys-command k'.system keys line name argv cmd ready.shell.line ready.empty
      (subst (λ keyboard. TypesLine keyboard keys line) (sym ready.keyboard) types) short split
      (ready.commands ∙ ap all_added none_yet) found
