-- ===== src/Commands/Help.antt =====
-- The command `help` with the name of a command.
use frewozet.Base.{
  ℕ, ◌%◌, ◌≡◌, ◌∙◌, refl, ap, subst, Option, none, some, List, [], ◌∷◌, if◌then◌else◌, ==_refl,
  ==→eq, ◌==◌, arith, Bool-cases, inl, inr, length, ne→==, suc,
}
use frewozet.CString.{strequal}
use frewozet.CString.Compare.{NulFree, strequal_lem}
use frewozet.CommandTable.{Node, table_size, hash, add_node, lookup_command_node}
use frewozet.Memory.{Memory}
use frewozet.Terminal.{Terminal, write_line}
use frewozet.Commands.{Devices, terminal_write}
use frewozet.Commands.Table.{
  Command, shell_commands, find_in, find_command, register_all_commands, find_help, cmd_help_new,
}
use frewozet.Commands.Lookup.{add_all, register_all_commands-all_added, Apart, shell_commands-Apart}

abbrev help_in : List ℕ → (ℕ → List Node) → Option (List ℕ)
help_in name table = find_help name (lookup_command_node name table)

abbrev help_or : Option Command → Option (List ℕ) → Option (List ℕ)
help_or none other = other
help_or (some c) other = some c.help

help_in-add_node :
    (key name : List ℕ) (value : ℕ) (help_text : List ℕ) (table : ℕ → List Node)
    → NulFree key
    → NulFree name
    → help_in name (add_node key value help_text table)
      ≡ (if strequal key name then some help_text else help_in name table)
unfolding lookup_command_node add_node find_help
help_in-add_node key name value help_text table p q = elim (Bool-cases (strequal key name)) [
  | inl same ↦
      let e : key ≡ name = (strequal_lem key name p q).0 same in
      rw (← e, ==_refl (hash key % table_size), (strequal_lem key key p p).1 refl) refl
  | inr different ↦ elim (Bool-cases (hash key % table_size == hash name % table_size)) [
    | inl together ↦
        rw (together, different)
          (ap (λ i. find_help name (table i))
            (==→eq (hash key % table_size) (hash name % table_size) together))
    | inr apart ↦ rw (apart, different) refl
  ]
]

help_in-add_all :
    (commands : List Command) (table : ℕ → List Node) (name : List ℕ)
    → Apart commands
    → NulFree name
    → help_in name (add_all commands table) ≡ help_or (find_in name commands) (help_in name table)
unfolding find_in
help_in-add_all [] table name a f = refl
help_in-add_all (c ∷ commands) table name a f =
    let table' = add_node c.name c.handler c.help table in
    let registered = help_in-add_node c.name name c.handler c.help table (a.0) f in
    help_in-add_all commands table' name (a.2) f ∙ elim (Bool-cases (strequal c.name name)) [
      | inl same ↦
          let alone : find_in name commands ≡ none =
            subst (λ n. find_in n commands ≡ none) ((strequal_lem c.name name (a.0) f).0 same)
              (a.1) in
          rw (alone, registered, same) refl
      | inr other ↦ rw (registered, other) refl
    ]

abbrev pub help_line : Option Command → Terminal → Terminal
help_line none t = terminal_write "Command not found\n" t
help_line (some c) t = write_line c.help t

abbrev show_help : Terminal → Option (List ℕ) → Terminal
show_help t none = terminal_write "Command not found\n" t
show_help t (some help_text) = write_line help_text t

show_help-help_or :
    (t : Terminal) (o : Option Command) → show_help t (help_or o none) ≡ help_line o t
show_help-help_or t none = refl
show_help-help_or t (some c) = refl

cmd_help_new-show_help :
    (help name : List ℕ) (argv : List (List ℕ)) (t : Terminal) (d : Devices)
    → cmd_help_new (help ∷ name ∷ argv) t d ≡ show_help t (help_in name d.table)
unfolding cmd_help_new
cmd_help_new-show_help help name argv t d =
    rw (ne→== (suc (suc (length argv))) 1 (omega arith))
      (elim (help_in name d.table) [ none ↦ refl | some text ↦ refl ])

-- After all commands were registered in an empty table without a fault, `help` with a name prints the
-- line of the command that `find_command` finds in the array, and says so when there is none.
pub cmd_help_new-find_command :
    (help name : List ℕ) (argv : List (List ℕ)) (t : Terminal) (d : Devices) (m m' : Memory)
    → NulFree name
    → register_all_commands (λ i. []) m ≡ some (d.table, m')
    → cmd_help_new (help ∷ name ∷ argv) t d ≡ help_line (find_command name) t
unfolding find_command find_help lookup_command_node
cmd_help_new-find_command help name argv t d m m' f done =
    cmd_help_new-show_help help name argv t d
    ∙ ap (λ table. show_help t (help_in name table))
        (register_all_commands-all_added (λ i. []) d.table m m' done)
    ∙ ap (show_help t) (help_in-add_all shell_commands (λ i. []) name shell_commands-Apart f)
    ∙ show_help-help_or t (find_in name shell_commands)
