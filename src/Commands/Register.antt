-- ===== src/Commands/Register.antt =====
-- Registering all commands while the bootstrap heap has room for them.
use frewozet.Base.{
  ℕ, ◌+◌, ◌*◌, ◌≡◌, refl, subst, arith, some, List, [], ◌∷◌, length, leb, Bool, true, leb→le, ◌&&◌,
}
use frewozet.CString.{strlen}
use frewozet.CommandTable.{Node, add_node}
use frewozet.CommandTable.Room.{register_command-Room}
use frewozet.Memory.{Memory}
use frewozet.Memory.Room.{Room}
use frewozet.Commands.Table.{Command, shell_commands, register_commands, register_all_commands}
use frewozet.Commands.Lookup.{and_both, add_all, all_added}

-- No name has more than 15 characters.
short : List Command → Bool
short [] = true
short (c ∷ commands) = leb (strlen c.name) 15 && short commands

register_commands-Room :
    (commands : List Command) (table : ℕ → List Node) (space : ℕ) (m : Memory)
    → short commands ≡ true
    → Room (space + 32 * length commands) m
    → (m' : Memory) × (register_commands commands table m ≡ some (add_all commands table, m'))
      × Room space m'
unfolding register_commands short
register_commands-Room [] table space m names r = (m, refl, subst (λ n. Room n m) (omega arith) r)
register_commands-Room (c ∷ commands) table space m names r =
    let (first, others) = and_both (leb (strlen c.name) 15) (short commands) names in
    let here : Room (space + 32 * length commands + 16 + 16) m =
      subst (λ n. Room n m) {x = space + 32 * length (c ∷ commands)} (omega arith) r in
    let (m1, done, r1) =
      register_command-Room c.name c.handler c.help table (space + 32 * length commands) m
        (leb→le (strlen c.name) 15 first) here in
    let (m', more, r') =
      register_commands-Room commands (add_node c.name c.handler c.help table) space m1 others r1 in
    (m', rw done more, r')

short_names : short shell_commands ≡ true
unfolding short shell_commands strlen
short_names = refl

-- The bootstrap heap needs 32 bytes for each of the 23 commands.
pub register_all_commands-Room :
    (table : ℕ → List Node) (m : Memory)
    → Room 736 m
    → (m' : Memory) × (register_all_commands table m ≡ some (all_added table, m')) × Room 0 m'
unfolding register_all_commands shell_commands
register_all_commands-Room table m r = register_commands-Room shell_commands table 0 m short_names r
