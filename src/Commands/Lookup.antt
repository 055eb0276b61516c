-- ===== src/Commands/Lookup.antt =====
-- The hash table finds the commands that a search of `shell_commands` finds.
use frewozet.Base.{
  ℕ, ◌≡◌, ◌∙◌, refl, subst, Bool, true, false, ◌&&◌, Option, none, some, List, [], ◌∷◌, ltb,
  if◌then◌else◌, ap, Option-cases, Bool-cases, inl, inr, ltb→lt,
}
use frewozet.CString.{strequal, strcmp}
use frewozet.CString.Compare.{NulFree, strequal_lem}
use frewozet.CommandTable.{Node, add_node, register_command, lookup_command}
use frewozet.CommandTable.Lookup.{lookup_command-add_node, register_command-add_node}
use frewozet.Memory.{Memory}
use frewozet.Commands.Table.{
  Command, shell_commands, find_in, find_command, register_commands, register_all_commands,
}

-- The names are strings, and no name is that of a later command.
abbrev pub Apart : List Command → Type 0
Apart [] = Unit
Apart (c ∷ commands) = NulFree c.name × (find_in c.name commands ≡ none) × Apart commands

abbrev pub or_else : Option Command → Option ℕ → Option ℕ
or_else none other = other
or_else (some c) other = some c.handler

-- What registering leaves in the table.
abbrev pub add_all : List Command → (ℕ → List Node) → ℕ → List Node
add_all [] table = table
add_all (c ∷ commands) table = add_all commands (add_node c.name c.handler c.help table)

register_commands-add_all :
    (commands : List Command) (table table' : ℕ → List Node) (m m' : Memory)
    → register_commands commands table m ≡ some (table', m')
    → table' ≡ add_all commands table
unfolding register_commands
register_commands-add_all [] table table' m m' e =
    let done : ◌≡◌ {A = Option ((ℕ → List Node) × Memory)} (some (table, m)) (some (table', m')) =
      e in
    cc
register_commands-add_all (c ∷ commands) table table' m m' e =
    elim (Option-cases (register_command c.name c.handler c.help table m)) [
      | inl fault ↦
          let never : ◌≡◌ {A = Option ((ℕ → List Node) × Memory)} none (some (table', m')) =
            rw fault at e in
          cc
      | inr ((table1, m1), done) ↦
          register_commands-add_all commands table1 table' m1 m' (rw done at e)
          ∙ ap (add_all commands)
              (register_command-add_node c.name c.handler c.help table table1 m m1 done)
    ]

abbrev pub all_added : (ℕ → List Node) → ℕ → List Node
all_added table = add_all shell_commands table

pub register_all_commands-all_added :
    (table table' : ℕ → List Node) (m m' : Memory)
    → register_all_commands table m ≡ some (table', m')
    → table' ≡ all_added table
unfolding register_all_commands
register_all_commands-all_added table table' m m' e =
    register_commands-add_all shell_commands table table' m m' e

add_all-lookup :
    (commands : List Command) (table : ℕ → List Node) (name : List ℕ)
    → Apart commands
    → NulFree name
    → lookup_command name (add_all commands table)
      ≡ or_else (find_in name commands) (lookup_command name table)
unfolding find_in
add_all-lookup [] table name a f = refl
add_all-lookup (c ∷ commands) table name a f =
    let table' = add_node c.name c.handler c.help table in
    add_all-lookup commands table' name (a.2) f ∙ found
  where
    registered :
        lookup_command name (add_node c.name c.handler c.help table)
        ≡ (if strequal c.name name then some c.handler else lookup_command name table)
    registered = lookup_command-add_node c.name name c.handler c.help table (a.0) f

    found :
        or_else
          (find_in name commands)
          (lookup_command name (add_node c.name c.handler c.help table))
        ≡ or_else (find_in name (c ∷ commands)) (lookup_command name table)
    found = elim (Bool-cases (strequal c.name name)) [
      | inl same ↦
          let alone : find_in name commands ≡ none =
            subst (λ n. find_in n commands ≡ none) ((strequal_lem c.name name (a.0) f).0 same)
              (a.1) in
          rw (alone, registered, same) refl
      | inr other ↦ rw (registered, other) refl
    ]

-- A test of the names, run on the table.
nul_free : List ℕ → Bool
nul_free [] = true
nul_free (c ∷ s) = let rest = nul_free s in if ltb 0 c then rest else false

nul_free-NulFree : (s : List ℕ) → nul_free s ≡ true → NulFree s
unfolding nul_free
nul_free-NulFree [] h = tt
nul_free-NulFree (c ∷ s) h = elim (Bool-cases (ltb 0 c)) [
  | inl byte ↦ (ltb→lt 0 c byte, nul_free-NulFree s (rw byte at h))
  | inr zero ↦ let never : false ≡ true = rw zero at h in cc
]

is_none : Option Command → Bool
is_none none = true
is_none (some c) = false

apart : List Command → Bool
apart [] = true
apart (c ∷ commands) = nul_free c.name && (is_none (find_in c.name commands) && apart commands)

pub and_both : (a b : Bool) → (a && b) ≡ true → (a ≡ true) × (b ≡ true)
and_both true b h = (refl, h)
and_both false b h = cc

is_none-eq : (o : Option Command) → is_none o ≡ true → o ≡ none
unfolding is_none
is_none-eq none h = refl
is_none-eq (some c) h = cc

apart-Apart : (commands : List Command) → apart commands ≡ true → Apart commands
unfolding apart
apart-Apart [] h = tt
apart-Apart (c ∷ commands) h =
    let (free, more) =
      and_both (nul_free c.name) (is_none (find_in c.name commands) && apart commands) h in
    let (alone, rest) = and_both (is_none (find_in c.name commands)) (apart commands) more in
    (
      nul_free-NulFree c.name free,
      is_none-eq (find_in c.name commands) alone,
      apart-Apart commands rest,
    )

pub shell_commands-Apart : Apart shell_commands
unfolding apart nul_free is_none find_in shell_commands strequal strcmp
shell_commands-Apart = apart-Apart shell_commands refl

pub lookup_command-all_added :
    (name : List ℕ) (table : ℕ → List Node)
    → NulFree name
    → lookup_command name (all_added table)
      ≡ or_else (find_command name) (lookup_command name table)
unfolding find_command
lookup_command-all_added name table f =
    add_all-lookup shell_commands table name shell_commands-Apart f

-- After all commands were registered without a fault, `lookup_command` in the hash table gives the
-- handler that `find_command` of `shell_execute_command` finds in the array, or else what the table
-- had before.
pub lookup_command-find_command :
    (name : List ℕ) (table table' : ℕ → List Node) (m m' : Memory)
    → NulFree name
    → register_all_commands table m ≡ some (table', m')
    → lookup_command name table' ≡ or_else (find_command name) (lookup_command name table)
lookup_command-find_command name table table' m m' f done =
    ap (lookup_command name) (register_all_commands-all_added table table' m m' done)
    ∙ lookup_command-all_added name table f
