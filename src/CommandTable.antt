-- ===== src/CommandTable.antt =====
-- command_hashtable.c: the table of the shell's commands. A function pointer is a number, a bucket
-- is the list of its nodes. `none` is a page fault: `register_command` writes through the null that
-- `kmalloc` gives for a node, and the next `strcmp` in the bucket reads the null that `strdup` gives
-- for a key; the two are not told apart.
pub mod Lookup
pub mod Room
mod Tests
use frewozet.Base.{
  ℕ, ◌+◌, ◌-◌, ◌*◌, ◌^◌, ◌%◌, Option, none, some, List, [], ◌∷◌, ltb, if◌then◌else◌, update, u32,
  ◌==◌, ◌||◌, ◌>>=◌,
}
use frewozet.CString.{strequal, strdup}
use frewozet.Memory.{Memory, kmalloc}

pub record Node : Type 0 where
  pub key : List ℕ
  pub value : ℕ
  pub help_text : List ℕ

abbrev pub table_size : ℕ
table_size = 100

-- `char` is signed: a byte above 127 counts as what it is less than 0, modulo 2 ^ 32.
unfoldable pub add_chars : List ℕ → ℕ → ℕ
add_chars [] h = h
add_chars (c ∷ key) h =
    add_chars key (u32 (h + 739061 * (if ltb c 128 then c else c + 2 ^ 32 - 256)))

unfoldable pub hash : List ℕ → ℕ
hash key = add_chars key 0

-- `sizeof(Node)`: four words.
abbrev pub node_size : ℕ
node_size = 16

-- The assignments to the node, and to the bucket it goes in front of.
unfoldable pub add_node :
    (key : List ℕ) (value : ℕ) (help_text : List ℕ) → (ℕ → List Node) → ℕ → List Node
add_node key value help_text table =
    let index = hash key % table_size in
    update table index (record { key = key; value = value; help_text = help_text } ∷ table index)

unfoldable pub register_command :
    (key : List ℕ) (value : ℕ) (help_text : List ℕ)
    → (ℕ → List Node)
    → Memory
    → Option ((ℕ → List Node) × Memory)
register_command key value help_text table m = do
  (e, m) ← kmalloc node_size m
  (copy, m) ← strdup key m
  if e == 0 || copy == 0 then none else some (add_node key value help_text table, m)

-- The loop of `lookup_command`.
unfoldable pub find_command : List ℕ → List Node → Option ℕ
find_command key [] = none
find_command key (e ∷ nodes) =
    let rest = find_command key nodes in if strequal e.key key then some e.value else rest

unfoldable pub lookup_command : List ℕ → (ℕ → List Node) → Option ℕ
lookup_command key table = find_command key (table (hash key % table_size))

-- The nodes of the bucket: a `Node*` from which the caller follows `next`, [] for null.
unfoldable pub lookup_command_node : List ℕ → (ℕ → List Node) → List Node
lookup_command_node key table = table (hash key % table_size)
