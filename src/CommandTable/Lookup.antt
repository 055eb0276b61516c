-- ===== src/CommandTable/Lookup.antt =====
-- Looking a command up after one was registered.
use frewozet.Base.{
  ℕ, ◌%◌, ◌≡◌, refl, ap, some, List, if◌then◌else◌, ==_refl, ==→eq, Bool-cases, inl, inr, ◌==◌,
  Option, none, Option-cases, ◌∙◌, ◌||◌,
}
use frewozet.CString.{strequal, strdup}
use frewozet.CString.Compare.{NulFree, strequal_lem}
use frewozet.Memory.{Memory, kmalloc}
use frewozet.CommandTable.{
  Node, table_size, hash, add_node, node_size, register_command, find_command, lookup_command,
}

pub lookup_command-add_node :
    (key key' : List ℕ) (value : ℕ) (help_text : List ℕ) (table : ℕ → List Node)
    → NulFree key
    → NulFree key'
    → lookup_command key' (add_node key value help_text table)
      ≡ (if strequal key key' then some value else lookup_command key' table)
unfolding lookup_command add_node find_command
lookup_command-add_node key key' value help_text table p q = elim (Bool-cases (strequal key key')) [
  | inl same ↦
      let e : key ≡ key' = (strequal_lem key key' p q).0 same in
      rw (← e, ==_refl (hash key % table_size), (strequal_lem key key p p).1 refl) refl
  | inr different ↦ elim (Bool-cases (hash key % table_size == hash key' % table_size)) [
    | inl together ↦
        rw (together, different)
          (ap (λ i. find_command key' (table i))
            (==→eq (hash key % table_size) (hash key' % table_size) together))
    | inr apart ↦ rw (apart, different) refl
  ]
]

-- A command that was registered was added.
pub register_command-add_node :
    (key : List ℕ) (value : ℕ) (help_text : List ℕ) (table table' : ℕ → List Node) (m m' : Memory)
    → register_command key value help_text table m ≡ some (table', m')
    → table' ≡ add_node key value help_text table
unfolding register_command
register_command-add_node key value help_text table table' m m' e =
    elim (Option-cases (kmalloc node_size m)) [
      | inl fault ↦
          let never : ◌≡◌ {A = Option ((ℕ → List Node) × Memory)} none (some (table', m')) =
            rw fault at e in
          cc
      | inr ((p, m1), got) ↦ elim (Option-cases (strdup key m1)) [
        | inl fault ↦
            let never : ◌≡◌ {A = Option ((ℕ → List Node) × Memory)} none (some (table', m')) =
              rw (got, fault) at e in
            cc
        | inr ((q, m2), copied) ↦ elim (Bool-cases (p == 0 || q == 0)) [
          | inl null ↦
              let never : ◌≡◌ {A = Option ((ℕ → List Node) × Memory)} none (some (table', m')) =
                rw (got, copied, null) at e in
              cc
          | inr given ↦
              let done : ◌≡◌ {A = Option ((ℕ → List Node) × Memory)}
                  (some (add_node key value help_text table, m2)) (some (table', m')) =
                rw (got, copied, given) at e in
              cc
        ]
      ]
    ]

-- After a command was registered without a fault, its key gives it, and any other key what it gave
-- before.
pub lookup_command-register_command :
    (key key' : List ℕ) (value : ℕ) (help_text : List ℕ) (table table' : ℕ → List Node)
    (m m' : Memory)
    → NulFree key
    → NulFree key'
    → register_command key value help_text table m ≡ some (table', m')
    → lookup_command key' table'
      ≡ (if strequal key key' then some value else lookup_command key' table)
lookup_command-register_command key key' value help_text table table' m m' p q done =
    ap (lookup_command key') (register_command-add_node key value help_text table table' m m' done)
    ∙ lookup_command-add_node key key' value help_text table p q
