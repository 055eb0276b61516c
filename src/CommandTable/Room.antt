-- ===== src/CommandTable/Room.antt =====
-- Registering a command while the bootstrap heap has room for its node and its key.
use frewozet.Base.{ℕ, ◌+◌, ◌≤◌, ◌≡◌, refl, arith, some, List, ne→==}
use frewozet.CString.{strlen, strcpy, strdup}
use frewozet.Memory.{Memory}
use frewozet.Memory.Room.{Room, taken, taken-Room, kmalloc-taken}
use frewozet.CommandTable.{Node, add_node, register_command}

strdup-Room :
    (s : List ℕ) (space : ℕ) (m : Memory)
    → strlen s ≤ 15
    → Room (space + 16) m
    → (m' : Memory) × (strdup s m ≡ some (m.bootstrap_heap_current, m')) × Room space m'
unfolding strdup
strdup-Room s space m short r =
    let r' = taken-Room space m r in
    rw
      (
        kmalloc-taken (strlen s + 1) space m (omega arith) (omega (arith, short)) r,
        ne→== m.bootstrap_heap_current 0 (omega (arith, r.not_null)),
      )
      (
        record (taken m) { bytes = strcpy m.bootstrap_heap_current s (taken m).bytes },
        refl,
        record {
          bootstrap = r'.bootstrap;
          multiple = r'.multiple;
          aligned = r'.aligned;
          not_null = r'.not_null;
          room = r'.room;
          limit = r'.limit;
        },
      )

-- Two blocks of sixteen bytes are enough for a command whose name has at most 15 characters.
pub register_command-Room :
    (key : List ℕ) (value : ℕ) (help_text : List ℕ) (table : ℕ → List Node) (space : ℕ) (m : Memory)
    → strlen key ≤ 15
    → Room (space + 16 + 16) m
    → (m' : Memory) × (register_command key value help_text table m
        ≡ some (add_node key value help_text table, m'))
      × Room space m'
unfolding register_command
register_command-Room key value help_text table space m short r =
    let r1 = taken-Room (space + 16) m r in
    let (m', copied, r') = strdup-Room key space (taken m) short r1 in
    (
      m',
      rw
          (
            kmalloc-taken 16 (space + 16) m (omega arith) (omega arith) r,
            copied,
            ne→== m.bootstrap_heap_current 0 (omega (arith, r.not_null)),
            ne→== (taken m).bootstrap_heap_current 0 (omega (arith, r1.not_null)),
          )
          refl,
      r',
    )
