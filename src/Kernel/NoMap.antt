-- ===== src/Kernel/NoMap.antt =====
-- The start without an E820 memory map.
use frewozet.Base.{◌≤◌, ◌+◌, arith, ◌≡◌, ◌∙◌, refl, ap, false, Option, some}
use frewozet.Memory.{memory_init}
use frewozet.Memory.NoPages.{memory_enable_pmm_backend-no_bitmap, memory_init-keeps}
use frewozet.Paging.Unmap.{remove_identity_map-total}
use frewozet.PmmInit.NoMap.{pmm_init-no_map}
use frewozet.RamMapper.{available}
use frewozet.Memory.Room.{Room, kept-Room, memory_init-Room}
use frewozet.Commands.Register.{register_all_commands-Room}
use frewozet.System.{shell_init}
use frewozet.Kernel.{
  Boot, Kernel, start_terminal, start_paging, start_pmm, start_heap, start_timer, start_shell,
  kmain,
}

-- No memory map, and no page allocator yet.
pub record Bare (k : Kernel) : Type 0 where
  pub no_map : available k.system.devices.info ≡ false
  pub no_bitmap : k.system.devices.memory.paging.pmm.bitmap ≡ 0
  pub bootstrap : k.system.devices.memory.pmm_backend_enabled ≡ false

start_terminal-Bare : (b : Boot) (k : Kernel) → Bare k → Bare (start_terminal b k)
unfolding start_terminal
start_terminal-Bare b k v = record {
  no_map = v.no_map;
  no_bitmap = v.no_bitmap;
  bootstrap = v.bootstrap;
}

abbrev Goes : Option Kernel → Type 0
Goes o = (k' : Kernel) × (o ≡ some k') × Bare k'

start_paging-Goes : (b : Boot) (k : Kernel) → Bare k → Goes (start_paging b k)
unfolding start_paging
start_paging-Goes b k v =
    let (s, done, same) = remove_identity_map-total k.system.devices.memory.paging in
    simp done (
      _,
      refl,
      record {
        no_map = v.no_map;
        no_bitmap = ap (λ p. p.bitmap) same ∙ v.no_bitmap;
        bootstrap = v.bootstrap;
      },
    )

abbrev GoesRoom : Option Kernel → Type 0
GoesRoom o =
    (k' : Kernel) × (o ≡ some k')
    × Room 736 k'.system.devices.memory
    × (k'.system.devices.memory.paging.pmm.bitmap ≡ 0)

-- The kernel ends in the 4 MiB that are mapped, with 751 bytes behind it: 15 to round its end up,
-- and 32 for each command.
pub record Loaded (b : Boot) : Type 0 where
  pub above : 0xC0000000 ≤ b.kernel_end
  pub below : b.kernel_end + 751 ≤ 0xC0400000

start_pmm-Goes : (b : Boot) (k : Kernel) → Loaded b → Bare k → GoesRoom (start_pmm b k)
unfolding start_pmm
start_pmm-Goes b k l v =
    let info = k.system.devices.info in
    let m = memory_init info b.kernel_end k.system.devices.memory in
    let paging = memory_init-keeps info b.kernel_end k.system.devices.memory in
    let room =
      memory_init-Room info b.kernel_end 736 k.system.devices.memory v.no_map v.bootstrap l.above
        (omega (arith, l.below)) in
    let (m', done, paging', same) = pmm_init-no_map info b.kernel_end m v.no_map in
    simp done (
      _,
      refl,
      kept-Room 736 m m' same room,
      ap (λ s. s.pmm.bitmap) (paging' ∙ paging) ∙ v.no_bitmap,
    )

start_shell-Goes :
    (k : Kernel)
    → Room 736 k.system.devices.memory
    → (k' : Kernel) × (start_shell (start_timer k) ≡ some k')
      × (k'.system.devices.memory.pmm_backend_enabled ≡ false)
unfolding start_shell start_timer shell_init
start_shell-Goes k r =
    let (m, done, r') =
      register_all_commands-Room k.system.devices.table k.system.devices.memory r in
    simp done (_, refl, r'.bootstrap)

-- Without a memory map, and with the page allocator and the heap on top of it not started before,
-- `kmain` still reaches its endless loop, with the bootstrap heap, when the kernel is loaded with
-- 751 bytes behind it in the 4 MiB that are mapped: room for the nodes and the names of all
-- commands.
pub kmain-no_map :
    (b : Boot) (k : Kernel)
    → Loaded b
    → Bare k
    → (k' : Kernel) × (kmain b k ≡ some k') × (k'.system.devices.memory.pmm_backend_enabled ≡ false)
unfolding kmain start_heap
kmain-no_map b k l v =
    let (k1, done1, v1) = start_paging-Goes b (start_terminal b k) (start_terminal-Bare b k v) in
    let (k2, done2, room, no_bitmap) = start_pmm-Goes b k1 l v1 in
    let (m, done3, same) =
      memory_enable_pmm_backend-no_bitmap k2.system.devices.memory no_bitmap room.bootstrap in
    simp (done1, done2, done3)
      (start_shell-Goes _ (kept-Room 736 k2.system.devices.memory m same room))
