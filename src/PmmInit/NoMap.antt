-- ===== src/PmmInit/NoMap.antt =====
-- The page allocator without an E820 memory map.
use frewozet.Base.{ℕ, ◌≡◌, refl, false, some}
use frewozet.Memory.{Memory}
use frewozet.Memory.Room.{bootstrap_of}
use frewozet.RamMapper.{Info, available}
use frewozet.PmmInit.{pmm_init}

-- `pmm_init` logs the error and leaves the allocator and the heap as they are.
pub pmm_init-no_map :
    (info : Info) (kernel_end : ℕ) (m : Memory)
    → available info ≡ false
    → (m' : Memory) × (pmm_init info kernel_end m ≡ some m')
      × (m'.paging ≡ m.paging)
      × (bootstrap_of m' ≡ bootstrap_of m)
unfolding pmm_init
pmm_init-no_map info kernel_end m h = rw h (_, refl, refl, refl)
