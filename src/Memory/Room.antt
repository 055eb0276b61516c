-- ===== src/Memory/Room.antt =====
-- The bootstrap heap, for small requests while it has room.
use frewozet.Base.{
  ℕ, Bool, sub32, ◌+◌, ◌*◌, ◌/◌, ◌^◌, ◌≤◌, ◌<◌, ◌≡◌, ◌∙◌, refl, ap, arith, false, some, u32, ge→ltb,
  ne→==,
}
use frewozet.Heap.{align_up_size}
use frewozet.Heap.Tiles.{align_up_size_lem}
use frewozet.RamMapper.{Info, available}
use frewozet.Memory.{
  memory_init, find_bootstrap_region, clamp_region, Memory, align_up_u32, bootstrap_alloc_aligned,
  kmalloc,
}
use frewozet.Memory.Bootstrap.{align_up_u32_lem}

-- The bootstrap heap is in use, its pointer is a multiple of 16, and there are `space` bytes to its
-- limit.
pub record Room (space : ℕ) (m : Memory) : Type 0 where
  pub bootstrap : m.pmm_backend_enabled ≡ false
  pub multiple : ℕ
  pub aligned : m.bootstrap_heap_current ≡ multiple * 16
  pub not_null : 0 < m.bootstrap_heap_current
  pub room : m.bootstrap_heap_current + space ≤ m.bootstrap_heap_limit
  pub limit : m.bootstrap_heap_limit < 2 ^ 32

pub taken : Memory → Memory
taken m = record m { bootstrap_heap_current = m.bootstrap_heap_current + 16 }

pub taken-Room : (space : ℕ) (m : Memory) → Room (space + 16) m → Room space (taken m)
unfolding taken
taken-Room space m r = record {
  bootstrap = r.bootstrap;
  multiple = r.multiple + 1;
  aligned = omega (arith, r.aligned);
  not_null = omega arith;
  room = omega (arith, r.room);
  limit = r.limit;
}

pub kmalloc-taken :
    (size space : ℕ) (m : Memory)
    → 0 < size
    → size ≤ 16
    → Room (space + 16) m
    → kmalloc size m ≡ some (m.bootstrap_heap_current, taken m)
unfolding kmalloc bootstrap_alloc_aligned taken
kmalloc-taken size space m some_bytes small r =
    rw
      (
        ne→== size 0 (omega (arith, some_bytes)),
        r.bootstrap,
        rounded,
        aligned,
        ge→ltb m.bootstrap_heap_current m.bootstrap_heap_current (omega arith),
        end,
        ge→ltb (m.bootstrap_heap_current + 16) m.bootstrap_heap_current (omega arith),
        ge→ltb m.bootstrap_heap_limit (m.bootstrap_heap_current + 16) (omega (arith, r.room)),
      )
      refl
  where
    rounded : align_up_size size 16 ≡ 16
    rounded = align_up_size_lem size (omega (arith, small)) ∙ omega (arith, some_bytes, small)

    aligned : align_up_u32 m.bootstrap_heap_current 16 ≡ m.bootstrap_heap_current
    aligned =
        align_up_u32_lem 4 28 m.bootstrap_heap_current refl
        ∙ omega (arith, r.aligned, r.room, r.limit)

    end : u32 (m.bootstrap_heap_current + 16) ≡ m.bootstrap_heap_current + 16
    end = omega (arith, r.room, r.limit)

-- What the bootstrap heap consists of.
abbrev pub bootstrap_of : Memory → ℕ × ℕ × Bool
bootstrap_of m = (m.bootstrap_heap_current, m.bootstrap_heap_limit, m.pmm_backend_enabled)

pub kept-Room :
    (space : ℕ) (m m' : Memory) → bootstrap_of m' ≡ bootstrap_of m → Room space m → Room space m'
kept-Room space m m' same r = record {
  bootstrap = ap (λ b. b.2) same ∙ r.bootstrap;
  multiple = r.multiple;
  aligned = current ∙ r.aligned;
  not_null = omega (arith, current, r.not_null);
  room = omega (arith, current, limit, r.room);
  limit = omega (arith, limit, r.limit);
}
  where
    current : m'.bootstrap_heap_current ≡ m.bootstrap_heap_current
    current = ap (λ b. b.0) same

    limit : m'.bootstrap_heap_limit ≡ m.bootstrap_heap_limit
    limit = ap (λ b. b.1) same

-- Without a memory map the bootstrap heap goes from the kernel's end to the end of the 4 MiB that are
-- mapped.
pub memory_init-Room :
    (info : Info) (kernel_end space : ℕ) (m : Memory)
    → available info ≡ false
    → m.pmm_backend_enabled ≡ false
    → 0xC0000000 ≤ kernel_end
    → kernel_end + 15 + space ≤ 0xC0400000
    → Room space (memory_init info kernel_end m)
unfolding memory_init find_bootstrap_region clamp_region
memory_init-Room info kernel_end space m no_map off low high =
    rw (no_map, align_up_u32_lem 4 28 (sub32 kernel_end 0xC0000000) refl)
      (record {
        bootstrap = off;
        multiple = (kernel_end + 15) / 16;
        aligned = omega (arith, low, high);
        not_null = omega (arith, low, high);
        room = omega (arith, low, high);
        limit = omega arith;
      })
