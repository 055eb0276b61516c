-- ===== src/Paging/Tables.antt =====
-- The invariant of the page tables, and the two writes that change them: a new table and a cell.
use frewozet.Base.{
  ℕ, ◌+◌, ◌*◌, ◌/◌, ◌%◌, ◌^◌, ◌<◌, ◌≡◌, ◌≢◌, arith, ◌==◌, if◌then◌else◌, List, update,
}
use frewozet.Pmm
use frewozet.Pmm.{Pmm}
use frewozet.Pmm.Bitmap.{used, Writes}
use frewozet.Pmm.Alloc.{in_run}
use frewozet.Pmm.Free
use frewozet.Paging.{Paging, zero_words}
use frewozet.Paging.Entry.{pde, cell, pte_of, entry}

-- Each present table lies in a page of its own, which the direct map reaches and the page
-- allocator has handed out; the directory's page is handed out too.
pub record IsValid (s : Paging) : Type 0 where
  pub pages : Pmm.Free.IsValid s.pmm
  pub words : (a : ℕ) → s.mem a < 2 ^ 32
  pub directory : used s.pmm 9 ≡ 1
  pub reached : (i : ℕ) → i < 1024 → pde s.mem i % 2 ≡ 1 → pde s.mem i / 4096 < 1024
  pub taken : (i : ℕ) → i < 1024 → pde s.mem i % 2 ≡ 1 → used s.pmm (pde s.mem i / 4096) ≡ 1
  pub apart : (i : ℕ) → i < 1024 → pde s.mem i % 2 ≡ 1 → pde s.mem i / 4096 ≢ 9
  pub distinct :
      (i j : ℕ)
      → i < 1024
      → j < 1024
      → pde s.mem i % 2 ≡ 1
      → pde s.mem j % 2 ≡ 1
      → i ≢ j
      → pde s.mem i / 4096 ≢ pde s.mem j / 4096

-- What `invlpg` was given does not matter to the tables.
pub IsValid_ignores :
    {s : Paging} (log : List ℕ) → IsValid s → IsValid (record s { invalidated = log })
IsValid_ignores log v = record {
  pages = v.pages;
  words = v.words;
  directory = v.directory;
  reached = v.reached;
  taken = v.taken;
  apart = v.apart;
  distinct = v.distinct;
}

module _ {s : Paging} (v : IsValid s) (va : ℕ) (small : va < 2 ^ 32)
    (here : pde s.mem (va / 2 ^ 22) % 2 ≡ 1) (x : ℕ) where
  abbrev cell_written : ℕ → ℕ
  cell_written = update s.mem (cell s.mem va) x

  -- Writing a cell leaves the directory as it is.
  pde-cell_written : (i : ℕ) → i < 1024 → pde cell_written i ≡ pde s.mem i
  pde-cell_written i h = ground (arith, v.apart (va / 2 ^ 22))

  pub pte_of-cell_written :
      (va' : ℕ)
      → va' < 2 ^ 32
      → pte_of cell_written va' ≡ (if va' / 4096 == va / 4096 then x else pte_of s.mem va')
  pte_of-cell_written va' small' =
      ground (arith, pde-cell_written (va' / 2 ^ 22), v.distinct (va / 2 ^ 22) (va' / 2 ^ 22))

  pub cell_written-IsValid : x < 2 ^ 32 → IsValid (record s { mem = cell_written })
  cell_written-IsValid hx = record {
    pages = v.pages;
    words = λ a. ground (arith, v.words a);
    directory = v.directory;
    reached = λ i h p. ground (arith, pde-cell_written i, v.reached i);
    taken = λ i h p. ground (arith, pde-cell_written i, v.taken i);
    apart = λ i h p. ground (arith, pde-cell_written i, v.apart i);
    distinct =
        λ i j h h' p p' ne. ground (arith, pde-cell_written i, pde-cell_written j, v.distinct i j);
  }

-- Page `k`, which was free, becomes the table behind the directory entry `i`, which was absent.
module _ {s : Paging} (v : IsValid s) (i k flags : ℕ) (in_dir : i < 1024) (near : k < 1024)
    (absent : pde s.mem i % 2 ≡ 0) (free : used s.pmm k ≡ 0) where
  abbrev table_added : ℕ → ℕ
  table_added = update (zero_words s.mem (k * 4096)) (0x9000 + 4 * i) (entry k flags)

  not_directory : k ≢ 9
  not_directory e = ground (arith, v.directory)

  not_table : (j : ℕ) → j < 1024 → pde s.mem j % 2 ≡ 1 → pde s.mem j / 4096 ≢ k
  not_table j h p e = ground (arith, v.taken j)

  pub pde-table_added :
      (j : ℕ) → j < 1024 → pde table_added j ≡ (if i == j then entry k flags else pde s.mem j)
  pde-table_added j h = ground (arith, not_directory)

  -- Nothing becomes mapped: the new table is empty, and no other table is touched.
  pub pte_of-table_added : (va : ℕ) → va < 2 ^ 32 → pte_of table_added va ≡ pte_of s.mem va
  pte_of-table_added va small = ground (
    arith,
    pde-table_added (va / 2 ^ 22),
    not_directory,
    not_table (va / 2 ^ 22),
    v.apart (va / 2 ^ 22),
  )

  module _ {pmm' : Pmm} (w : Writes 1 (in_run k 1) s.pmm pmm') (pages : Pmm.Free.IsValid pmm') where
    pub table_added-IsValid : IsValid (record s { mem = table_added; pmm = pmm' })
    table_added-IsValid = record {
      pages = pages;
      words = λ a. ground (arith, v.words a);
      directory = ground (arith, w.digits 9, v.directory);
      reached = λ j h p. ground (arith, pde-table_added j, v.reached j);
      taken = λ j h p.
          ground (arith, pde-table_added j, v.taken j, w.digits k, w.digits (pde s.mem j / 4096));
      apart = λ j h p. ground (arith, pde-table_added j, v.apart j, not_directory);
      distinct = λ j j' h h' p p' ne. ground (
        arith,
        pde-table_added j,
        pde-table_added j',
        v.distinct j j',
        not_table j,
        not_table j',
      );
    }
