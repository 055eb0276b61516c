-- ===== src/Pmm/Alloc.antt =====
-- `pmm_alloc_contiguous` of pmm.c is a first-fit allocator.
use native.Mathlib.Decide.{dec_lt, ℕ_discrete}
use frewozet.Base.{
  ℕ, zero, suc, ◌+◌, ◌-◌, ◌*◌, ◌^◌, ◌≤◌, ◌<◌, ◌≡◌, refl, Bool, inl, inr, ◌⊎◌, ◌≢◌, arith, ◌&&◌, ltb,
  leb, ◌==◌, if◌then◌else◌, u32, Bool-cases, eq→==, ne→==, Option, none, some,
}
use frewozet.Pmm.{
  Pmm, page_size, max_pages, set_bit, test_bit, find_run, set_run, alloc_contiguous, alloc_page,
}
use frewozet.Pmm.Bitmap.{
  used, used-lt, test_bit-used, set_bit-Writes, Writes, Writes-mono, Writes-trans, Writes-refl,
}

-- The pages from `s` on, `n` of them, are free.
abbrev pub AllFree : Pmm → ℕ → ℕ → Type 0
AllFree p s n = (i : ℕ) → s ≤ i → i < s + n → used p i ≡ 0

-- What the search knows before it looks at `page`: `run_len` free pages end there, no longer free
-- run does, and no run that is long enough lies before it.
record Scan (p : Pmm) (count page run_start run_len : ℕ) : Type 0 where
  short : run_len < count
  within : run_len ≤ page
  start : run_len ≢ 0 → run_start + run_len ≡ page
  free : (i : ℕ) → page ≤ i + run_len → i < page → used p i ≡ 0
  longest : (s : ℕ) → s ≤ page → AllFree p s (page - s) → page ≤ s + run_len
  none_before : (s : ℕ) → s + count ≤ page → ¬ AllFree p s count

module _ (p : Pmm) (count : ℕ) where
  -- The first free run of `count` tracked pages, or that there is none.
  abbrev pub FirstFit : Option ℕ → Type 0
  FirstFit none = (s : ℕ) → s + count ≤ p.total_pages → ¬ AllFree p s count
  FirstFit (some s) =
      (s + count ≤ p.total_pages) × AllFree p s count × ((t : ℕ) → t < s → ¬ AllFree p t count)

  Scan-used :
      {page run_start run_len : ℕ}
      → Scan p count page run_start run_len
      → used p page ≡ 1
      → Scan p count (page + 1) run_start 0
  Scan-used {page} c taken = record {
    short = omega (arith, c.short);
    within = omega arith;
    start = λ ne. absurd (ne refl);
    free = λ i h h'. absurd (omega arith);
    longest = λ s h all. elim (dec_lt page s) [
      | yes past ↦ omega arith
      | no inside ↦ absurd (omega (arith, all page (omega arith) (omega arith)))
    ];
    none_before = λ s h all. elim (dec_lt page (s + count)) [
      | yes last ↦ omega (arith, all page (omega (arith, c.short)) (omega arith))
      | no earlier ↦ c.none_before s (omega arith) all
    ];
  }

  Scan-free :
      {page run_start run_len : ℕ}
      → Scan p count page run_start run_len
      → used p page ≡ 0
      → suc run_len ≢ count
      → Scan p count (page + 1) (if run_len == 0 then page else run_start) (run_len + 1)
  Scan-free {page} {run_start} {run_len} c clear more = record {
    short = omega (arith, c.short);
    within = omega (arith, c.within);
    start = λ ne. ground (arith, c.start);
    free = λ i h h'. elim (ℕ_discrete i page) [
      | yes this ↦ rw this clear
      | no other ↦ c.free i (omega arith) (omega arith)
    ];
    longest = λ s h all. elim (dec_lt page s) [
      | yes past ↦ omega arith
      | no inside ↦ omega (arith, c.longest s (omega arith) (λ i hi hi'. all i hi (omega arith)))
    ];
    none_before = λ s h all. elim (dec_lt page (s + count)) [
      | yes last ↦
          more
            (omega (arith, c.short, c.longest s (omega arith) (λ i hi hi'. all i hi (omega arith))))
      | no earlier ↦ c.none_before s (omega arith) all
    ];
  }

  -- The run that ends at `page` is long enough: it is the first.
  FirstFit-last :
      {page run_start run_len : ℕ}
      → Scan p count page run_start run_len
      → used p page ≡ 0
      → suc run_len ≡ count
      → page < p.total_pages
      → FirstFit (some (if run_len == 0 then page else run_start))
  FirstFit-last {page} {run_start} {run_len} c clear full inside = rw start (
    omega (arith, c.within),
    λ i h h'. elim (ℕ_discrete i page) [
      | yes this ↦ rw this clear
      | no other ↦ c.free i (omega (arith, c.within)) (omega (arith, c.within))
    ],
    λ t h all. c.none_before t (omega (arith, c.within)) all,
  )
    where
      start : (if run_len == 0 then page else run_start) ≡ page - run_len
      start = ground (arith, c.start, c.within)

  find_run-FirstFit :
      (rounds page run_start run_len : ℕ)
      → Scan p count page run_start run_len
      → page + rounds ≡ p.total_pages
      → p.total_pages < 2 ^ 32
      → FirstFit (find_run p count rounds page run_start run_len)
  unfolding find_run
  find_run-FirstFit zero page run_start run_len c e small =
      λ s h all. c.none_before s (omega arith) all
  find_run-FirstFit (suc rounds) page run_start run_len c e small =
      elim (Bool-cases (test_bit p page == 0)) [
        | inl clear ↦
            rw (clear, len)
              (elim (ℕ_discrete (run_len + 1) count) [
                | yes full ↦ rw (eq→== (run_len + 1) count full) (
                    FirstFit-last c (ground (arith, test_bit-used p page)) (omega arith)
                      (omega arith))
                | no more ↦ rw (ne→== (run_len + 1) count more) (
                    find_run-FirstFit rounds (page + 1) (if run_len == 0 then page else run_start)
                      (run_len + 1)
                      (Scan-free c (ground (arith, test_bit-used p page)) (omega arith))
                      (omega arith) small)
              ])
        | inr taken ↦ rw taken (
            find_run-FirstFit rounds (page + 1) run_start 0
              (Scan-used c (ground (arith, test_bit-used p page, used-lt p page))) (omega arith)
              small)
      ]
    where
      len : u32 (run_len + 1) ≡ run_len + 1
      len = omega (arith, c.within)

  Scan-start : count ≢ 0 → Scan p count 0 0 0
  Scan-start ne = record {
    short = omega arith;
    within = omega arith;
    start = λ h. absurd (h refl);
    free = λ i h h'. absurd (omega arith);
    longest = λ s h all. omega arith;
    none_before = λ s h all. omega arith;
  }

-- The pages from `s` on, `n` of them.
abbrev pub in_run : ℕ → ℕ → ℕ → Bool
in_run s n page = leb s page && ltb page (s + n)

set_run-Writes : (s n : ℕ) (p : Pmm) → Writes 1 (in_run s n) p (set_run s n p)
unfolding set_run
set_run-Writes s zero p = Writes-mono (Writes-refl 1 p) (λ j. ground arith)
set_run-Writes s (suc n) p =
    Writes-mono (Writes-trans (set_bit-Writes s p) (set_run-Writes (s + 1) n (set_bit s p)))
      (λ j. ground arith)

-- What a call of `pmm_alloc_contiguous` does: it fails, and there was no run of that length, or it
-- takes the first run.
abbrev pub Allocates : ℕ → Pmm → ℕ × Pmm → Type 0
Allocates n p (a, q) =
    ((a ≡ 0) × (q ≡ p) × FirstFit p n none)
    ⊎ ((s : ℕ) × (a ≡ s * 4096) × FirstFit p n (some s) × Writes 1 (in_run s n) p q)

-- On a bitmap of at most 2 ^ 20 pages, `pmm_alloc_contiguous` returns null and changes nothing
-- exactly when no `n` consecutive tracked pages are free; otherwise it returns the address of the
-- first such run, marks its pages used and leaves every other page as it was.
pub alloc_contiguous-Allocates :
    (n : ℕ) (p : Pmm)
    → p.bitmap ≢ 0
    → n ≢ 0
    → p.total_pages ≤ max_pages
    → Allocates n p (alloc_contiguous n p)
unfolding alloc_contiguous
alloc_contiguous-Allocates n p hb hn small =
    rw (ne→== p.bitmap 0 hb, ne→== n 0 hn)
      (outcome (find_run p n p.total_pages 0 0 0)
        (find_run-FirstFit p n p.total_pages 0 0 0 (Scan-start p n hn) (omega arith) (omega arith)))
  where
    outcome :
        (o : Option ℕ)
        → FirstFit p n o
        → Allocates n p (elim o [
          | none ↦ (0, p)
          | some run_start ↦ (u32 (run_start * page_size), set_run run_start n p)
        ])
    outcome none h = inl (refl, refl, h)
    outcome (some s) h = inr (s, omega (arith, h.0), h, set_run-Writes s n p)

-- `pmm_alloc_page` takes the lowest free page, or fails when every tracked page is used.
pub alloc_page-Allocates :
    (p : Pmm) → p.bitmap ≢ 0 → p.total_pages ≤ max_pages → Allocates 1 p (alloc_page p)
unfolding alloc_page
alloc_page-Allocates p hb small = alloc_contiguous-Allocates 1 p hb (omega arith) small

-- Before it is started, the allocator has no page.
pub alloc_page-no_bitmap : (p : Pmm) → p.bitmap ≡ 0 → alloc_page p ≡ (0, p)
unfolding alloc_page alloc_contiguous
alloc_page-no_bitmap p h = rw (eq→== p.bitmap 0 h) refl
