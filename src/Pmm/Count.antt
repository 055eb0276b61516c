-- ===== src/Pmm/Count.antt =====
-- `pmm_get_free_pages`, `pmm_get_used_pages` and the byte counts of pmm.c, and
-- `pmm_alloc_page_below`.
use native.Mathlib.Decide.{ℕ_discrete}
use frewozet.Base.{
  ℕ, zero, suc, ◌+◌, ◌-◌, ◌*◌, ◌/◌, ◌^◌, ◌≤◌, ◌<◌, ◌≡◌, refl, ◌∙◌, min, max, inl, inr, ◌⊎◌, ◌≢◌,
  arith, ltb, ◌==◌, if◌then◌else◌, u32, Bool-cases, Option, none, some, ne→==,
}
use frewozet.Pmm.{
  Pmm, page_size, test_bit, set_bit, alloc_contiguous, alloc_page_below, find_page, count_free,
  get_free_pages,
}
use frewozet.Pmm.Bitmap.{used, used-lt, test_bit-used, Writes, set_bit-Writes}
use frewozet.Pmm.Alloc.{in_run, AllFree, Allocates, alloc_contiguous-Allocates}
use frewozet.Pmm.Free.{IsValid, Allocates-IsValid, run_start-ne_zero}

-- How many of the `n` pages from `page` on are free.
abbrev pub free_in : Pmm → ℕ → ℕ → ℕ
free_in p page zero = 0
free_in p page (suc n) = (1 - used p page) + free_in p (page + 1) n

free_in-le : (n page : ℕ) (p : Pmm) → free_in p page n ≤ n
free_in-le zero page p = omega arith
free_in-le (suc n) page p = omega (arith, free_in-le n (page + 1) p)

count_free-free_in :
    (n page acc : ℕ) (p : Pmm) → acc + n < 2 ^ 32 → count_free p n page acc ≡ acc + free_in p page n
unfolding count_free
count_free-free_in zero page acc p small = omega arith
count_free-free_in (suc n) page acc p small = elim (Bool-cases (test_bit p page == 0)) [
  | inl clear ↦
      rw (clear, next)
        (count_free-free_in n (page + 1) (acc + 1) p (omega arith)
          ∙ ground (arith, test_bit-used p page))
  | inr taken ↦ rw taken (
      count_free-free_in n (page + 1) acc p (omega arith)
      ∙ ground (arith, test_bit-used p page, used-lt p page))
]
  where
    next : u32 (acc + 1) ≡ acc + 1
    next = omega arith

-- `pmm_get_free_pages` counts the free tracked pages.
pub get_free_pages-free_in : {p : Pmm} → IsValid p → get_free_pages p ≡ free_in p 0 p.total_pages
unfolding get_free_pages
get_free_pages-free_in {p} v =
    rw (ne→== p.bitmap 0 v.allocated)
      (count_free-free_in p.total_pages 0 0 p (omega (arith, v.tracked)) ∙ omega arith)

free_in-Writes :
    {p q : Pmm} (s n : ℕ)
    → Writes 1 (in_run s n) p q
    → AllFree p s n
    → (r page : ℕ) → free_in p page r ≡ free_in q page r + (min (page + r) (s + n) - max page s)
free_in-Writes s n w all zero page = omega arith
free_in-Writes s n w all (suc r) page =
    ground (arith, free_in-Writes s n w all r (page + 1), w.digits page, all page)

-- A successful `pmm_alloc_contiguous` lowers `pmm_get_free_pages` by the pages it hands out; a
-- failed one leaves it.
pub get_free_pages-alloc_contiguous :
    (n : ℕ) {p : Pmm}
    → IsValid p
    → n ≢ 0
    → let (a, q) = alloc_contiguous n p in
      get_free_pages q + (if a == 0 then 0 else n) ≡ get_free_pages p
get_free_pages-alloc_contiguous n {p} v hn =
    outcome (alloc_contiguous n p) (alloc_contiguous-Allocates n p v.allocated hn v.tracked)
  where
    outcome :
        (r : ℕ × Pmm)
        → Allocates n p r
        → get_free_pages r.1 + (if r.0 == 0 then 0 else n) ≡ get_free_pages p
    outcome (a, q) (inl (e, same, no_run)) = rw (e, same) (omega arith)
    outcome (a, q) (inr (s, e, fit, w)) = ground (
      arith,
      get_free_pages-free_in v,
      get_free_pages-free_in (Allocates-IsValid n (a, q) v (inr (s, e, fit, w))),
      free_in-Writes s n w fit.1 p.total_pages 0,
      run_start-ne_zero v hn fit,
      w.total_pages,
      fit.0,
    )

-- The lowest free page from `lo` on among `n`, or that all of them are used.
abbrev pub LowestFree : Pmm → ℕ → ℕ → Option ℕ → Type 0
LowestFree p lo n none = (page : ℕ) → lo ≤ page → page < lo + n → used p page ≡ 1
LowestFree p lo n (some page) =
    (lo ≤ page)
    × (page < lo + n)
    × (used p page ≡ 0)
    × ((other : ℕ) → lo ≤ other → other < page → used p other ≡ 1)

LowestFree-used :
    (p : Pmm) (lo n : ℕ) (o : Option ℕ)
    → used p lo ≡ 1
    → LowestFree p (lo + 1) n o
    → LowestFree p lo (suc n) o
LowestFree-used p lo n none taken all = λ page h h'. elim (ℕ_discrete page lo) [
  | yes first ↦ rw first taken
  | no later ↦ all page (omega arith) (omega arith)
]
LowestFree-used p lo n (some page) taken (h, h', clear, below) = (
  omega arith,
  omega arith,
  clear,
  λ other o o'. elim (ℕ_discrete other lo) [
    | yes first ↦ rw first taken
    | no later ↦ below other (omega arith) (omega arith)
  ],
)

find_page-LowestFree : (p : Pmm) (n lo : ℕ) → LowestFree p lo n (find_page p n lo)
unfolding find_page
find_page-LowestFree p zero lo = λ page h h'. absurd (omega arith)
find_page-LowestFree p (suc n) lo = elim (Bool-cases (test_bit p lo == 0)) [
  | inl clear ↦ rw clear (
    omega arith,
    omega arith,
    ground (arith, test_bit-used p lo),
    λ other h h'. absurd (omega arith),
  )
  | inr taken ↦ rw taken (
      LowestFree-used p lo n (find_page p n (lo + 1))
        (ground (arith, test_bit-used p lo, used-lt p lo)) (find_page-LowestFree p n (lo + 1)))
]

-- The tracked pages whose whole 4 KiB lie below `limit`.
abbrev pub pages_below : ℕ → Pmm → ℕ
pages_below limit p = min (limit / 4096) p.total_pages

abbrev pub AllocatesBelow : ℕ → Pmm → ℕ × Pmm → Type 0
AllocatesBelow limit p (a, q) =
    ((a ≡ 0) × (q ≡ p) × LowestFree p 0 (pages_below limit p) none)
    ⊎ ((page : ℕ) × (a ≡ page * 4096)
        × (a + 4096 ≤ limit)
        × LowestFree p 0 (pages_below limit p) (some page)
        × Writes 1 (λ j. page == j) p q)

-- `pmm_alloc_page_below` takes the lowest free page, if it lies whole below the limit and is
-- tracked; otherwise it returns null, all such pages are used, and nothing changes.
pub alloc_page_below-LowestFree :
    (limit : ℕ) {p : Pmm} → IsValid p → AllocatesBelow limit p (alloc_page_below limit p)
unfolding alloc_page_below
alloc_page_below-LowestFree limit {p} v =
    rw (ne→== p.bitmap 0 v.allocated, clamp)
      (outcome (find_page p (pages_below limit p) 0)
        (find_page-LowestFree p (pages_below limit p) 0))
  where
    clamp :
        (if ltb p.total_pages (limit / page_size) then p.total_pages else limit / page_size)
        ≡ pages_below limit p
    clamp = ground arith

    outcome :
        (o : Option ℕ)
        → LowestFree p 0 (pages_below limit p) o
        → AllocatesBelow limit p
            (elim o [ none ↦ (0, p) | some page ↦ (u32 (page * page_size), set_bit page p) ])
    outcome none h = inl (refl, refl, h)
    outcome (some page) h = inr (
      page,
      omega (arith, h.1, v.tracked),
      omega (arith, h.1, v.tracked),
      h,
      set_bit-Writes page p,
    )
