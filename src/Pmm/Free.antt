-- ===== src/Pmm/Free.antt =====
-- `pmm_free_contiguous` of pmm.c, the invariant of the allocator, and the count of free pages.
use native.Mathlib.Decide.{dec_lt, ℕ_discrete}
use frewozet.Base.{
  ℕ, zero, suc, ◌+◌, ◌*◌, ◌/◌, ◌%◌, ◌≤◌, ◌<◌, ◌≡◌, refl, subst, ◌∙◌, sym, Bool, false, inl, inr,
  ◌⊎◌, ◌≢◌, arith, ◌&&◌, ltb, ◌==◌, if◌then◌else◌, u32, Bool-cases, none, some, eq→==, ne→==,
  le→leb, gt→leb,
}
use frewozet.Pmm.{Pmm, max_pages, clear_bit, test_bit, clear_run, free_contiguous, alloc_contiguous}
use frewozet.Pmm.Bitmap.{
  used, test_bit-used, clear_bit-Writes, Writes, Writes-mono, Writes-trans, Writes-refl,
}
use frewozet.Pmm.Alloc.{in_run, FirstFit, Allocates, alloc_contiguous-Allocates}

-- The bitmap is there, it tracks no more pages than the address space has, and page 0, whose
-- address would be the null pointer, is never free.
pub record IsValid (p : Pmm) : Type 0 where
  pub allocated : p.bitmap ≢ 0
  pub tracked : p.total_pages ≤ max_pages
  pub zero_used : used p 0 ≡ 1

clear_page-Writes :
    (page : ℕ) (p : Pmm)
    → Writes 0 (λ j. page == j) p (if test_bit p page == 0 then p else clear_bit page p)
clear_page-Writes page p = elim (Bool-cases (test_bit p page == 0)) [
  | inl clear ↦ rw clear (Writes-mono (Writes-refl 0 p) (λ j. ground (arith, test_bit-used p page)))
  | inr taken ↦ rw taken (clear_bit-Writes page p)
]

clear_run-Writes :
    (n page : ℕ) (p : Pmm)
    → p.total_pages ≤ max_pages
    → Writes 0 (λ j. ltb j p.total_pages && in_run page n j) p (clear_run page n p)
unfolding clear_run
clear_run-Writes zero page p small = Writes-mono (Writes-refl 0 p) (λ j. ground arith)
clear_run-Writes (suc n) page p small = elim (dec_lt page p.total_pages) [
  | yes inside ↦
      let w = clear_page-Writes page p in
      rw (gt→leb p.total_pages page inside, next inside)
        (Writes-mono
          (Writes-trans w (
            clear_run-Writes n (page + 1) (if test_bit p page == 0 then p else clear_bit page p)
              (omega (arith, w.total_pages))))
          (λ j. ground (arith, w.total_pages)))
  | no outside ↦
      rw (le→leb p.total_pages page (omega arith))
        (Writes-mono (Writes-refl 0 p) (λ j. ground arith))
]
  where
    next : page < p.total_pages → u32 (page + 1) ≡ page + 1
    next h = omega arith

-- Freeing `n` pages from the address of a tracked page on, other than page 0, frees exactly the
-- tracked pages among them.
pub free_contiguous-Writes :
    (s n : ℕ) (p : Pmm)
    → p.bitmap ≢ 0
    → p.total_pages ≤ max_pages
    → s ≢ 0
    → s < p.total_pages
    → n ≢ 0
    → Writes 0 (λ j. ltb j p.total_pages && in_run s n j) p (free_contiguous (s * 4096) n p)
unfolding free_contiguous
free_contiguous-Writes s n p hb small hs inside hn =
    rw
      (
        ne→== p.bitmap 0 hb,
        ne→== (s * 4096) 0 (omega arith),
        ne→== n 0 hn,
        eq→== (s * 4096 % 4096) 0 (omega arith),
        index,
        gt→leb p.total_pages s inside,
      )
      (clear_run-Writes n s p small)
  where
    index : s * 4096 / 4096 ≡ s
    index = omega arith

-- `pmm_free_contiguous` ignores a null or unaligned address, an address past the tracked pages and
-- a count of zero: then nothing changes.
pub free_contiguous_ignores :
    (addr n : ℕ) (p : Pmm)
    → (addr ≡ 0) ⊎ (n ≡ 0) ⊎ (addr % 4096 ≢ 0) ⊎ (p.total_pages ≤ addr / 4096)
    → free_contiguous addr n p ≡ p
unfolding free_contiguous
free_contiguous_ignores addr n p bad = ground arith

IsValid-Writes :
    {v : ℕ} {at : ℕ → Bool} {p q : Pmm}
    → IsValid p
    → Writes v at p q
    → ((at 0 ≡ false) ⊎ (v ≡ 1))
    → IsValid q
IsValid-Writes {at} ok w spared = record {
  allocated = λ e. ok.allocated (sym w.bitmap ∙ e);
  tracked = omega (arith, w.total_pages, ok.tracked);
  zero_used = ground (arith, w.digits 0, ok.zero_used);
}

-- No call of `pmm_free_contiguous` breaks the invariant, whatever its arguments are.
pub free_contiguous-IsValid :
    (addr n : ℕ) {p : Pmm} → IsValid p → IsValid (free_contiguous addr n p)
free_contiguous-IsValid addr n {p} v = elim (ℕ_discrete addr 0) [
  | yes null ↦ ignored (inl null)
  | no given ↦ elim (ℕ_discrete n 0) [
    | yes nothing ↦ ignored (inr (inl nothing))
    | no some' ↦ elim (ℕ_discrete (addr % 4096) 0) [
      | no crooked ↦ ignored (inr (inr (inl crooked)))
      | yes straight ↦ elim (dec_lt (addr / 4096) p.total_pages) [
        | no outside ↦ ignored (inr (inr (inr (omega arith))))
        | yes inside ↦
            subst (λ a. IsValid (free_contiguous a n p)) (omega arith)
              (IsValid-Writes v
                (free_contiguous-Writes (addr / 4096) n p v.allocated v.tracked (omega arith) inside
                  some')
                (inl (ground arith)))
      ]
    ]
  ]
]
  where
    ignored :
        (addr ≡ 0) ⊎ (n ≡ 0) ⊎ (addr % 4096 ≢ 0) ⊎ (p.total_pages ≤ addr / 4096)
        → IsValid (free_contiguous addr n p)
    ignored bad = rw (free_contiguous_ignores addr n p bad) v

-- Page 0 is used, so no run that is handed out starts there.
pub run_start-ne_zero : {n s : ℕ} {p : Pmm} → IsValid p → n ≢ 0 → FirstFit p n (some s) → s ≢ 0
run_start-ne_zero {s} {p} v hn fit z =
    omega (arith, fit.1 0 (omega arith) (omega arith), v.zero_used)

pub Allocates-IsValid : (n : ℕ) {p : Pmm} (r : ℕ × Pmm) → IsValid p → Allocates n p r → IsValid r.1
Allocates-IsValid n (a, q) v (inl (e, same, no_run)) = rw same v
Allocates-IsValid n (a, q) v (inr (s, e, fit, w)) = IsValid-Writes v w (inr refl)

-- Under the invariant `pmm_alloc_contiguous` keeps the invariant; it returns a page's address other
-- than null, or no `n` consecutive tracked pages are free and the state is as it was.
pub alloc_contiguous-IsValid :
    (n : ℕ) {p : Pmm}
    → IsValid p
    → n ≢ 0
    → IsValid (alloc_contiguous n p).1
      × (((alloc_contiguous n p).0 ≢ 0) × ((alloc_contiguous n p).0 % 4096 ≡ 0)
          ⊎ FirstFit p n none × ((alloc_contiguous n p).1 ≡ p))
alloc_contiguous-IsValid n {p} v hn =
    (Allocates-IsValid n (alloc_contiguous n p) v did, outcome (alloc_contiguous n p) did)
  where
    did : Allocates n p (alloc_contiguous n p)
    did = alloc_contiguous-Allocates n p v.allocated hn v.tracked

    outcome :
        (r : ℕ × Pmm)
        → Allocates n p r
        → (r.0 ≢ 0) × (r.0 % 4096 ≡ 0) ⊎ FirstFit p n none × (r.1 ≡ p)
    outcome (a, q) (inl (e, same, no_run)) = inr (no_run, same)
    outcome (a, q) (inr (s, e, fit, w)) =
        inl (omega (arith, run_start-ne_zero v hn fit), omega arith)

-- Giving back what `pmm_alloc_contiguous` returned restores every page.
pub free-alloc :
    (n : ℕ) {p : Pmm}
    → IsValid p
    → n ≢ 0
    → (page : ℕ)
    → let (a, q) = alloc_contiguous n p in used (free_contiguous a n q) page ≡ used p page
free-alloc n {p} v hn page =
    outcome (alloc_contiguous n p) (alloc_contiguous-Allocates n p v.allocated hn v.tracked)
  where
    outcome : (r : ℕ × Pmm) → Allocates n p r → used (free_contiguous r.0 n r.1) page ≡ used p page
    outcome (a, q) (inl (e, same, no_run)) = rw (e, same, free_contiguous_ignores 0 n p (inl refl))
    outcome (a, q) (inr (s, e, fit, w)) =
        rw e (ground (arith, freed.digits page, w.digits page, w.total_pages, fit.1 page))
      where
        freed :
            Writes 0 (λ j. ltb j q.total_pages && in_run s n j) q (free_contiguous (s * 4096) n q)
        freed =
            free_contiguous-Writes s n q (λ b. v.allocated (sym w.bitmap ∙ b))
              (omega (arith, w.total_pages, v.tracked)) (run_start-ne_zero v hn fit)
              (omega (arith, w.total_pages, fit.0)) hn
