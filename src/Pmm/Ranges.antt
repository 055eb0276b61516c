-- ===== src/Pmm/Ranges.antt =====
-- `pmm_mark_range_used` and `pmm_mark_range_free` of pmm.c.
use frewozet.Base.{
  ℕ, zero, suc, ◌+◌, ◌*◌, ◌/◌, ◌^◌, ◌<◌, ◌≡◌, refl, ◌∙◌, Bool, inl, inr, arith, ◌&&◌, not, ltb, leb,
  ◌==◌, u32, Bool-cases, lt→ltb, ge→ltb, gt→leb, le→leb,
}
use frewozet.Pmm.{
  Pmm, clear_bit, align_up_u32, align_down_u32, page_size, max_pages, test_bit, use_page,
  mark_used_loop, mark_range_used, unuse_page, mark_free_loop, mark_range_free,
}
use native.Mathlib.Decide.{dec_lt}
use frewozet.Pmm.Bitmap.{
  used-lt, test_bit-used, set_bit-Writes, clear_bit-Writes, Writes, Writes-mono, Writes-trans,
  Writes-refl, align_down_page, align_up_page,
}

-- A tracked page from `lo` up to `hi`, `hi` left out.
abbrev pub between : ℕ → ℕ → ℕ → ℕ → Bool
between total lo hi page = ltb page total && (leb lo page && ltb page hi)

use_page-Writes :
    (page : ℕ) (p : Pmm) → Writes 1 (λ j. ltb j p.total_pages && (page == j)) p (use_page page p)
unfolding use_page
use_page-Writes page p = elim (Bool-cases (ltb page p.total_pages && (test_bit p page == 0))) [
  | inl clear ↦ rw clear (Writes-mono (set_bit-Writes page p) (λ j. ground arith))
  | inr skip ↦
      rw skip
        (Writes-mono (Writes-refl 1 p) (λ j. ground (arith, test_bit-used p page, used-lt p page)))
]

unuse_page-Writes :
    (page : ℕ) (p : Pmm) → Writes 0 (λ j. ltb j p.total_pages && (page == j)) p (unuse_page page p)
unfolding unuse_page
unuse_page-Writes page p =
    elim (Bool-cases (ltb page p.total_pages && not (test_bit p page == 0))) [
      | inl taken ↦ rw taken (Writes-mono (clear_bit-Writes page p) (λ j. ground arith))
      | inr skip ↦ rw skip (
          Writes-mono (Writes-refl 0 p) (λ j. ground (arith, test_bit-used p page, used-lt p page)))
    ]

own_page : (k : ℕ) → k * 4096 / 4096 ≡ k
own_page k = omega arith

next_page : (k : ℕ) → k + 1 < 2 ^ 20 → u32 (k * 4096 + 4096) ≡ (k + 1) * 4096
next_page k h = omega arith

-- A round at page `k` and the rounds after it.
round :
    {v k e : ℕ} {p p' q : Pmm}
    → k < e
    → Writes v (λ j. ltb j p.total_pages && (k == j)) p p'
    → Writes v (between p'.total_pages (k + 1) e) p' q
    → Writes v (between p.total_pages k e) p q
round h w w' = Writes-mono (Writes-trans w w') (λ j. ground (arith, w.total_pages))

-- The loops from page `k` up to page `e`, on enough fuel.
mark_used_loop-Writes :
    (fuel k e : ℕ) (p : Pmm)
    → e < 2 ^ 20
    → e < k + fuel
    → Writes 1 (between p.total_pages k e) p (mark_used_loop fuel (k * 4096) (e * 4096) p)
unfolding mark_used_loop
mark_used_loop-Writes zero k e p small enough = Writes-mono (Writes-refl 1 p) (λ j. ground arith)
mark_used_loop-Writes (suc fuel) k e p small enough = elim (dec_lt k e) [
  | yes more ↦
      rw (lt→ltb (k * 4096) (e * 4096) (omega arith), own_page k, next_page k (omega arith))
        (round more (use_page-Writes k p)
          (mark_used_loop-Writes fuel (k + 1) e (use_page k p) small (omega arith)))
  | no done ↦
      rw (ge→ltb (k * 4096) (e * 4096) (omega arith))
        (Writes-mono (Writes-refl 1 p) (λ j. ground arith))
]

mark_free_loop-Writes :
    (fuel k e : ℕ) (p : Pmm)
    → e < 2 ^ 20
    → e < k + fuel
    → Writes 0 (between p.total_pages k e) p (mark_free_loop fuel (k * 4096) (e * 4096) p)
unfolding mark_free_loop
mark_free_loop-Writes zero k e p small enough = Writes-mono (Writes-refl 0 p) (λ j. ground arith)
mark_free_loop-Writes (suc fuel) k e p small enough = elim (dec_lt k e) [
  | yes more ↦
      rw (lt→ltb (k * 4096) (e * 4096) (omega arith), own_page k, next_page k (omega arith))
        (round more (unuse_page-Writes k p)
          (mark_free_loop-Writes fuel (k + 1) e (unuse_page k p) small (omega arith)))
  | no done ↦
      rw (ge→ltb (k * 4096) (e * 4096) (omega arith))
        (Writes-mono (Writes-refl 0 p) (λ j. ground arith))
]

-- `pmm_mark_range_used` marks exactly the tracked pages that the byte range touches, as long as
-- rounding its end up to a page does not pass the end of the address space.
pub mark_range_used-Writes :
    (start_addr end_addr : ℕ) (p : Pmm)
    → start_addr < 2 ^ 32
    → end_addr + 4095 < 2 ^ 32
    → Writes 1
        (between p.total_pages (start_addr / 4096) ((end_addr + 4095) / 4096))
        p
        (mark_range_used start_addr end_addr p)
unfolding mark_range_used
mark_range_used-Writes s e p hs he =
    rw (align_down_page s hs, align_up_page e he)
      (mark_used_loop-Writes (max_pages + 1) (s / 4096) ((e + 4095) / 4096) p (omega arith)
        (omega arith))

-- `pmm_mark_range_free` frees exactly the tracked pages that lie whole in the byte range, for a
-- range that starts below the last page and ends inside the 32-bit address space.
pub mark_range_free-Writes :
    (start_addr end_addr : ℕ) (p : Pmm)
    → start_addr + 4095 < 2 ^ 32
    → end_addr < 2 ^ 32
    → Writes 0
        (between p.total_pages ((start_addr + 4095) / 4096) (end_addr / 4096))
        p
        (mark_range_free start_addr end_addr p)
unfolding mark_range_free
mark_range_free-Writes s e p hs he =
    rw (align_up_page s hs, align_down_page e he)
      (elim (dec_lt ((s + 4095) / 4096) (e / 4096)) [
        | yes more ↦ rw (gt→leb (e / 4096 * 4096) ((s + 4095) / 4096 * 4096) (omega arith)) (
            mark_free_loop-Writes (max_pages + 1) ((s + 4095) / 4096) (e / 4096) p (omega arith)
              (omega arith))
        | no done ↦
            rw (le→leb (e / 4096 * 4096) ((s + 4095) / 4096 * 4096) (omega arith))
              (Writes-mono (Writes-refl 0 p) (λ j. ground arith))
      ])

-- A range that ends at address 0 is empty.
pub mark_range_free_to_zero :
    (start_addr : ℕ) (p : Pmm) → start_addr < 2 ^ 32 → mark_range_free start_addr 0 p ≡ p
unfolding mark_range_free align_down_u32
mark_range_free_to_zero s p h = rw (le→leb 0 (align_up_u32 s page_size) (omega arith))

unuse_page-total_pages : (page : ℕ) (p : Pmm) → (unuse_page page p).total_pages ≡ p.total_pages
unfolding unuse_page clear_bit
unuse_page-total_pages page p = ground arith

mark_free_loop-total_pages :
    (fuel addr end : ℕ) (p : Pmm) → (mark_free_loop fuel addr end p).total_pages ≡ p.total_pages
unfolding mark_free_loop
mark_free_loop-total_pages zero addr end p = refl
mark_free_loop-total_pages (suc fuel) addr end p = elim (Bool-cases (ltb addr end)) [
  | inl inside ↦ rw inside (
      mark_free_loop-total_pages fuel (u32 (addr + 4096)) end (unuse_page (addr / 4096) p)
      ∙ unuse_page-total_pages (addr / 4096) p)
  | inr past ↦ rw past refl
]

-- The number of pages is not the range operations' to change.
pub mark_range_free-total_pages :
    (s e : ℕ) (p : Pmm) → (mark_range_free s e p).total_pages ≡ p.total_pages
unfolding mark_range_free
mark_range_free-total_pages s e p =
    elim (Bool-cases (leb (align_down_u32 e 4096) (align_up_u32 s 4096))) [
      | inl empty ↦ rw empty refl
      | inr some_pages ↦ rw some_pages (
          mark_free_loop-total_pages (max_pages + 1) (align_up_u32 s 4096) (align_down_u32 e 4096)
            p)
    ]
