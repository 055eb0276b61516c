-- ===== src/Tokenizer/Blanks.antt =====
-- The loop of the tokenizer that passes over blanks.
use frewozet.Base.{
  ℕ, zero, suc, ◌+◌, ◌≤◌, ◌≡◌, refl, ap, ◌∙◌, false, List, [], ◌∷◌, length, arith, Bool-cases, inl,
  inr,
}
use frewozet.CString.Compare.{NulFree}
use frewozet.CString.Holds.{Holds}
use frewozet.Tokenizer.{is_blank, skip_blanks}
use frewozet.Tokenizer.Fields.{fields, between}

-- Behind the blanks, at `q`, the line goes on with `s'`.
pub record Skipped (buffer : ℕ → ℕ) (p : ℕ) (s : List ℕ) (q : ℕ) (s' : List ℕ) : Type 0 where
  pub holds : Holds buffer q s'
  pub free : NulFree s'
  pub same : fields between s' ≡ fields between s
  pub length_left : q + length s' ≡ p + length s
  pub onward : p ≤ q
  pub stopped : is_blank (buffer q) ≡ false

at_stop :
    (buffer : ℕ → ℕ) (p : ℕ) (s : List ℕ)
    → Holds buffer p s
    → NulFree s
    → is_blank (buffer p) ≡ false
    → Skipped buffer p s p s
at_stop buffer p s h f stop = record {
  holds = h;
  free = f;
  same = refl;
  length_left = refl;
  onward = omega arith;
  stopped = stop;
}

pub skip_blanks-Skipped :
    (buffer : ℕ → ℕ) (n p : ℕ) (s : List ℕ)
    → Holds buffer p s
    → NulFree s
    → length s ≤ n
    → (s' : List ℕ) × Skipped buffer p s (skip_blanks n p buffer) s'
unfolding skip_blanks fields
skip_blanks-Skipped buffer zero p [] h f fuel = ([], at_stop buffer p [] h f (ap is_blank h))
skip_blanks-Skipped buffer (suc n) p [] h f fuel =
    rw h ([], at_stop buffer p [] h f (ap is_blank h))
skip_blanks-Skipped buffer zero p (c ∷ s) h f fuel = absurd (omega arith)
skip_blanks-Skipped buffer (suc n) p (c ∷ s) h f fuel = elim (Bool-cases (is_blank c)) [
  | inl blank ↦
      let (s', k) = skip_blanks-Skipped buffer n (p + 1) s h.1 f.1 (omega arith) in
      rw (h.0, blank)
        (
          s',
          record {
            holds = k.holds;
            free = k.free;
            same = k.same ∙ rw blank refl;
            length_left = omega (arith, k.length_left);
            onward = omega (arith, k.onward);
            stopped = k.stopped;
          },
        )
  | inr other ↦ rw (h.0, other) (c ∷ s, at_stop buffer p (c ∷ s) h f (ap is_blank h.0 ∙ other))
]
