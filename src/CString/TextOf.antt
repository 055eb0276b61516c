-- ===== src/CString/TextOf.antt =====
-- The string that is in a buffer.
use frewozet.Base.{
  length, ℕ, zero, suc, ◌+◌, ◌<◌, ◌≡◌, ◌≢◌, ◌∙◌, refl, subst, ap, List, [], ◌∷◌, arith, ne→==,
}
use frewozet.CString.{text_of, strlen}
use frewozet.CString.Compare.{NulFree}
use frewozet.CString.Holds.{Holds}

pub Holds-ended :
    (s : List ℕ) (buffer : ℕ → ℕ) (a : ℕ) → Holds buffer a s → buffer (a + strlen s) ≡ 0
unfolding strlen
Holds-ended [] buffer a h = ap buffer (omega arith) ∙ h
Holds-ended (c ∷ s) buffer a h = ap buffer (omega arith) ∙ Holds-ended s buffer (a + 1) h.1

pub Holds-full :
    (s : List ℕ) (buffer : ℕ → ℕ) (a i : ℕ)
    → Holds buffer a s
    → NulFree s
    → i < strlen s
    → buffer (a + i) ≢ 0
unfolding strlen
Holds-full [] buffer a i h f inside = absurd (omega arith)
Holds-full (c ∷ s) buffer a zero h f inside =
    subst (λ k. buffer k ≢ 0) {x = a} (omega arith) (omega (arith, h.0, f.0))
Holds-full (c ∷ s) buffer a (suc i) h f inside =
    subst (λ k. buffer k ≢ 0) (omega arith) (Holds-full s buffer (a + 1) i h.1 f.1 (omega arith))

-- A buffer with `length` bytes and then the first NUL holds a string of that length.
pub record TextAt (buffer : ℕ → ℕ) (a length : ℕ) (s : List ℕ) : Type 0 where
  pub size : strlen s ≡ length
  pub free : NulFree s
  pub holds : Holds buffer a s

pub text_of-TextAt :
    (n a length : ℕ) (buffer : ℕ → ℕ)
    → length < n
    → buffer (a + length) ≡ 0
    → ((i : ℕ) → i < length → buffer (a + i) ≢ 0)
    → TextAt buffer a length (text_of n a buffer)
unfolding text_of strlen
text_of-TextAt zero a length buffer room ended full = absurd (omega arith)
text_of-TextAt (suc n) a zero buffer room ended full =
    let here : buffer a ≡ 0 = ap buffer {x = a} (omega arith) ∙ ended in
    rw here (record { size = refl; free = tt; holds = here })
text_of-TextAt (suc n) a (suc length) buffer room ended full =
    let some : buffer a ≢ 0 = subst (λ k. buffer k ≢ 0) (omega arith) (full 0 (omega arith)) in
    let rest =
      text_of-TextAt n (a + 1) length buffer (omega arith) (ap buffer (omega arith) ∙ ended)
        (λ i h. subst (λ k. buffer k ≢ 0) (omega arith) (full (i + 1) (omega arith))) in
    rw (ne→== (buffer a) 0 some) (record {
      size = omega (arith, rest.size);
      free = (omega (arith, some), rest.free);
      holds = (refl, rest.holds);
    })

pub strlen-length : (s : List ℕ) → strlen s ≡ length s
unfolding strlen
strlen-length [] = refl
strlen-length (c ∷ s) = omega (arith, strlen-length s)

-- Enough rounds read the string that a buffer holds.
pub text_of-Holds :
    (n a : ℕ) (s : List ℕ) (buffer : ℕ → ℕ)
    → Holds buffer a s
    → NulFree s
    → length s < n
    → text_of n a buffer ≡ s
unfolding text_of
text_of-Holds zero a s buffer h f room = absurd (omega arith)
text_of-Holds (suc n) a [] buffer h f room = rw h refl
text_of-Holds (suc n) a (c ∷ s) buffer h f room =
    rw (h.0, ne→== c 0 (omega (arith, f.0)))
      (ap (λ t. c ∷ t) (text_of-Holds n (a + 1) s buffer h.1 f.1 (omega arith)))
