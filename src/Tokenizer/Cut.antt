-- ===== src/Tokenizer/Cut.antt =====
-- Cutting one argument out of the line.
use frewozet.Base.{
  ℕ, zero, suc, ◌+◌, ◌≤◌, ◌<◌, ◌≡◌, refl, ◌∙◌, subst, Bool, false, List, [], ◌∷◌, ◌++◌, length,
  update, arith, Bool-cases, inl, inr, ne→==,
}
use frewozet.CString.Compare.{NulFree}
use frewozet.CString.Holds.{Holds}
use frewozet.Tokenizer.{Tokens, is_blank, is_quote, find_end, cut_token, take_token}
use frewozet.Tokenizer.Fields.{before, from_stop, tail, fields, between, fields-bare, fields-quoted}

pub find_end_lem :
    (stop : ℕ → Bool) (buffer : ℕ → ℕ) (n p : ℕ) (s : List ℕ)
    → Holds buffer p s
    → NulFree s
    → length s ≤ n
    → (find_end stop n p buffer ≡ p + length (before stop s))
      × Holds buffer (find_end stop n p buffer) (from_stop stop s)
      × NulFree (from_stop stop s)
unfolding find_end
find_end_lem stop buffer zero p [] h f fuel = (omega arith, h, tt)
find_end_lem stop buffer (suc n) p [] h f fuel = rw h (omega arith, h, tt)
find_end_lem stop buffer zero p (c ∷ s) h f fuel = absurd (omega arith)
find_end_lem stop buffer (suc n) p (c ∷ s) h f fuel = elim (Bool-cases (stop c)) [
  | inl ends ↦ rw (h.0, ne→== c 0 (omega (arith, f.0)), ends) (omega arith, h, f)
  | inr goes ↦
      let k = find_end_lem stop buffer n (p + 1) s h.1 f.1 (omega arith) in
      rw (h.0, ne→== c 0 (omega (arith, f.0)), goes) (omega (arith, k.0), k.1, k.2)
]

-- A buffer that agrees with the line up to the end of its first field, and has a NUL there.
before-Holds :
    (stop : ℕ → Bool) (buffer buffer' : ℕ → ℕ) (p e : ℕ) (s : List ℕ)
    → Holds buffer p s
    → e ≡ p + length (before stop s)
    → ((i : ℕ) → i < e → buffer' i ≡ buffer i)
    → buffer' e ≡ 0
    → Holds buffer' p (before stop s)
before-Holds stop buffer buffer' p e [] h end agree ended =
    subst (λ q. buffer' q ≡ 0) {x = e} (omega (arith, end)) ended
before-Holds stop buffer buffer' p e (c ∷ s) h end agree ended = elim (Bool-cases (stop c)) [
  | inl ends ↦
      let here : e ≡ p + 0 = rw ends at end in
      rw ends (subst (λ q. buffer' q ≡ 0) {x = e} (omega (arith, here)) ended)
  | inr goes ↦
      let there : e ≡ p + suc (length (before stop s)) = rw goes at end in
      rw goes (
        agree p (omega (arith, there)) ∙ h.0,
        before-Holds stop buffer buffer' (p + 1) e s h.1 (omega (arith, there)) agree ended,
      )
]

-- Writing a NUL behind a string, or over its own, leaves it.
pub end-Holds :
    (w : List ℕ) (buffer : ℕ → ℕ) (a e : ℕ)
    → Holds buffer a w
    → a + length w ≤ e
    → Holds (update buffer e 0) a w
end-Holds [] buffer a e h far = ground arith
end-Holds (c ∷ w) buffer a e h far =
    (ground (arith, h.0), end-Holds w buffer (a + 1) e h.1 (omega arith))

-- Writing a NUL in front of a string leaves it.
start-Holds :
    (w : List ℕ) (buffer : ℕ → ℕ) (a e : ℕ)
    → Holds buffer a w
    → e < a
    → Holds (update buffer e 0) a w
start-Holds [] buffer a e h far = ground (arith, h)
start-Holds (c ∷ w) buffer a e h far =
    (ground (arith, h.0), start-Holds w buffer (a + 1) e h.1 (omega arith))

-- What cutting off the argument `word` at `a`, from a line of `size` more characters, leaves at `q`.
pub record Cut (a size : ℕ) (word rest : List ℕ) (t : Tokens) (q : ℕ) (t' : Tokens) : Type 0 where
  pub stored : t'.argv ≡ t.argv ++ a ∷ []
  pub token : Holds t'.buffer a word
  pub holds : Holds t'.buffer q rest
  pub free : NulFree rest
  pub behind : a + length word ≤ q
  pub left : q + length rest ≤ a + size
  pub onward : length rest ≤ size
  pub kept : (w : List ℕ) (b : ℕ) → Holds t.buffer b w → b + length w ≤ a → Holds t'.buffer b w

length_parts :
    (stop : ℕ → Bool) (s : List ℕ) → length (before stop s) + length (from_stop stop s) ≡ length s
length_parts stop [] = refl
length_parts stop (c ∷ s) = ground (arith, length_parts stop s)

module _ (stop : ℕ → Bool) (a : ℕ) (s : List ℕ) (t : Tokens) (h : Holds t.buffer a s) where
  ends_at :
      (e : ℕ) (r : List ℕ)
      → e ≡ a + length (before stop s)
      → Holds t.buffer e r
      → NulFree r
      → length (before stop s) + length r ≡ length s
      → let k = cut_token a e t in Cut a (length s) (before stop s) (tail r) t (k.0) (k.1)
  unfolding cut_token
  ends_at e [] end holds free len = rw holds (record {
    stored = refl;
    token = before-Holds stop t.buffer t.buffer a e s h end (λ i lt. refl) holds;
    holds = holds;
    free = tt;
    behind = omega (arith, end);
    left = omega (arith, end, len);
    onward = omega arith;
    kept = λ w b at far. at;
  })
  ends_at e (c ∷ r) end holds free len =
      rw (holds.0, ne→== c 0 (omega (arith, free.0)))
        (record {
          stored = refl;
          token =
              before-Holds stop t.buffer (update t.buffer e 0) a e s h end (λ i lt. ground arith)
                (ground arith);
          holds = start-Holds r t.buffer (e + 1) e holds.1 (omega arith);
          free = free.1;
          behind = omega (arith, end);
          left = omega (arith, end, len);
          onward = omega (arith, len);
          kept = λ w b at far. end-Holds w t.buffer b e at (omega (arith, end));
        })

  cut_token-Cut :
      (n : ℕ)
      → NulFree s
      → length s ≤ n
      → let k = cut_token a (find_end stop n a t.buffer) t in
        Cut a (length s) (before stop s) (tail (from_stop stop s)) t (k.0) (k.1)
  cut_token-Cut n f fuel =
      let (end, holds, free) = find_end_lem stop t.buffer n a s h f fuel in
      ends_at (find_end stop n a t.buffer) (from_stop stop s) end holds free (length_parts stop s)

-- At a character that is no blank, the argument is the next field.
pub take_token-Cut :
    (n p c : ℕ) (s : List ℕ) (t : Tokens)
    → Holds t.buffer p (c ∷ s)
    → NulFree (c ∷ s)
    → length (c ∷ s) ≤ n
    → is_blank c ≡ false
    → (a : ℕ) × (size : ℕ) × (word : List ℕ) × (rest : List ℕ) × (let k = take_token n p t in
        Cut a size word rest t (k.0) (k.1))
      × (fields between (c ∷ s) ≡ word ∷ fields between rest)
      × (p ≤ a)
      × (a + size ≤ p + length (c ∷ s))
      × (length rest ≤ length s)
      × (p < (take_token n p t).0)
unfolding take_token fields
take_token-Cut n p c s t h f fuel other = elim (Bool-cases (is_quote c)) [
  | inl quote ↦
      rw (h.0, other, quote)
        (
          p + 1,
          length s,
          before is_quote s,
          tail (from_stop is_quote s),
          cut_token-Cut is_quote (p + 1) s t h.1 n f.1 (omega arith),
          fields-quoted [] s,
          omega arith,
          omega arith,
          (cut_token-Cut is_quote (p + 1) s t h.1 n f.1 (omega arith)).onward,
          omega (arith, (cut_token-Cut is_quote (p + 1) s t h.1 n f.1 (omega arith)).behind),
        )
  | inr plain ↦
      let stops : before is_blank (c ∷ s) ≡ c ∷ before is_blank s = rw other refl in
      let goes_on : from_stop is_blank (c ∷ s) ≡ from_stop is_blank s = rw other refl in
      let k = cut_token p (find_end is_blank n p t.buffer) t in
      let cut =
        subst (λ word. Cut p (length (c ∷ s)) word (tail (from_stop is_blank s)) t (k.0) (k.1))
          stops
          (subst
            (λ rest. Cut p (length (c ∷ s)) (before is_blank (c ∷ s)) (tail rest) t (k.0) (k.1))
            goes_on (cut_token-Cut is_blank p (c ∷ s) t h n f fuel)) in
      rw (h.0, other, plain)
        (
          p,
          length (c ∷ s),
          c ∷ before is_blank s,
          tail (from_stop is_blank s),
          cut,
          fields-bare (c ∷ []) s,
          omega arith,
          omega arith,
          omega (arith, cut.left, cut.behind),
          omega (arith, cut.behind),
        )
]
