-- ===== src/Tokenizer/Refines.antt =====
-- The tokenizer finds the fields of the line.
use frewozet.Base.{
  ℕ, zero, suc, ◌+◌, ◌≤◌, ◌≡◌, refl, sym, ap, ◌∙◌, subst, false, List, [], ◌∷◌, ◌++◌, append_one,
  length-append, le→leb, gt→leb, length, take, leb, ◌==◌, if◌then◌else◌, arith, ne→==,
}
use frewozet.CString.Compare.{NulFree}
use frewozet.CString.Holds.{Holds}
use frewozet.Tokenizer.{Tokens, is_blank, skip_blanks, take_token, tokens_from, shell_tokenize}
use frewozet.Tokenizer.Fields.{fields, between}
use frewozet.Tokenizer.Blanks.{skip_blanks-Skipped}
use frewozet.Tokenizer.Cut.{take_token-Cut}
use frewozet.Tokenizer.Points.{
  Points, Points-kept, Points-length, take_nil, Points-complete, Points-Cut,
}

-- From any `p` on, where the line has `s` left and `k` more arguments have room, that many rounds are
-- enough for the fields of the rest.
abbrev Reads : (max_args size rounds : ℕ) → Type 0
Reads max_args size rounds =
    (p k : ℕ) (s : List ℕ) (t : Tokens) (words : List (List ℕ))
    → Holds t.buffer p s
    → NulFree s
    → length s ≤ rounds
    → length s ≤ size
    → length words + k ≡ max_args
    → Points t.buffer p t.argv words
    → let t' = tokens_from max_args size rounds p t in
      Points t'.buffer (p + length s) t'.argv (words ++ take k (fields between s))

no_more :
    (p k : ℕ) (t : Tokens) (words : List (List ℕ))
    → Points t.buffer p t.argv words
    → Points t.buffer (p + 0) t.argv (words ++ take k (fields between []))
unfolding fields
no_more p k t words ps =
    Points-complete t.buffer p (p + 0) t.argv words (take k []) (take_nil k) (omega arith) ps

module _ (max_args size rounds : ℕ) (reads : Reads max_args size rounds) where
  -- At an argument, with room for it.
  read_one :
      (p start k c : ℕ) (s : List ℕ) (e : ℕ) (t : Tokens) (words : List (List ℕ))
      → Holds t.buffer start (c ∷ s)
      → NulFree (c ∷ s)
      → is_blank c ≡ false
      → length s ≤ rounds
      → length (c ∷ s) ≤ size
      → length words + suc k ≡ max_args
      → p ≤ start
      → start + length (c ∷ s) ≤ e
      → Points t.buffer p t.argv words
      → let k' = take_token size start t in
        let t' = tokens_from max_args size rounds (k'.0) (k'.1) in
        Points t'.buffer e t'.argv (words ++ take (suc k) (fields between (c ∷ s)))
  read_one p start k c s e t words h f other fuel fits room on far ps =
      let (a, n, word, rest, cut, same, ahead, inside, shorter, further) =
        take_token-Cut size start c s t h f fits other in
      let r = take_token size start t in
      let t' = tokens_from max_args size rounds (r.0) (r.1) in
      let read =
        reads (r.0) k rest (r.1) (words ++ word ∷ []) cut.holds cut.free (omega (arith, shorter))
          (omega (arith, shorter)) (omega (arith, length-append words (word ∷ [])))
          (Points-Cut p a n word rest t (r.0) (r.1) words cut (omega (arith, ahead)) ps) in
      subst (Points t'.buffer e t'.argv)
        (append_one words word (take k (fields between rest))
          ∙ ap (λ fs. words ++ take (suc k) fs) (sym same))
        (Points-kept t'.argv ((words ++ word ∷ []) ++ take k (fields between rest))
          ((r.0) + length rest) e t'.buffer t'.buffer read (omega (arith, cut.left, inside))
          (λ w b at end. at))

  -- Behind the blanks.
  read_behind :
      (p start k : ℕ) (s : List ℕ) (e : ℕ) (t : Tokens) (words : List (List ℕ))
      → Holds t.buffer start s
      → NulFree s
      → is_blank (t.buffer start) ≡ false
      → length s ≤ suc rounds
      → length s ≤ size
      → length words + k ≡ max_args
      → p ≤ start
      → start + length s ≤ e
      → Points t.buffer p t.argv words
      → let r = take_token size start t in
        let t' =
          if t.buffer start == 0
          then t
          else if leb max_args (length t.argv)
          then t
          else tokens_from max_args size rounds (r.0) (r.1) in
        Points t'.buffer e t'.argv (words ++ take k (fields between s))
  unfolding fields
  read_behind p start k [] e t words h f other fuel fits room on far ps =
      rw h (Points-complete t.buffer p e t.argv words (take k []) (take_nil k) (omega arith) ps)
  read_behind p start zero (c ∷ s) e t words h f other fuel fits room on far ps =
      rw
        (
          h.0,
          ne→== c 0 (omega (arith, f.0)),
          le→leb max_args (length t.argv) (omega (arith, Points-length t.argv words p t.buffer ps)),
        )
        (Points-complete t.buffer p e t.argv words [] refl (omega arith) ps)
  read_behind p start (suc k) (c ∷ s) e t words h f other fuel fits room on far ps =
      rw
        (
          h.0,
          ne→== c 0 (omega (arith, f.0)),
          gt→leb max_args (length t.argv) (omega (arith, Points-length t.argv words p t.buffer ps)),
        )
        (read_one p start k c s e t words h f (sym (ap is_blank h.0) ∙ other) (omega arith) fits
          room on far ps)

  read_more : Reads max_args size (suc rounds)
  unfolding tokens_from
  read_more p k [] t words h f fuel fits room ps = rw h (no_more p k t words ps)
  read_more p k (c ∷ s) t words h f fuel fits room ps =
      let (s', b) = skip_blanks-Skipped t.buffer size p (c ∷ s) h f fits in
      let t' = tokens_from max_args size (suc rounds) p t in
      subst (λ fs. Points t'.buffer (p + length (c ∷ s)) t'.argv (words ++ take k fs)) b.same
        (rw (h.0, ne→== c 0 (omega (arith, f.0)))
          (read_behind p (skip_blanks size p t.buffer) k s' (p + length (c ∷ s)) t words b.holds
            b.free b.stopped (omega (arith, b.length_left, b.onward))
            (omega (arith, b.length_left, b.onward)) room b.onward (omega (arith, b.length_left))
            ps))

read_none : (max_args size : ℕ) → Reads max_args size 0
unfolding tokens_from
read_none max_args size p k [] t words h f fuel fits room ps = no_more p k t words ps
read_none max_args size p k (c ∷ s) t words h f fuel fits room ps = absurd (omega arith)

tokens_from-Points : (max_args size rounds : ℕ) → Reads max_args size rounds
tokens_from-Points max_args size zero = read_none max_args size
tokens_from-Points max_args size (suc rounds) =
    read_more max_args size rounds (tokens_from-Points max_args size rounds)

-- `shell_tokenize` finds the fields of the line, the first `max_args` of them: its pointers are at
-- them, each ended by a NUL in the buffer no later than the line ends. As many rounds as the line has
-- characters are enough for each of its loops.
pub shell_tokenize-fields :
    (size input max_args : ℕ) (s : List ℕ) (buffer : ℕ → ℕ)
    → Holds buffer input s
    → NulFree s
    → length s ≤ size
    → let t = shell_tokenize size input max_args buffer in
      Points t.buffer (input + length s) t.argv (take max_args (fields between s))
unfolding shell_tokenize
shell_tokenize-fields size input max_args s buffer h f fits =
    tokens_from-Points max_args size size input max_args s (record { argv = []; buffer = buffer })
      [] h f fits fits (omega arith) tt
