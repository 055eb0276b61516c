-- ===== src/Tokenizer/RoundTrip.antt =====
-- Words that were put into one line.
use frewozet.Base.{
  ap₂, subst, take, ◌≤◌, zero, suc, ℕ, ◌+◌, ◌≡◌, ◌∙◌, refl, ap, false, List, [], ◌∷◌, ◌++◌, length,
  arith,
}
use frewozet.CString.Compare.{NulFree}
use frewozet.CString.Holds.{Holds}
use frewozet.Tokenizer.{is_blank, is_quote, shell_tokenize}
use frewozet.Tokenizer.Points.{Points}
use frewozet.Tokenizer.Refines.{shell_tokenize-fields}
use frewozet.Tokenizer.Fields.{before, from_stop, tail, fields, between, fields-bare}

-- No character of the word is a blank.
abbrev NoBlank : List ℕ → Type 0
NoBlank [] = Unit
NoBlank (c ∷ w) = (is_blank c ≡ false) × NoBlank w

-- A word can stand in a line without quotes: it has no blank, is not empty and begins with no quote.
abbrev pub Bare : List ℕ → Type 0
Bare [] = ⊥
Bare (c ∷ w) = (is_quote c ≡ false) × (is_blank c ≡ false) × NoBlank w

abbrev pub AllBare : List (List ℕ) → Type 0
AllBare [] = Unit
AllBare (w ∷ words) = Bare w × AllBare words

-- A blank in front of each word.
abbrev pub line_of : List (List ℕ) → List ℕ
line_of [] = []
line_of (w ∷ words) = 32 ∷ w ++ line_of words

before-NoBlank :
    (w : List ℕ) (words : List (List ℕ))
    → NoBlank w
    → (before is_blank (w ++ line_of words) ≡ w)
      × (fields between (tail (from_stop is_blank (w ++ line_of words)))
          ≡ fields between (line_of words))
unfolding fields
before-NoBlank [] [] n = (refl, refl)
before-NoBlank [] (v ∷ words) n = (refl, refl)
before-NoBlank (c ∷ w) words n =
    rw n.0 (ap (λ v. c ∷ v) (before-NoBlank w words n.1).0, (before-NoBlank w words n.1).1)

fields-line_of : (words : List (List ℕ)) → AllBare words → fields between (line_of words) ≡ words
unfolding fields
fields-line_of [] b = refl
fields-line_of ([] ∷ words) b = absurd (b.0)
fields-line_of ((c ∷ w) ∷ words) b =
    let (word, behind) = before-NoBlank w words (b.0.2) in
    rw (b.0.1, b.0.0)
      (fields-bare (c ∷ []) (w ++ line_of words)
        ∙ ap₂ (λ v fs. (c ∷ v) ∷ fs) word (behind ∙ fields-line_of words (b.1)))

take_all : (words : List (List ℕ)) (n : ℕ) → length words ≤ n → take n words ≡ words
take_all [] zero h = refl
take_all [] (suc n) h = refl
take_all (w ∷ words) zero h = absurd (omega arith)
take_all (w ∷ words) (suc n) h = ap (λ ws. w ∷ ws) (take_all words n (omega arith))

-- From a line of at most `max_args` words, with a blank in front of each, `shell_tokenize` gives
-- back the words; each has a character, no blank or NUL in it, and no quote in front. The rounds
-- are no fewer than the line has characters.
pub shell_tokenize-line_of :
    (size input max_args : ℕ) (words : List (List ℕ)) (buffer : ℕ → ℕ)
    → AllBare words
    → length words ≤ max_args
    → NulFree (line_of words)
    → length (line_of words) ≤ size
    → Holds buffer input (line_of words)
    → let t = shell_tokenize size input max_args buffer in
      Points t.buffer (input + length (line_of words)) t.argv words
shell_tokenize-line_of size input max_args words buffer b room f fits h =
    let t = shell_tokenize size input max_args buffer in
    subst (Points t.buffer (input + length (line_of words)) t.argv)
      (ap (λ fs. take max_args fs) (fields-line_of words b) ∙ take_all words max_args room)
      (shell_tokenize-fields size input max_args (line_of words) buffer h f fits)
