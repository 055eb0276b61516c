-- ===== src/Tokenizer/Fields.antt =====
-- The fields of a line, read off its text: what the tokenizer is to find.
use frewozet.Base.{
  append_one, append_nil, ◌∙◌, ℕ, ◌≡◌, refl, Bool, List, [], ◌∷◌, ◌++◌, if◌then◌else◌, Bool-cases,
  inl, inr,
}
use frewozet.Tokenizer.{is_blank, is_quote}

-- What is in front of the first character that stops, and what is behind it.
abbrev pub before : (stop : ℕ → Bool) → List ℕ → List ℕ
before stop [] = []
before stop (c ∷ s) = let rest = before stop s in if stop c then [] else c ∷ rest

abbrev pub from_stop : (stop : ℕ → Bool) → List ℕ → List ℕ
from_stop stop [] = []
from_stop stop (c ∷ s) = let rest = from_stop stop s in if stop c then c ∷ s else rest

-- Where the reader is: between fields, or in one whose characters so far are given.
pub data Place : Type 0 where
  between : Place
  bare : List ℕ → Place
  quoted : List ℕ → Place

-- A field is a run of characters that are not blank, or, if it begins with a quote, what is up to the
-- next quote or the end of the line.
unfoldable pub fields : Place → List ℕ → List (List ℕ)
fields between [] = []
fields between (c ∷ s) =
    let outside = fields between s in
    let inside = fields (quoted []) s in
    let begun = fields (bare (c ∷ [])) s in
    if is_blank c then outside else if is_quote c then inside else begun
fields (bare word) [] = word ∷ []
fields (bare word) (c ∷ s) =
    let outside = fields between s in
    let rest = fields (bare (word ++ c ∷ [])) s in if is_blank c then word ∷ outside else rest
fields (quoted word) [] = word ∷ []
fields (quoted word) (c ∷ s) =
    let outside = fields between s in
    let rest = fields (quoted (word ++ c ∷ [])) s in if is_quote c then word ∷ outside else rest

abbrev pub tail : List ℕ → List ℕ
tail [] = []
tail (c ∷ s) = s

-- A field ends before the first character that stops it, and the next is behind that character.
pub fields-bare :
    (v s : List ℕ)
    → fields (bare v) s ≡ (v ++ before is_blank s) ∷ fields between (tail (from_stop is_blank s))
unfolding fields
fields-bare v [] = rw (append_nil v) refl
fields-bare v (c ∷ s) = elim (Bool-cases (is_blank c)) [
  | inl blank ↦ rw (blank, append_nil v) refl
  | inr other ↦
      rw other (fields-bare (v ++ c ∷ []) s ∙ rw (append_one v c (before is_blank s)) refl)
]

pub fields-quoted :
    (v s : List ℕ)
    → fields (quoted v) s ≡ (v ++ before is_quote s) ∷ fields between (tail (from_stop is_quote s))
unfolding fields
fields-quoted v [] = rw (append_nil v) refl
fields-quoted v (c ∷ s) = elim (Bool-cases (is_quote c)) [
  | inl quote ↦ rw (quote, append_nil v) refl
  | inr other ↦
      rw other (fields-quoted (v ++ c ∷ []) s ∙ rw (append_one v c (before is_quote s)) refl)
]
