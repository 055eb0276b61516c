-- ===== src/Tokenizer/Tests.antt =====
-- A line of two words, and one with a quoted argument.
use frewozet.Base.{ℕ, ◌≡◌, refl, arith, List, [], ◌∷◌, length, get_or, take}
use frewozet.Base.Text.{codes}
use frewozet.CString.Compare.{NulFree}
use frewozet.CString.Holds.{Holds}
use frewozet.Tokenizer.{
  Tokens, shell_tokenize, tokens_from, skip_blanks, find_end, take_token, cut_token,
}
use frewozet.Tokenizer.Fields.{fields, between}
use frewozet.Tokenizer.Points.{Points}
use frewozet.Tokenizer.Refines.{shell_tokenize-fields}
use frewozet.Tokenizer.RoundTrip.{line_of, shell_tokenize-line_of}

abbrev line : List ℕ
line = codes "e \"a b\""

abbrev buffer : ℕ → ℕ
buffer i = get_or line i 0

argv_runs : (shell_tokenize 8 0 16 buffer).argv ≡ 0 ∷ 3 ∷ []
unfolding shell_tokenize tokens_from skip_blanks find_end take_token cut_token
argv_runs = refl

line-NulFree : NulFree line
line-NulFree = (
  omega arith,
  (omega arith, (omega arith, (omega arith, (omega arith, (omega arith, (omega arith, tt)))))),
)

line-Holds : Holds buffer 0 line
line-Holds = (refl, (refl, (refl, (refl, (refl, (refl, (refl, refl)))))))

shell_tokenize-fields_example :
    let t = shell_tokenize 128 0 16 buffer in
    Points t.buffer (length line) t.argv (take 16 (fields between line))
shell_tokenize-fields_example =
    shell_tokenize-fields 128 0 16 line buffer line-Holds line-NulFree (omega arith)

abbrev words : List (List ℕ)
words = codes "ab" ∷ codes "c" ∷ []

shell_tokenize-line_of_example :
    let t = shell_tokenize 128 0 16 (λ i. get_or (line_of words) i 0) in
    Points t.buffer 5 t.argv words
shell_tokenize-line_of_example =
    shell_tokenize-line_of 128 0 16 words (λ i. get_or (line_of words) i 0)
      ((refl, refl, (refl, tt)), ((refl, refl, tt), tt)) (omega arith)
      (omega arith, (omega arith, (omega arith, (omega arith, (omega arith, tt))))) (omega arith)
      (refl, (refl, (refl, (refl, (refl, refl)))))

-- Two blanks in front of a quoted argument.
abbrev quoted_line : List ℕ
quoted_line = codes "  \"a\""

abbrev quoted_tokens : Tokens
quoted_tokens = record { argv = []; buffer = λ i. get_or quoted_line i 0 }
