-- ===== src/Tokenizer/Points.antt =====
-- The pointers of the arguments that were found.
use frewozet.Base.{
  ℕ, zero, suc, ◌+◌, ◌≤◌, ◌≡◌, refl, sym, ap, ◌∙◌, subst, List, [], ◌∷◌, ◌++◌, append_nil, length,
  take, arith,
}
use frewozet.CString.Holds.{Holds}
use frewozet.Tokenizer.{Tokens}
use frewozet.Tokenizer.Cut.{Cut}

-- Each pointer is at its string, which ends at `p` or in front of it.
abbrev pub Points : (buffer : ℕ → ℕ) (p : ℕ) → List ℕ → List (List ℕ) → Type 0
Points buffer p [] [] = Unit
Points buffer p [] (w ∷ words) = ⊥
Points buffer p (a ∷ argv) [] = ⊥
Points buffer p (a ∷ argv) (w ∷ words) =
    Holds buffer a w × (a + length w ≤ p) × Points buffer p argv words

pub Points-append :
    (argv : List ℕ) (words : List (List ℕ)) (p a : ℕ) (w : List ℕ) (buffer : ℕ → ℕ)
    → Points buffer p argv words
    → Holds buffer a w
    → a + length w ≤ p
    → Points buffer p (argv ++ a ∷ []) (words ++ w ∷ [])
Points-append [] [] p a w buffer ps h far = (h, far, tt)
Points-append [] (v ∷ words) p a w buffer ps h far = absurd ps
Points-append (b ∷ argv) [] p a w buffer ps h far = absurd ps
Points-append (b ∷ argv) (v ∷ words) p a w buffer ps h far =
    (ps.0, ps.1, Points-append argv words p a w buffer ps.2 h far)

pub Points-kept :
    (argv : List ℕ) (words : List (List ℕ)) (p q : ℕ) (buffer buffer' : ℕ → ℕ)
    → Points buffer p argv words
    → p ≤ q
    → ((w : List ℕ) (b : ℕ) → Holds buffer b w → b + length w ≤ p → Holds buffer' b w)
    → Points buffer' q argv words
Points-kept [] [] p q buffer buffer' ps on keep = tt
Points-kept [] (w ∷ words) p q buffer buffer' ps on keep = absurd ps
Points-kept (b ∷ argv) [] p q buffer buffer' ps on keep = absurd ps
Points-kept (b ∷ argv) (v ∷ words) p q buffer buffer' ps on keep = (
  keep v b ps.0 ps.1,
  omega (arith, ps.1),
  Points-kept argv words p q buffer buffer' ps.2 on keep,
)

pub Points-length :
    (argv : List ℕ) (words : List (List ℕ)) (p : ℕ) (buffer : ℕ → ℕ)
    → Points buffer p argv words
    → length argv ≡ length words
Points-length [] [] p buffer ps = refl
Points-length [] (w ∷ words) p buffer ps = absurd ps
Points-length (b ∷ argv) [] p buffer ps = absurd ps
Points-length (b ∷ argv) (v ∷ words) p buffer ps = ap suc (Points-length argv words p buffer ps.2)

pub take_nil : (n : ℕ) → take {A = List ℕ} n [] ≡ []
take_nil zero = refl
take_nil (suc n) = refl

-- Where no field is left, or no argument has room, the arguments are complete.
pub Points-complete :
    (buffer : ℕ → ℕ) (p e : ℕ) (argv : List ℕ) (words fs : List (List ℕ))
    → fs ≡ []
    → p ≤ e
    → Points buffer p argv words
    → Points buffer e argv (words ++ fs)
Points-complete buffer p e argv words fs none far ps =
    subst (Points buffer e argv) (sym (append_nil words) ∙ ap (λ ws. words ++ ws) (sym none))
      (Points-kept argv words p e buffer buffer ps far (λ w b at end. at))

-- The arguments with one that was cut off.
pub Points-Cut :
    (p a size : ℕ) (word rest : List ℕ) (t : Tokens) (q : ℕ) (t' : Tokens) (words : List (List ℕ))
    → Cut a size word rest t q t'
    → p ≤ a
    → Points t.buffer p t.argv words
    → Points t'.buffer q t'.argv (words ++ word ∷ [])
Points-Cut p a size word rest t q t' words k on ps =
    subst (λ argv. Points t'.buffer q argv (words ++ word ∷ [])) (sym k.stored)
      (Points-append t.argv words q a word t'.buffer
        (Points-kept t.argv words p q t.buffer t'.buffer ps (omega (arith, k.behind))
          (λ w b at end. k.kept w b at (omega arith)))
        k.token k.behind)
