-- ===== src/Base/Results.antt =====
-- Chains of steps that may fail.
use mathlib.Core.Option.{Option, none, some}

infixl 5 ◌>>=◌
abbrev pub ◌>>=◌ {ℓ κ} : {A : Type ℓ} {B : Type κ} → Option A → (A → Option B) → Option B
◌>>=◌ none f = none
◌>>=◌ (some a) f = f a

-- One statement after the other: `s |> f |> g` is `g (f s)`.
infixl 2 ◌|>◌
abbrev pub ◌|>◌ {ℓ κ} : {A : Type ℓ} {B : Type κ} → A → (A → B) → B
a |> f = f a
