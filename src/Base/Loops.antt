-- ===== src/Base/Loops.antt =====
-- `for (i = from; i < from + n; i++) body`
use Prim.Native.Nat.{ℕ, zero, suc, ◌+◌}

unfoldable pub for_range {ℓ} : {A : Type ℓ} → (n from : ℕ) → (ℕ → A → A) → A → A
for_range zero from body s = s
for_range (suc n) from body s = for_range n (from + 1) body (body from s)
