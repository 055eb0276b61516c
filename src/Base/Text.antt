-- ===== src/Base/Text.antt =====
-- The bytes of an ASCII text.
use Prim.Native.Char.{code}
use Prim.Native.String.{String}
use frewozet.Base.{ℕ, List, [], ◌∷◌}

abbrev pub codes : String → List ℕ
codes String.[] = []
codes (String.◌∷◌ c s) = code c ∷ codes s
