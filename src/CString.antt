-- ===== src/CString.antt =====
-- string.c. A string that is read is the list of its bytes before the terminating NUL; memory that
-- is written is a function from addresses to bytes.
pub mod Compare
pub mod Holds
pub mod TextOf
mod Tests
use frewozet.Base.{
  ℕ, zero, suc, ◌+◌, ◌/◌, ◌%◌, Bool, List, [], ◌∷◌, ltb, ◌==◌, if◌then◌else◌, update, u8, Option,
  some, none, ◌>>=◌,
}
use frewozet.Base.Int.{ℤ, pos, sub_ℕ}
use frewozet.Memory.{Memory, kmalloc}

-- The loops of `memcpy` and `memset`, with the rounds left.
copy_bytes : (dest src rounds i : ℕ) → (ℕ → ℕ) → ℕ → ℕ
copy_bytes dest src zero i mem = mem
copy_bytes dest src (suc rounds) i mem =
    copy_bytes dest src rounds (i + 1) (update mem (dest + i) (mem (src + i)))

pub memcpy : (dest src n : ℕ) → (ℕ → ℕ) → ℕ → ℕ
memcpy dest src n mem = copy_bytes dest src n 0 mem

fill_bytes : (dest v rounds i : ℕ) → (ℕ → ℕ) → ℕ → ℕ
fill_bytes dest v zero i mem = mem
fill_bytes dest v (suc rounds) i mem = fill_bytes dest v rounds (i + 1) (update mem (dest + i) v)

pub memset : (dest value n : ℕ) → (ℕ → ℕ) → ℕ → ℕ
memset dest value n mem = fill_bytes dest (u8 value) n 0 mem

unfoldable pub strlen : List ℕ → ℕ
strlen [] = 0
strlen (c ∷ str) = strlen str + 1

unfoldable pub strcmp : List ℕ → List ℕ → ℤ
strcmp [] [] = pos 0
strcmp [] (d ∷ b) = sub_ℕ 0 d
strcmp (c ∷ a) [] = sub_ℕ c 0
strcmp (c ∷ a) (d ∷ b) = let rest = strcmp a b in if c == d then rest else sub_ℕ c d

unfoldable pub strncmp : List ℕ → List ℕ → ℕ → ℤ
strncmp a b zero = pos 0
strncmp [] [] (suc n) = pos 0
strncmp [] (d ∷ b) (suc n) = sub_ℕ 0 d
strncmp (c ∷ a) [] (suc n) = sub_ℕ c 0
strncmp (c ∷ a) (d ∷ b) (suc n) = let rest = strncmp a b n in if c == d then rest else sub_ℕ c d

-- `x == 0` on int
abbrev is_zero : ℤ → Bool
is_zero (pos n) = n == 0
is_zero (ℤ.negsuc n) = Bool.false

unfoldable pub strequal : List ℕ → List ℕ → Bool
strequal a b = is_zero (strcmp a b)

unfoldable pub strnequal : List ℕ → List ℕ → ℕ → Bool
strnequal a b n = is_zero (strncmp a b n)

-- The string in a buffer from `i` on, with the `rounds` that its end is away at most.
pub text_of : (rounds i : ℕ) → (ℕ → ℕ) → List ℕ
text_of zero i buffer = []
text_of (suc rounds) i buffer =
    let rest = text_of rounds (i + 1) buffer in if buffer i == 0 then [] else buffer i ∷ rest

-- The loop of `strcpy`, `strcat` and `str_append`: the bytes of `src` from the address on, and a NUL.
unfoldable pub strcpy : (dst : ℕ) → List ℕ → (ℕ → ℕ) → ℕ → ℕ
strcpy dst [] mem = update mem dst 0
strcpy dst (c ∷ src) mem = strcpy (dst + 1) src (update mem dst c)

unfoldable pub strdup : List ℕ → Memory → Option (ℕ × Memory)
strdup s m = do
  (p, m) ← kmalloc (strlen s + 1) m
  some (if p == 0 then (0, m) else (p, record m { bytes = strcpy p s m.bytes }))

-- `strcat` behind the string `dst` that is at the address.
pub strcat : (address : ℕ) (dst src : List ℕ) → (ℕ → ℕ) → ℕ → ℕ
strcat address dst src mem = strcpy (address + strlen dst) src mem

-- The buffer and the position that the `str_append` functions share.
pub record Output : Type 0 where
  pub dest : ℕ → ℕ
  pub pos : ℕ

pub str_append : List ℕ → Output → Output
str_append src o = record { dest = strcpy o.pos src o.dest; pos = o.pos + strlen src }

pub str_appendchar : ℕ → Output → Output
str_appendchar c o = record { dest = update (update o.dest o.pos c) (o.pos + 1) 0; pos = o.pos + 1 }

-- The digits that the loop of `str_append_uint64` writes for the `rounds` that a buffer of 20 digits
-- has, in front of those it has found: the loop writes them backwards and then reverses them.
unfoldable pub digits : (rounds value : ℕ) → List ℕ → List ℕ
digits zero value found = found
digits (suc rounds) value found =
    let rest = digits rounds (value / 10) ((48 + value % 10) ∷ found) in
    if value == 0 then found else rest

unfoldable pub decimal : ℕ → List ℕ
decimal value = if value == 0 then 48 ∷ [] else digits 20 value []

pub str_append_uint64 : ℕ → Output → Output
str_append_uint64 value o = str_append (decimal value) o
