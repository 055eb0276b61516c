-- ===== src/CString/Holds.antt =====
-- What string.c writes: strings in memory.
use frewozet.Base.{
  ℕ, zero, suc, ◌+◌, ◌-◌, ◌≤◌, ◌<◌, ◌≡◌, subst, ◌∙◌, ◌%◌, ◌^◌, List, [], ◌∷◌, ◌++◌, arith, ◌⊎◌,
  update, if◌then◌else◌, ltb, leb, ◌&&◌, u8,
}
use frewozet.CString.{
  strcpy, strcat, strlen, memcpy, memset, copy_bytes, fill_bytes, Output, str_append,
}

-- The string `s` is at the address: its bytes and a NUL.
abbrev pub Holds : (ℕ → ℕ) → ℕ → List ℕ → Type 0
Holds mem a [] = mem a ≡ 0
Holds mem a (c ∷ s) = (mem a ≡ c) × Holds mem (a + 1) s

strcpy-below : (src : List ℕ) (dst a : ℕ) (mem : ℕ → ℕ) → a < dst → strcpy dst src mem a ≡ mem a
unfolding strcpy
strcpy-below [] dst a mem h = ground arith
strcpy-below (c ∷ src) dst a mem h = ground (arith, strcpy-below src (dst + 1) a (update mem dst c))

-- `strcpy` puts the string at the address, and writes its bytes and the NUL only.
pub strcpy-Holds : (src : List ℕ) (dst : ℕ) (mem : ℕ → ℕ) → Holds (strcpy dst src mem) dst src
unfolding strcpy
strcpy-Holds [] dst mem = ground arith
strcpy-Holds (c ∷ src) dst mem = (
  ground (arith, strcpy-below src (dst + 1) dst (update mem dst c)),
  strcpy-Holds src (dst + 1) (update mem dst c),
)

strcpy-append :
    (s src : List ℕ) (a : ℕ) (mem : ℕ → ℕ)
    → Holds mem a s
    → Holds (strcpy (a + strlen s) src mem) a (s ++ src)
unfolding strlen
strcpy-append [] src a mem h =
    subst (λ k. Holds (strcpy k src mem) a src) {x = a} (omega arith) (strcpy-Holds src a mem)
strcpy-append (c ∷ s) src a mem h = (
  strcpy-below src (a + (strlen s + 1)) a mem (omega arith) ∙ h.0,
  subst (λ k. Holds (strcpy k src mem) (a + 1) (s ++ src)) (omega arith)
      (strcpy-append s src (a + 1) mem h.1),
)

-- `strcat` leaves the two strings end to end at the address.
pub strcat-Holds :
    (dst src : List ℕ) (a : ℕ) (mem : ℕ → ℕ)
    → Holds mem a dst
    → Holds (strcat a dst src mem) a (dst ++ src)
unfolding strcat
strcat-Holds dst src a mem h = strcpy-append dst src a mem h

-- The buffer holds the string `s` from its start, and the position is behind it.
pub record Written (s : List ℕ) (o : Output) : Type 0 where
  pub text : Holds o.dest 0 s
  pub at_end : o.pos ≡ strlen s

strlen-append : (s t : List ℕ) → strlen (s ++ t) ≡ strlen s + strlen t
unfolding strlen
strlen-append [] t = omega arith
strlen-append (c ∷ s) t = omega (arith, strlen-append s t)

-- `str_append` adds a string to what the buffer holds.
pub str_append-Written :
    (s src : List ℕ) (o : Output) → Written s o → Written (s ++ src) (str_append src o)
unfolding str_append
str_append-Written s src o w = record {
  text =
      subst (λ k. Holds (strcpy k src o.dest) 0 (s ++ src)) (omega (arith, w.at_end))
        (strcpy-append s src 0 o.dest w.text);
  at_end = omega (arith, w.at_end, strlen-append s src);
}

copy_bytes_lem :
    (dest src n i a : ℕ) (mem : ℕ → ℕ)
    → (dest ≤ src) ⊎ (src + i + n ≤ dest)
    → copy_bytes dest src n i mem a
      ≡ (if leb (dest + i) a && ltb a (dest + i + n) then mem (src + (a - dest)) else mem a)
unfolding copy_bytes
copy_bytes_lem dest src zero i a mem h = ground arith
copy_bytes_lem dest src (suc n) i a mem h =
    ground (arith, copy_bytes_lem dest src n (i + 1) a (update mem (dest + i) (mem (src + i))))

-- `memcpy` copies the range and changes no other byte, when the destination does not begin inside the
-- source.
pub memcpy_lem :
    (dest src n a : ℕ) (mem : ℕ → ℕ)
    → (dest ≤ src) ⊎ (src + n ≤ dest)
    → memcpy dest src n mem a
      ≡ (if leb dest a && ltb a (dest + n) then mem (src + (a - dest)) else mem a)
unfolding memcpy
memcpy_lem dest src n a mem h = ground (arith, copy_bytes_lem dest src n 0 a mem)

fill_bytes_lem :
    (dest v n i a : ℕ) (mem : ℕ → ℕ)
    → fill_bytes dest v n i mem a ≡ (if leb (dest + i) a && ltb a (dest + i + n) then v else mem a)
unfolding fill_bytes
fill_bytes_lem dest v zero i a mem = ground arith
fill_bytes_lem dest v (suc n) i a mem =
    ground (arith, fill_bytes_lem dest v n (i + 1) a (update mem (dest + i) v))

-- `memset` fills the range with the low byte of the value and changes no other byte.
pub memset_lem :
    (dest value n a : ℕ) (mem : ℕ → ℕ)
    → memset dest value n mem a ≡ (if leb dest a && ltb a (dest + n) then value % 2 ^ 8 else mem a)
unfolding memset
memset_lem dest value n a mem = ground (arith, fill_bytes_lem dest (u8 value) n 0 a mem)
