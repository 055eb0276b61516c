-- ===== src/Keyboard/Case.antt =====
-- The case of typed letters.
use frewozet.Base.{
  ℕ, ◌≡◌, Bool, true, false, leb, ◌==◌, if◌then◌else◌, get_or, Bool-cases, inl, inr,
}
use frewozet.Ctype.{isalpha, toupper, tolower}
use frewozet.Ctype.Case.{Upper, Lower, toupper-Upper, tolower-Lower}
use frewozet.Keyboard.{Keyboard, keyboard_map, keyboard_shift_map, upper_case, translate_scancode}

abbrev pub InCase : Bool → ℕ → Type 0
InCase true c = Upper c
InCase false c = Lower c

no_letter : ¬ (isalpha 0 ≡ true)
unfolding isalpha
no_letter h = cc

letter-InCase :
    (c : ℕ) (upper : Bool)
    → isalpha (if isalpha c then (if upper then toupper c else tolower c) else c) ≡ true
    → InCase upper (if isalpha c then (if upper then toupper c else tolower c) else c)
letter-InCase c upper h = elim (Bool-cases (isalpha c)) [
  | inl letter ↦ rw letter (put letter upper)
  | inr other ↦ let never : isalpha c ≡ true = rw other at h in cc
]
  where
    put : isalpha c ≡ true → (b : Bool) → InCase b (if b then toupper c else tolower c)
    put letter true = toupper-Upper c letter
    put letter false = tolower-Lower c letter

-- A key that gives a letter gives a capital when just one of shift and caps lock is on, and a small
-- letter otherwise.
pub translate_scancode-case :
    (scancode : ℕ) (k : Keyboard)
    → isalpha (translate_scancode scancode k) ≡ true
    → InCase (upper_case k) (translate_scancode scancode k)
unfolding translate_scancode
translate_scancode-case scancode k h =
    translated (get_or (if k.shift_down then keyboard_shift_map else keyboard_map) scancode 0) h
  where
    translated :
        (c : ℕ)
        → isalpha (
            if leb 128 scancode
            then 0
            else if c == 0
            then 0
            else if isalpha c
            then (if upper_case k then toupper c else tolower c)
            else c)
          ≡ true
        → InCase (upper_case k) (
            if leb 128 scancode
            then 0
            else if c == 0
            then 0
            else if isalpha c
            then (if upper_case k then toupper c else tolower c)
            else c)
    translated c h = elim (Bool-cases (leb 128 scancode)) [
      | inl outside ↦ absurd (no_letter (rw outside at h))
      | inr inside ↦ elim (Bool-cases (c == 0)) [
        | inl nothing ↦ absurd (no_letter (rw (inside, nothing) at h))
        | inr some ↦ rw (inside, some) (letter-InCase c (upper_case k) (rw (inside, some) at h))
      ]
    ]
