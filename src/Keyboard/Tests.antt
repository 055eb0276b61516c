-- ===== src/Keyboard/Tests.antt =====
-- The key A with shift.
use frewozet.Base.{◌≡◌, refl, true, false}
use frewozet.Ctype.{isalpha, toupper, tolower}
use frewozet.Keyboard.{Keyboard, translate_scancode}

abbrev shifted : Keyboard
shifted = record { shift_down = true; caps_lock_on = false }

a-runs : translate_scancode 0x1E shifted ≡ 65
unfolding translate_scancode isalpha toupper tolower
a-runs = refl

a-isalpha : isalpha (translate_scancode 0x1E shifted) ≡ true
unfolding translate_scancode isalpha toupper tolower
a-isalpha = refl
