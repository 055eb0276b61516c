-- ===== src/Keyboard.antt =====
-- keyboard.c: the scancodes of the keyboard, and the state of shift and caps lock. The handler is
-- keyboard_handle of Kernel, which calls the shell.
pub mod Case
mod Tests
use frewozet.Base.{ℕ, Bool, true, false, not, List, [], ◌∷◌, ◌++◌, leb, ◌==◌, if◌then◌else◌, get_or}
use frewozet.Base.Text.{codes}
use frewozet.Ctype.{isalpha, toupper, tolower}

pub record Keyboard : Type 0 where
  pub shift_down : Bool
  pub caps_lock_on : Bool

-- The rest of the 128 entries is zero.
abbrev pub keyboard_map : List ℕ
keyboard_map =
    0 ∷ 27 ∷ codes "1234567890-="
    ++ 8 ∷ 9 ∷ codes "qwertyuiop[]\n"
    ++ 0 ∷ codes "asdfghjkl;'`"
    ++ 0 ∷ codes "\\zxcvbnm,./"
    ++ 0 ∷ codes "*"
    ++ 0 ∷ codes " "

abbrev pub keyboard_shift_map : List ℕ
keyboard_shift_map =
    0 ∷ 27 ∷ codes "!\"#$%^&*()_+"
    ++ 8 ∷ 9 ∷ codes "QWERTYUIOP{}\n"
    ++ 0 ∷ codes "ASDFGHJKL:@~"
    ++ 0 ∷ codes "|ZXCVBNM<>?"
    ++ 0 ∷ codes "*"
    ++ 0 ∷ codes " "

-- `shift_down ^ caps_lock_on`
abbrev pub upper_case : Keyboard → Bool
upper_case k = if k.shift_down then not k.caps_lock_on else k.caps_lock_on

unfoldable pub translate_scancode : ℕ → Keyboard → ℕ
translate_scancode scancode k =
    let c = get_or (if k.shift_down then keyboard_shift_map else keyboard_map) scancode 0 in
    if leb 128 scancode
    then 0
    else if c == 0
    then 0
    else if isalpha c
    then (if upper_case k then toupper c else tolower c)
    else c
