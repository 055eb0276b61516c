-- ===== src/Shell/EditsKept.antt =====
-- The edits of the line keep what the shell keeps to between two keys.
use frewozet.Base.{ℕ, ◌≡◌, ◌≢◌, refl, sym, ap, none, ltb, leb, ◌==◌, Bool-cases, inl, inr, ◌||◌}
use frewozet.Shell.{
  Shell, print_prompt, refresh_line, insert_char, backspace, delete_forward, move_left, move_right,
  move_home, move_end,
}
use frewozet.Shell.Line.{IsValid}
use frewozet.Shell.Edits.{
  insert_char-IsValid, backspace-IsValid, delete_forward-IsValid, move_left-IsValid,
  move_right-IsValid, move_home-IsValid, move_end-IsValid,
}
use frewozet.Shell.Invariant.{ShellIsValid, Remembers, memory_of, remembered}

-- The edits of the line leave the memory alone.
module _ (s : Shell) where
  insert_char-Remembers : (c : ℕ) → s.history_view_index ≡ none → Remembers s (insert_char c s)
  unfolding insert_char print_prompt refresh_line
  insert_char-Remembers c h = elim (Bool-cases (leb 127 s.buffer_length)) [
    | inl full ↦ rw full (ap (λ v. record (memory_of s) { view = v }) (sym h))
    | inr room ↦ rw room refl
  ]

  backspace-Remembers : Remembers s (backspace s)
  unfolding backspace refresh_line
  backspace-Remembers = elim (Bool-cases ((s.cursor_pos == 0) || (s.buffer_length == 0))) [
    | inl start ↦ rw start refl
    | inr inside ↦ rw inside refl
  ]

  delete_forward-Remembers : Remembers s (delete_forward s)
  unfolding delete_forward refresh_line
  delete_forward-Remembers = elim (Bool-cases (leb s.buffer_length s.cursor_pos)) [
    | inl at_end ↦ rw at_end refl
    | inr inside ↦ rw inside refl
  ]

  move_left-Remembers : Remembers s (move_left s)
  unfolding move_left refresh_line
  move_left-Remembers = elim (Bool-cases (ltb 0 s.cursor_pos)) [
    | inl inside ↦ rw inside refl
    | inr start ↦ rw start refl
  ]

  move_right-Remembers : Remembers s (move_right s)
  unfolding move_right refresh_line
  move_right-Remembers = elim (Bool-cases (ltb s.cursor_pos s.buffer_length)) [
    | inl inside ↦ rw inside refl
    | inr at_end ↦ rw at_end refl
  ]

  move_home-Remembers : Remembers s (move_home s)
  unfolding move_home refresh_line
  move_home-Remembers = refl

  move_end-Remembers : Remembers s (move_end s)
  unfolding move_end refresh_line
  move_end-Remembers = refl

abbrev KeepsValid : (Shell → Shell) → Type 0
KeepsValid f = (s : Shell) → ShellIsValid s → ShellIsValid (f s)

-- An edit that keeps the line and leaves the memory alone keeps the shell.
edit-ShellIsValid :
    (s s' : Shell) → (IsValid s → IsValid s') → Remembers s s' → ShellIsValid s → ShellIsValid s'
edit-ShellIsValid s s' line k v = record { line = line v.line; memory = remembered s s' k v.memory }

pub backspace-ShellIsValid : KeepsValid backspace
backspace-ShellIsValid s v =
    edit-ShellIsValid s (backspace s) (backspace-IsValid s) (backspace-Remembers s) v

pub delete_forward-ShellIsValid : KeepsValid delete_forward
delete_forward-ShellIsValid s v =
    edit-ShellIsValid s (delete_forward s) (delete_forward-IsValid s) (delete_forward-Remembers s) v

pub move_left-ShellIsValid : KeepsValid move_left
move_left-ShellIsValid s v =
    edit-ShellIsValid s (move_left s) (move_left-IsValid s) (move_left-Remembers s) v

pub move_right-ShellIsValid : KeepsValid move_right
move_right-ShellIsValid s v =
    edit-ShellIsValid s (move_right s) (move_right-IsValid s) (move_right-Remembers s) v

pub move_home-ShellIsValid : KeepsValid move_home
move_home-ShellIsValid s v =
    edit-ShellIsValid s (move_home s) (move_home-IsValid s) (move_home-Remembers s) v

pub move_end-ShellIsValid : KeepsValid move_end
move_end-ShellIsValid s v =
    edit-ShellIsValid s (move_end s) (move_end-IsValid s) (move_end-Remembers s) v

pub insert_char-ShellIsValid :
    (c : ℕ) (s : Shell)
    → c ≢ 0
    → s.history_view_index ≡ none
    → ShellIsValid s
    → ShellIsValid (insert_char c s)
insert_char-ShellIsValid c s some_char h v =
    edit-ShellIsValid s (insert_char c s) (insert_char-IsValid c s some_char)
      (insert_char-Remembers s c h) v
