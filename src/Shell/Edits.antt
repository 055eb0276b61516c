-- ===== src/Shell/Edits.antt =====
-- Sequences of edits of the shell's line.
use frewozet.Base.{
  ℕ, ◌+◌, ◌-◌, ◌≤◌, ◌<◌, ◌≡◌, ◌≢◌, refl, sym, leb→gt, arith, List, [], ◌∷◌, ltb, leb, Bool-cases,
  inl, inr, ◌⊎◌, tests, ap, subst,
}
use frewozet.Shell.{
  Shell, print_prompt, insert_char, backspace, delete_forward, move_left, move_right, move_home,
  move_end,
}
use frewozet.Shell.Line.{
  IsValid, refresh-IsValid, Inserted, Deleted, insert_char-Inserted, backspace-Deleted,
  delete_forward-Deleted,
}

Inserted-IsValid :
    (c : ℕ) (s s' : Shell)
    → c ≢ 0
    → IsValid s
    → s.buffer_length < 127
    → Inserted c s s'
    → IsValid s'
Inserted-IsValid c s s' some_char v room d = record {
  cursor = omega (arith, d.length, d.cursor, v.cursor);
  fits = omega (arith, d.length);
  ended = ground (arith, d.length, v.cursor, v.ended, d.chars (s.buffer_length + 1));
  full = λ i h. ground (arith, d.length, v.cursor, v.full i, v.full (i - 1), d.chars i);
}

Deleted-IsValid :
    (at : ℕ) (s s' : Shell)
    → IsValid s
    → s'.cursor_pos ≤ s'.buffer_length
    → Deleted at s s'
    → IsValid s'
Deleted-IsValid at s s' v cursor d = record {
  cursor = cursor;
  fits = omega (arith, d.length, v.fits);
  ended =
      ground (arith, d.inside, d.length, v.ended, d.chars s'.buffer_length, ap s.buffer d.length);
  full = λ i h. ground (arith, d.length, v.full i, v.full (i + 1), d.chars i);
}

pub insert_char-IsValid : (c : ℕ) (s : Shell) → c ≢ 0 → IsValid s → IsValid (insert_char c s)
unfolding insert_char print_prompt
insert_char-IsValid c s some_char v = elim (Bool-cases (leb 127 s.buffer_length)) [
  | inl full ↦ rw full (record {
    cursor = omega arith;
    fits = omega arith;
    ended = refl;
    full = λ i h. absurd (omega arith);
  })
  | inr room ↦
      Inserted-IsValid c s (insert_char c s) some_char v (leb→gt 127 s.buffer_length room)
        (insert_char-Inserted c s v (leb→gt 127 s.buffer_length room))
]

pub backspace-IsValid : (s : Shell) → IsValid s → IsValid (backspace s)
backspace-IsValid s v = elim (backspace-Deleted s v) [
  | inl (start, same) ↦ subst IsValid (sym same) v
  | inr (moved, d) ↦
      Deleted-IsValid (s.cursor_pos - 1) s (backspace s) v
        (omega (arith, moved, v.cursor, d.length)) d
]

pub delete_forward-IsValid : (s : Shell) → IsValid s → IsValid (delete_forward s)
delete_forward-IsValid s v = elim (delete_forward-Deleted s v) [
  | inl (at_end, same) ↦ subst IsValid (sym same) v
  | inr (stays, d) ↦
      Deleted-IsValid s.cursor_pos s (delete_forward s) v
        (omega (arith, stays, v.cursor, d.length, d.inside)) d
]

-- The keys that edit the line.
pub data Key : Type 0 where
  typed : ℕ → Key
  erase : Key
  delete : Key
  left : Key
  right : Key
  home : Key
  end : Key

abbrev pub press : Key → Shell → Shell
press (typed c) s = insert_char c s
press erase s = backspace s
press delete s = delete_forward s
press left s = move_left s
press right s = move_right s
press home s = move_home s
press end s = move_end s

abbrev pub press_all : List Key → Shell → Shell
press_all [] s = s
press_all (k ∷ keys) s = press_all keys (press k s)

-- No NUL is typed.
abbrev pub NoNul : List Key → Type 0
NoNul [] = Unit
NoNul (typed c ∷ keys) = (c ≢ 0) × NoNul keys
NoNul (k ∷ keys) = NoNul keys

pub move_left-IsValid : (s : Shell) → IsValid s → IsValid (move_left s)
unfolding move_left
move_left-IsValid s v = elim (Bool-cases (ltb 0 s.cursor_pos)) [
  | inl inside ↦ rw inside (
      refresh-IsValid (record s { cursor_pos = s.cursor_pos - 1 })
        (record {
          cursor = omega (arith, v.cursor);
          fits = v.fits;
          ended = v.ended;
          full = v.full;
        }))
  | inr start ↦ rw start v
]

pub move_right-IsValid : (s : Shell) → IsValid s → IsValid (move_right s)
unfolding move_right
move_right-IsValid s v = elim (Bool-cases (ltb s.cursor_pos s.buffer_length)) [
  | inl inside ↦ rw inside (
      refresh-IsValid (record s { cursor_pos = s.cursor_pos + 1 })
        (record { cursor = omega (tests, inside); fits = v.fits; ended = v.ended; full = v.full }))
  | inr at_end ↦ rw at_end v
]

pub move_home-IsValid : (s : Shell) → IsValid s → IsValid (move_home s)
unfolding move_home
move_home-IsValid s v =
    refresh-IsValid (record s { cursor_pos = 0 })
      (record { cursor = omega arith; fits = v.fits; ended = v.ended; full = v.full })

pub move_end-IsValid : (s : Shell) → IsValid s → IsValid (move_end s)
unfolding move_end
move_end-IsValid s v =
    refresh-IsValid (record s { cursor_pos = s.buffer_length })
      (record { cursor = omega arith; fits = v.fits; ended = v.ended; full = v.full })

-- Whatever editing keys are pressed, the cursor stays in the line and the line stays in its buffer
-- and ends with its only NUL.
pub press_all-IsValid :
    (keys : List Key) (s : Shell) → NoNul keys → IsValid s → IsValid (press_all keys s)
press_all-IsValid [] s n v = v
press_all-IsValid (typed c ∷ keys) s n v =
    press_all-IsValid keys (insert_char c s) n.1 (insert_char-IsValid c s n.0 v)
press_all-IsValid (erase ∷ keys) s n v =
    press_all-IsValid keys (backspace s) n (backspace-IsValid s v)
press_all-IsValid (delete ∷ keys) s n v =
    press_all-IsValid keys (delete_forward s) n (delete_forward-IsValid s v)
press_all-IsValid (left ∷ keys) s n v =
    press_all-IsValid keys (move_left s) n (move_left-IsValid s v)
press_all-IsValid (right ∷ keys) s n v =
    press_all-IsValid keys (move_right s) n (move_right-IsValid s v)
press_all-IsValid (home ∷ keys) s n v =
    press_all-IsValid keys (move_home s) n (move_home-IsValid s v)
press_all-IsValid (end ∷ keys) s n v = press_all-IsValid keys (move_end s) n (move_end-IsValid s v)

-- A backspace right after a character was put in restores the line and the cursor.
pub backspace-insert_char :
    (c : ℕ) (s : Shell)
    → c ≢ 0
    → IsValid s
    → s.buffer_length < 127
    → let s' = backspace (insert_char c s) in
      (s'.buffer_length ≡ s.buffer_length)
      × (s'.cursor_pos ≡ s.cursor_pos)
      × ((i : ℕ) → i ≤ s.buffer_length → s'.buffer i ≡ s.buffer i)
backspace-insert_char c s some_char v room =
    restored (insert_char-Inserted c s v room)
      (backspace-Deleted (insert_char c s) (insert_char-IsValid c s some_char v))
  where
    restored :
        Inserted c s (insert_char c s)
        → (((insert_char c s).cursor_pos ≡ 0) × (backspace (insert_char c s) ≡ insert_char c s))
          ⊎ (((backspace (insert_char c s)).cursor_pos + 1 ≡ (insert_char c s).cursor_pos)
              × Deleted
                  ((insert_char c s).cursor_pos - 1)
                  (insert_char c s)
                  (backspace (insert_char c s)))
        → ((backspace (insert_char c s)).buffer_length ≡ s.buffer_length)
          × ((backspace (insert_char c s)).cursor_pos ≡ s.cursor_pos)
          × ((i : ℕ) → i ≤ s.buffer_length → (backspace (insert_char c s)).buffer i ≡ s.buffer i)
    restored d (inl start) = absurd (omega (arith, start.0, d.cursor))
    restored d (inr (moved, e)) = (
      omega (arith, d.length, e.length),
      omega (arith, moved, d.cursor),
      λ i h. ground (arith, d.length, d.cursor, e.chars i, d.chars i, d.chars (i + 1)),
    )
