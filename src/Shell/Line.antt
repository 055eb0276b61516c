-- ===== src/Shell/Line.antt =====
-- Editing the line of the shell.
use frewozet.Base.{
  ℕ, zero, suc, ◌+◌, ◌-◌, ◌≤◌, ◌<◌, ◌≡◌, ◌≢◌, refl, ap, ◌∙◌, ==→eq, arith, ◌&&◌, Bool, true, false,
  ltb, leb, ◌==◌, if◌then◌else◌, update, for_range, Bool-cases, inl, inr, ◌⊎◌, tests, ne→==, gt→leb,
  le→leb, lt→ltb, ge→ltb,
}
use frewozet.Shell.{
  Shell, refresh_line, shift_up, shift_down, insert_char, backspace, delete_forward,
}

-- The cursor is in the line or behind it, the line and its NUL fit the buffer, and the line has no
-- NUL of its own.
pub record IsValid (s : Shell) : Type 0 where
  pub cursor : s.cursor_pos ≤ s.buffer_length
  pub fits : s.buffer_length ≤ 127
  pub ended : s.buffer s.buffer_length ≡ 0
  pub full : (i : ℕ) → i < s.buffer_length → s.buffer i ≢ 0

-- Drawing the line changes nothing of it.
pub refresh-IsValid : (s : Shell) → IsValid s → IsValid (refresh_line s)
unfolding refresh_line
refresh-IsValid s v = record { cursor = v.cursor; fits = v.fits; ended = v.ended; full = v.full }

and_false : (a : Bool) → (a && false) ≡ false
and_false true = refl
and_false false = refl

shifted_up :
    (n i j : ℕ) (b : ℕ → ℕ)
    → suc n ≤ i
    → (if ltb (i - 1 - n) j && leb j (i - 1)
        then update b i (b (i - 1)) (j - 1)
        else update b i (b (i - 1)) j)
      ≡ (if ltb (i - suc n) j && leb j i then b (j - 1) else b j)
shifted_up n i j b h = elim (Bool-cases (i == j)) [
  | inl here ↦
      let same : i ≡ j = ==→eq i j here in
      rw
        (
          lt→ltb (i - 1 - n) j (omega (arith, h, same)),
          gt→leb j (i - 1) (omega (arith, h, same)),
          here,
          lt→ltb (i - suc n) j (omega (arith, h, same)),
          le→leb j i (omega (arith, same)),
        )
        (ap b (omega (arith, same)))
  | inr apart ↦ elim (Bool-cases (leb j i)) [
    | inl below ↦ elim (Bool-cases (ltb (i - suc n) j)) [
      | inl above ↦
          rw
            (
              lt→ltb (i - 1 - n) j (omega (tests, above)),
              le→leb j (i - 1) (omega (tests, below, apart)),
              ne→== i (j - 1) (omega (tests, below, apart)),
              above,
              below,
            )
            refl
      | inr under ↦ rw (ge→ltb (i - 1 - n) j (omega (tests, under)), apart, under) refl
    ]
    | inr beyond ↦
        rw
          (
            gt→leb j (i - 1) (omega (tests, beyond)),
            beyond,
            apart,
            and_false (ltb (i - 1 - n) j),
            and_false (ltb (i - suc n) j),
          )
          refl
  ]
]

shift_up_lem :
    (n i j : ℕ) (b : ℕ → ℕ)
    → n ≤ i
    → shift_up n i b j ≡ (if ltb (i - n) j && leb j i then b (j - 1) else b j)
unfolding shift_up
shift_up_lem zero i j b h = ground arith
shift_up_lem (suc n) i j b h =
    shift_up_lem n (i - 1) j (update b i (b (i - 1))) (omega arith) ∙ shifted_up n i j b h

shift_down_lem :
    (n i j : ℕ) (b : ℕ → ℕ)
    → shift_down n i b j ≡ (if leb i j && ltb j (i + n) then b (j + 1) else b j)
unfolding shift_down for_range
shift_down_lem zero i j b = ground arith
shift_down_lem (suc n) i j b = ground (arith, shift_down_lem n (i + 1) j (update b i (b (i + 1))))

-- A character goes in at the cursor: what was there and behind it moves up by one, and the cursor with
-- it.
pub record Inserted (c : ℕ) (s s' : Shell) : Type 0 where
  pub length : s'.buffer_length ≡ s.buffer_length + 1
  pub cursor : s'.cursor_pos ≡ s.cursor_pos + 1
  pub chars :
      (i : ℕ)
      → i ≤ s.buffer_length + 1
      → s'.buffer i ≡ (
          if ltb i s.cursor_pos
          then s.buffer i
          else if i == s.cursor_pos
          then c
          else s.buffer (i - 1))

-- `shell_insert_char` puts a character in at the cursor, while the line is shorter than 127.
pub insert_char-Inserted :
    (c : ℕ) (s : Shell) → IsValid s → s.buffer_length < 127 → Inserted c s (insert_char c s)
unfolding insert_char refresh_line
insert_char-Inserted c s v room = rw (gt→leb 127 s.buffer_length room) (record {
  length = refl;
  cursor = refl;
  chars = λ i h. ground (
    arith,
    v.cursor,
    shift_up_lem (s.buffer_length + 1 - s.cursor_pos) (s.buffer_length + 1) i s.buffer
        (omega arith),
  );
})

-- A character goes out at `at`: what is behind it moves down by one.
pub record Deleted (at : ℕ) (s s' : Shell) : Type 0 where
  pub inside : at < s.buffer_length
  pub length : s'.buffer_length + 1 ≡ s.buffer_length
  pub chars :
      (i : ℕ)
      → i < s.buffer_length
      → s'.buffer i ≡ (if ltb i at then s.buffer i else s.buffer (i + 1))

-- `shell_backspace` takes out the character before the cursor, if there is one, and moves the cursor
-- back; at the start of the line it does nothing.
pub backspace-Deleted :
    (s : Shell)
    → IsValid s
    → ((s.cursor_pos ≡ 0) × (backspace s ≡ s))
      ⊎ (((backspace s).cursor_pos + 1 ≡ s.cursor_pos) × Deleted (s.cursor_pos - 1) s (backspace s))
unfolding backspace refresh_line
backspace-Deleted s v = elim (Bool-cases (s.cursor_pos == 0)) [
  | inl start ↦ inl (ground arith, rw start refl)
  | inr inside ↦
      rw (inside, ne→== s.buffer_length 0 (omega (tests, inside, v.cursor)))
        (inr (
          omega (tests, inside),
          record {
            inside = omega (tests, inside, v.cursor);
            length = omega (tests, inside, v.cursor);
            chars = λ i h. ground (
              arith,
              v.cursor,
              shift_down_lem (s.buffer_length - (s.cursor_pos - 1)) (s.cursor_pos - 1) i s.buffer,
            );
          },
        ))
]

-- `shell_delete_forward` takes out the character at the cursor, which stays; at the end of the line
-- it does nothing.
pub delete_forward-Deleted :
    (s : Shell)
    → IsValid s
    → ((s.cursor_pos ≡ s.buffer_length) × (delete_forward s ≡ s))
      ⊎ (((delete_forward s).cursor_pos ≡ s.cursor_pos) × Deleted s.cursor_pos s (delete_forward s))
unfolding delete_forward refresh_line
delete_forward-Deleted s v = elim (Bool-cases (leb s.buffer_length s.cursor_pos)) [
  | inl at_end ↦ inl (omega (tests, at_end, v.cursor), rw at_end refl)
  | inr inside ↦ rw inside (
      inr (
        refl,
        record {
          inside = omega (tests, inside);
          length = omega (tests, inside);
          chars = λ i h. ground (
            arith,
            v.cursor,
            shift_down_lem (s.buffer_length - s.cursor_pos) s.cursor_pos i s.buffer,
          );
        },
      ))
]
