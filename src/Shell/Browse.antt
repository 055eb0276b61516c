-- ===== src/Shell/Browse.antt =====
-- Going through the history keeps the shell valid.
use frewozet.Base.{
  ℕ, zero, suc, ◌+◌, ◌-◌, ◌<◌, ◌≡◌, refl, sym, subst, none, some, List, arith, tests, ltb, ◌==◌,
  Bool-cases, Option-cases, inl, inr,
}
use frewozet.CString.{text_of, strcpy}
use frewozet.CString.Holds.{Holds, strcpy-Holds}
use frewozet.CString.TextOf.{TextAt}
use frewozet.Shell.{
  Shell, buffer_size, save_current_line, set_line, restore_saved_line, clear_onscreen_command,
  refresh_line, show_entry, history_prev, history_next, history_physical_index,
}
use frewozet.Shell.Line.{IsValid, refresh-IsValid}
use frewozet.Shell.Invariant.{
  Fits, with_saved_line, MemoryIsValid, ShellIsValid, line-TextAt, held-IsValid, remembered,
}

set_line-IsValid : (text : List ℕ) (s : Shell) → Fits text → IsValid (set_line text s)
unfolding set_line
set_line-IsValid text s f =
    held-IsValid (set_line text s) text (strcpy-Holds text 0 s.buffer) f refl (omega arith)

-- The copy of a line is one.
copied-IsValid :
    (s s' : Shell) (old : ℕ → ℕ)
    → IsValid s
    → s'.buffer ≡ strcpy 0 (text_of buffer_size 0 s.buffer) old
    → s'.buffer_length ≡ s.buffer_length
    → s'.cursor_pos ≡ s.cursor_pos
    → IsValid s'
copied-IsValid s s' old v same length cursor =
    held-IsValid s' (text_of buffer_size 0 s.buffer)
      (subst (λ b. Holds b 0 (text_of buffer_size 0 s.buffer)) (sym same)
        (strcpy-Holds (text_of buffer_size 0 s.buffer) 0 old))
      (text.free, omega (arith, text.size, v.fits)) (omega (arith, text.size, length))
      (omega (arith, text.size, cursor, v.cursor))
  where
    text : TextAt s.buffer 0 s.buffer_length (text_of buffer_size 0 s.buffer)
    text = line-TextAt s v

saved-IsValid : (s : Shell) → IsValid s → IsValid (with_saved_line (save_current_line s))
unfolding save_current_line
saved-IsValid s v =
    copied-IsValid s (with_saved_line (save_current_line s)) s.saved_buffer v refl refl refl

restored-IsValid : (s : Shell) → IsValid (with_saved_line s) → IsValid (restore_saved_line s)
unfolding restore_saved_line
restored-IsValid s v =
    copied-IsValid (with_saved_line s) (restore_saved_line s) s.buffer v refl refl refl

-- An entry of a valid history becomes the line.
shown :
    (offset : ℕ) (s : Shell) → MemoryIsValid s → ShellIsValid (refresh_line (show_entry offset s))
unfolding show_entry set_line refresh_line
shown offset s v = record {
  line = refresh-IsValid (show_entry offset s) (
      set_line-IsValid (s.history (history_physical_index offset s)) s
        (v.entries (history_physical_index offset s)));
  memory = remembered s (refresh_line (show_entry offset s)) refl v;
}

viewing :
    (offset : ℕ) (s : Shell)
    → offset < s.history_count
    → MemoryIsValid s
    → MemoryIsValid (record s { history_view_index = some offset })
viewing offset s h v = record {
  ring = record { count = v.ring.count; next = v.ring.next; front = v.ring.front };
  entries = v.entries;
  saved = record {
    cursor = v.saved.cursor;
    fits = v.saved.fits;
    ended = v.saved.ended;
    full = v.saved.full;
  };
  view = λ other same. let here : offset ≡ other = cc in omega (arith, here, h);
}

pub not_viewing :
    (s : Shell) → MemoryIsValid s → MemoryIsValid (record s { history_view_index = none })
not_viewing s v = record {
  ring = record { count = v.ring.count; next = v.ring.next; front = v.ring.front };
  entries = v.entries;
  saved = record {
    cursor = v.saved.cursor;
    fits = v.saved.fits;
    ended = v.saved.ended;
    full = v.saved.full;
  };
  view = λ offset never. cc;
}

saved_memory : (s : Shell) → ShellIsValid s → MemoryIsValid (save_current_line s)
unfolding save_current_line
saved_memory s v = record {
  ring = record {
    count = v.memory.ring.count;
    next = v.memory.ring.next;
    front = v.memory.ring.front;
  };
  entries = v.memory.entries;
  saved = saved-IsValid s v.line;
  view = v.memory.view;
}

cleared : (s : Shell) → MemoryIsValid s → MemoryIsValid (clear_onscreen_command s)
unfolding clear_onscreen_command
cleared s v = remembered s (clear_onscreen_command s) refl v

-- The saved line comes back.
back_to_line : (s : Shell) → MemoryIsValid s → ShellIsValid (refresh_line (restore_saved_line s))
unfolding refresh_line restore_saved_line
back_to_line s v = record {
  line = refresh-IsValid (restore_saved_line s) (restored-IsValid s v.saved);
  memory = remembered s (refresh_line (restore_saved_line s)) refl v;
}

pub history_prev-ShellIsValid : (s : Shell) → ShellIsValid s → ShellIsValid (history_prev s)
unfolding history_prev save_current_line
history_prev-ShellIsValid s v = elim (Bool-cases (s.history_count == 0)) [
  | inl empty ↦ rw empty v
  | inr lines ↦ elim (Option-cases s.history_view_index) [
    | inl editing ↦
        rw (lines, editing)
          (shown 0 (record (save_current_line s) { history_view_index = some 0 })
            (viewing 0 (save_current_line s) (omega (tests, lines)) (saved_memory s v)))
    | inr (offset, at) ↦ elim (Bool-cases (ltb offset (s.history_count - 1))) [
      | inl older ↦
          rw (lines, at, older)
            (shown (offset + 1) (record s { history_view_index = some (offset + 1) })
              (viewing (offset + 1) s (omega (tests, older)) v.memory))
      | inr oldest ↦ rw (lines, at, oldest) v
    ]
  ]
]

pub history_next-ShellIsValid : (s : Shell) → ShellIsValid s → ShellIsValid (history_next s)
unfolding history_next clear_onscreen_command
history_next-ShellIsValid s v = elim (Bool-cases (s.history_count == 0)) [
  | inl empty ↦ rw empty v
  | inr lines ↦ elim (Option-cases s.history_view_index) [
    | inl editing ↦ rw (lines, editing) v
    | inr (zero, at) ↦
        rw (lines, at)
          (back_to_line (record (clear_onscreen_command s) { history_view_index = none })
            (not_viewing (clear_onscreen_command s) (cleared s v.memory)))
    | inr (suc offset, at) ↦
        rw (lines, at)
          (shown offset (record (clear_onscreen_command s) { history_view_index = some offset })
            (viewing offset (clear_onscreen_command s)
              (omega (arith, v.memory.view (suc offset) at)) (cleared s v.memory)))
  ]
]
