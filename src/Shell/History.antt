-- ===== src/Shell/History.antt =====
-- The history of the shell: a ring of sixteen lines.
use frewozet.Base.{
  ℕ, zero, suc, ◌+◌, ◌-◌, ◌%◌, ◌≤◌, ◌<◌, ◌≡◌, ◌≢◌, refl, sym, ap, ◌∙◌, arith, Bool, true, false,
  Option, none, some, List, [], ◌∷◌, ltb, if◌then◌else◌, Bool-cases, Option-cases, inl, inr, ◌⊎◌,
  tests, ne→==, ltb→lt, update, ==_refl, subst,
}
use frewozet.CString.{strlen, strequal, strcpy}
use frewozet.CString.Holds.{Holds, strcpy-Holds}
use frewozet.Shell.{
  Shell, history_size, newest, history_add, history_physical_index, history_prev, set_line,
  save_current_line, show_entry, refresh_line,
}

-- The slots of the ring in the order in which they were filled, backwards from `next`: the slot in
-- front of the first is the last.
abbrev pub slot_before : ℕ → ℕ
slot_before zero = 15
slot_before (suc n) = n

abbrev pub slot : (next offset : ℕ) → ℕ
slot next zero = slot_before next
slot next (suc offset) = slot_before (slot next offset)

-- The entry that is `offset` lines older than the newest.
abbrev pub entry : ℕ → Shell → List ℕ
entry offset s = s.history (slot s.history_next_index offset)

slot_before-mod : (n : ℕ) → n < 16 → slot_before n ≡ (n + 15) % 16
slot_before-mod zero h = refl
slot_before-mod (suc n) h = omega arith

pub slot-mod :
    (next offset : ℕ) → next < 16 → offset < 16 → slot next offset ≡ (next + 15 - offset) % 16
slot-mod next zero h h' = slot_before-mod next h ∙ omega arith
slot-mod next (suc offset) h h' =
    let one = slot-mod next offset h (omega arith) in
    slot_before-mod (slot next offset) (omega (arith, one)) ∙ omega (arith, one)

history_physical_index-slot :
    (offset : ℕ) (s : Shell)
    → s.history_next_index < 16
    → offset < 16
    → history_physical_index offset s ≡ slot s.history_next_index offset
unfolding history_physical_index
history_physical_index-slot offset s h h' = omega (arith, slot-mod s.history_next_index offset h h')

-- The ring has at most sixteen entries, and is filled from the front.
pub record HistoryIsValid (s : Shell) : Type 0 where
  pub count : s.history_count ≤ history_size
  pub next : s.history_next_index < history_size
  pub front : s.history_count < history_size → s.history_next_index ≡ s.history_count

-- The line became the newest entry, the others are one older, and with sixteen of them the oldest is
-- gone.
pub record Added (line : List ℕ) (s s' : Shell) : Type 0 where
  pub some_line : line ≢ []
  pub new : (s.history_count ≡ 0) ⊎ (strequal (entry 0 s) line ≡ false)
  pub valid : HistoryIsValid s'
  pub first : entry 0 s' ≡ line
  pub older : (offset : ℕ) → offset + 1 < s'.history_count → entry (offset + 1) s' ≡ entry offset s
  pub counted : s'.history_count ≡ (if ltb s.history_count 16 then s.history_count + 1 else 16)

module _ (c : ℕ) (line : List ℕ) (s : Shell) (v : HistoryIsValid s)
    (new : (s.history_count ≡ 0) ⊎ (strequal (entry 0 s) (c ∷ line) ≡ false)) where
  added : Shell
  added = record s {
    history = update s.history s.history_next_index (c ∷ line);
    history_next_index = (s.history_next_index + 1) % history_size;
    history_count =
        if ltb s.history_count history_size then s.history_count + 1 else s.history_count;
  }

  added-Added : Added (c ∷ line) s added
  unfolding added
  added-Added = record {
    some_line = λ e. cc;
    new = new;
    valid = record {
      count = ground (arith, v.count);
      next = omega arith;
      front = λ h. ground (arith, v.count, v.next, v.front);
    };
    first = rw (at_next, ==_refl s.history_next_index) refl;
    older = λ offset h.
        let inside : offset + 1 < 16 = ground (arith, h, v.count) in
        let at = slot-mod next' (offset + 1) (omega arith) inside in
        let was = slot-mod s.history_next_index offset v.next (omega (arith, inside)) in
        rw
          (ne→== s.history_next_index (slot next' (offset + 1)) (omega (arith, at, inside, v.next)))
          (ap s.history (omega (arith, at, was, inside, v.next)));
    counted = ground (arith, v.count);
  }
    where
      next' : ℕ
      next' = (s.history_next_index + 1) % history_size

      at_next : slot next' 0 ≡ s.history_next_index
      at_next = omega (arith, slot-mod next' 0 (omega arith) (omega arith), v.next)

-- In a ring of at most sixteen lines, `shell_history_add` ignores an empty line and one that equals
-- the newest entry, and adds any other: it becomes the newest entry, the others are one older, and
-- of sixteen the oldest is gone. The newest entry is in the slot in front of the next one to be
-- filled, cyclically, and an older one in the slot in front of that.
pub history_add-Added :
    (line : List ℕ) (s : Shell)
    → HistoryIsValid s
    → ((history_add line s ≡ s)
        × ((line ≡ []) ⊎ ((0 < s.history_count) × (strequal (entry 0 s) line ≡ true))))
      ⊎ Added line s (history_add line s)
unfolding history_add newest added
history_add-Added [] s v = inl (refl, inl refl)
history_add-Added (c ∷ line) s v = elim (Bool-cases same) [
  | inl repeated ↦ rw repeated (inl (refl, inr (known repeated)))
  | inr new ↦ rw new (inr (added-Added c line s v (unknown new)))
]
  where
    same : Bool
    same = if ltb 0 s.history_count then strequal (s.history (newest s)) (c ∷ line) else false

    newest-entry : s.history (newest s) ≡ entry 0 s
    newest-entry =
        ap s.history (omega (arith, slot-mod s.history_next_index 0 v.next (omega arith)))

    known : same ≡ true → (0 < s.history_count) × (strequal (entry 0 s) (c ∷ line) ≡ true)
    known h = elim (Bool-cases (ltb 0 s.history_count)) [
      | inl some_lines ↦ (
        ltb→lt 0 s.history_count some_lines,
        ap (λ e. strequal e (c ∷ line)) (sym newest-entry) ∙ (rw some_lines at h),
      )
      | inr empty ↦ let never : false ≡ true = rw empty at h in cc
    ]

    unknown : same ≡ false → (s.history_count ≡ 0) ⊎ (strequal (entry 0 s) (c ∷ line) ≡ false)
    unknown h = elim (Bool-cases (ltb 0 s.history_count)) [
      | inl some_lines ↦
          inr (ap (λ e. strequal e (c ∷ line)) (sym newest-entry) ∙ (rw some_lines at h))
      | inr empty ↦ inl (omega (tests, empty))
    ]

-- The line is the entry at `offset`, with the cursor behind it.
pub record Shows (offset : ℕ) (s s' : Shell) : Type 0 where
  pub view : s'.history_view_index ≡ some offset
  pub text : Holds s'.buffer 0 (entry offset s)
  pub length : s'.buffer_length ≡ strlen (entry offset s)
  pub cursor : s'.cursor_pos ≡ strlen (entry offset s)

abbrev pub Older : Option ℕ → (s s' : Shell) → Type 0
Older none s s' = Shows 0 s s'
Older (some offset) s s' =
    ((offset + 1 < s.history_count) × Shows (offset + 1) s s')
    ⊎ ((s.history_count ≤ offset + 1) × (s' ≡ s))

-- While the history, a ring of at most sixteen lines, is not empty, Up shows the newest entry, or
-- the entry that is one older than the one shown; at the oldest it does nothing. The newest entry
-- is in the slot in front of the next one to be filled, cyclically, and an older one in the slot in
-- front of that.
pub history_prev-Older :
    (s : Shell)
    → HistoryIsValid s
    → s.history_count ≢ 0
    → Older s.history_view_index s (history_prev s)
unfolding history_prev show_entry set_line refresh_line save_current_line history_physical_index
history_prev-Older s v h = elim (Option-cases s.history_view_index) [
  | inl line ↦
      let at = same 0 (omega arith) in
      rw (ne→== s.history_count 0 h, line)
        (record {
          view = refl;
          text = loaded 0 (omega arith);
          length = ap strlen at;
          cursor = ap strlen at;
        })
  | inr (offset, at) ↦ elim (Bool-cases (ltb offset (s.history_count - 1))) [
    | inl older ↦
        let inside : offset + 1 < 16 = omega (tests, older, v.count) in
        rw (ne→== s.history_count 0 h, at, older)
          (inl (
            omega (tests, older),
            record {
              view = refl;
              text = loaded (offset + 1) inside;
              length = ap strlen (same (offset + 1) inside);
              cursor = ap strlen (same (offset + 1) inside);
            },
          ))
    | inr oldest ↦
        rw (ne→== s.history_count 0 h, at, oldest)
          (inr (omega (tests, oldest), ap (λ v. record s { history_view_index = v }) at))
  ]
]
  where
    same : (offset : ℕ) → offset < 16 → s.history (history_physical_index offset s) ≡ entry offset s
    same offset inside = ap s.history (history_physical_index-slot offset s v.next inside)

    loaded :
        (offset : ℕ)
        → offset < 16
        → Holds (strcpy 0 (s.history (history_physical_index offset s)) s.buffer) 0 (entry offset s)
    loaded offset inside =
        subst (λ e. Holds (strcpy 0 e s.buffer) 0 (entry offset s)) (sym (same offset inside))
          (strcpy-Holds (entry offset s) 0 s.buffer)
