-- ===== src/System/Typing.antt =====
-- Keys that type a line, from an empty line to Enter.
use frewozet.Base.{
  ℕ, suc, ◌+◌, ◌≤◌, ◌<◌, ◌≡◌, ◌≢◌, ◌∙◌, refl, sym, ap, subst, some, none, List, [], ◌∷◌, ◌++◌,
  append_nil, append_one, length, length-append, take, arith, Bool-cases, inl, inr, ne→==, eq→==,
  lt→ltb, ge→ltb, gt→leb, ◌-◌,
}
use frewozet.CString.Compare.{NulFree}
use frewozet.CString.Holds.{Holds}
use frewozet.Commands.Table.{Command, find_command, call}
use frewozet.Commands.Lookup.{all_added}
use frewozet.Ctype.{isalpha}
use frewozet.Keyboard.{Keyboard, translate_scancode}
use frewozet.Shell.{Shell, insert_char}
use frewozet.Shell.Line.{IsValid, insert_char-Inserted}
use frewozet.Shell.Edits.{insert_char-IsValid}
use frewozet.Tokenizer.Fields.{fields, between}
use frewozet.System.{
  System, Run, running, stopped, exception, page_fault, max_args, end_line, arguments, finish,
  enter, shell_handle_char, keyboard_handle,
}
use frewozet.System.Enter.{HoldsLine, enter-command}
use frewozet.System.Keys.{press_keys}

-- The key gives a character that goes into the line.
pub record Types (scancode c : ℕ) (k : Keyboard) : Type 0 where
  pub before_caps_lock : scancode < 0x3A
  pub no_left_shift : scancode ≢ 0x2A
  pub no_right_shift : scancode ≢ 0x36
  pub gives : translate_scancode scancode k ≡ c
  pub some_char : c ≢ 0
  pub no_enter : c ≢ 10
  pub no_backspace : c ≢ 8

abbrev pub TypesLine : Keyboard → List ℕ → List ℕ → Type 0
TypesLine k [] [] = Unit
TypesLine k [] (c ∷ line) = ⊥
TypesLine k (key ∷ keys) [] = ⊥
TypesLine k (key ∷ keys) (c ∷ line) = Types key c k × TypesLine k keys line

-- The line, with the cursor behind it.
record Typed (line : List ℕ) (s : Shell) : Type 0 where
  pub valid : IsValid s
  pub holds : Holds s.buffer 0 line
  pub free : NulFree line
  pub size : s.buffer_length ≡ length line
  pub cursor : s.cursor_pos ≡ length line

keyboard_handle-Types :
    (key c : ℕ) (y : System)
    → Types key c y.keyboard
    → keyboard_handle key y
      ≡ running
          (record y { shell = insert_char c (record (y.shell) { history_view_index = none }) })
unfolding keyboard_handle shell_handle_char
keyboard_handle-Types key c y t =
    rw
      (
        ne→== key 0x48 (omega (arith, t.before_caps_lock)),
        ne→== key 0x50 (omega (arith, t.before_caps_lock)),
        ne→== key 0x4B (omega (arith, t.before_caps_lock)),
        ne→== key 0x4D (omega (arith, t.before_caps_lock)),
        ne→== key 0x47 (omega (arith, t.before_caps_lock)),
        ne→== key 0x4F (omega (arith, t.before_caps_lock)),
        ne→== key 0x53 (omega (arith, t.before_caps_lock)),
        ne→== key 0x2A t.no_left_shift,
        ne→== key 0x36 t.no_right_shift,
        ne→== key 0xAA (omega (arith, t.before_caps_lock)),
        ne→== key 0xB6 (omega (arith, t.before_caps_lock)),
        ne→== key 0x3A (omega (arith, t.before_caps_lock)),
        gt→leb 128 key (omega (arith, t.before_caps_lock)),
        t.gives,
        ne→== c 0 t.some_char,
        ne→== c 10 t.no_enter,
        ne→== c 8 t.no_backspace,
      )
      refl

-- A buffer that agrees with a string and goes on with one more character.
Holds-append_one :
    (s : List ℕ) (c a : ℕ) (buffer buffer' : ℕ → ℕ)
    → Holds buffer a s
    → ((i : ℕ) → i < a + length s → buffer' i ≡ buffer i)
    → buffer' (a + length s) ≡ c
    → buffer' (a + length s + 1) ≡ 0
    → Holds buffer' a (s ++ c ∷ [])
Holds-append_one [] c a buffer buffer' h agree here behind = (
  subst (λ i. buffer' i ≡ c) {x = a + 0} (omega arith) here,
  subst (λ i. buffer' i ≡ 0) {x = a + 0 + 1} (omega arith) behind,
)
Holds-append_one (d ∷ s) c a buffer buffer' h agree here behind = (
  agree a (omega arith) ∙ h.0,
  Holds-append_one s c (a + 1) buffer buffer' h.1 (λ i lt. agree i (omega arith))
      (subst (λ i. buffer' i ≡ c) {x = a + suc (length s)} (omega arith) here)
      (subst (λ i. buffer' i ≡ 0) {x = a + suc (length s) + 1} (omega arith) behind),
)

NulFree-append_one : (s : List ℕ) (c : ℕ) → NulFree s → c ≢ 0 → NulFree (s ++ c ∷ [])
NulFree-append_one [] c f some_char = (omega (arith, some_char), tt)
NulFree-append_one (d ∷ s) c f some_char = (f.0, NulFree-append_one s c f.1 some_char)

-- One more character at the end of the line.
insert_char-Typed :
    (line : List ℕ) (c : ℕ) (s : Shell)
    → c ≢ 0
    → length line < 127
    → Typed line s
    → Typed (line ++ c ∷ []) (insert_char c s)
insert_char-Typed line c s some_char room t =
    let d = insert_char-Inserted c s t.valid (omega (arith, t.size)) in
    record {
      valid = insert_char-IsValid c s some_char t.valid;
      holds =
          Holds-append_one line c 0 s.buffer (insert_char c s).buffer t.holds
            (λ i lt.
              d.chars i (omega (arith, t.size))
              ∙ rw (lt→ltb i s.cursor_pos (omega (arith, t.cursor))) refl)
            (d.chars (0 + length line) (omega (arith, t.size))
              ∙ rw
                  (
                    ge→ltb (0 + length line) s.cursor_pos (omega (arith, t.cursor)),
                    eq→== (0 + length line) s.cursor_pos (omega (arith, t.cursor)),
                  )
                  refl)
            (d.chars (0 + length line + 1) (omega (arith, t.size))
              ∙ rw
                  (
                    ge→ltb (0 + length line + 1) s.cursor_pos (omega (arith, t.cursor)),
                    ne→== (0 + length line + 1) s.cursor_pos (omega (arith, t.cursor)),
                  )
                  (ap s.buffer {x = 0 + length line + 1 - 1} (omega (arith, t.size))
                    ∙ t.valid.ended));
      free = NulFree-append_one line c t.free some_char;
      size = omega (arith, d.length, t.size, length-append line (c ∷ []));
      cursor = omega (arith, d.cursor, t.cursor, length-append line (c ∷ []));
    }

editing_line :
    (line : List ℕ) (s : Shell) → Typed line s → Typed line (record s { history_view_index = none })
editing_line line s t = record {
  valid = record {
    cursor = t.valid.cursor;
    fits = t.valid.fits;
    ended = t.valid.ended;
    full = t.valid.full;
  };
  holds = t.holds;
  free = t.free;
  size = t.size;
  cursor = t.cursor;
}

-- Keys that type characters, from a line on: the line grows by them, and nothing else changes but
-- the shell.
press_keys-Typed :
    (keys line typed : List ℕ) (y : System)
    → TypesLine y.keyboard keys line
    → length typed + length line ≤ 127
    → Typed typed y.shell
    → (s : Shell) × (press_keys keys (running y) ≡ running (record y { shell = s }))
      × Typed (typed ++ line) s
press_keys-Typed [] [] typed y t room h =
    (y.shell, refl, subst (λ l. Typed l y.shell) (sym (append_nil typed)) h)
press_keys-Typed [] (c ∷ line) typed y t room h = absurd t
press_keys-Typed (key ∷ keys) [] typed y t room h = absurd t
press_keys-Typed (key ∷ keys) (c ∷ line) typed y t room h =
    let s = insert_char c (record (y.shell) { history_view_index = none }) in
    let (s', run, grown) =
      press_keys-Typed keys line (typed ++ c ∷ []) (record y { shell = s }) t.1
        (omega (arith, room, length-append typed (c ∷ [])))
        (insert_char-Typed typed c (record (y.shell) { history_view_index = none }) t.0.some_char
          (omega (arith, room)) (editing_line typed y.shell h)) in
    (
      s',
      ap (press_keys keys) (keyboard_handle-Types key c y t.0) ∙ run,
      subst (λ l. Typed l s') (append_one typed c line) grown,
    )

press_keys-append_one :
    (keys : List ℕ) (key : ℕ) (r : Run)
    → press_keys (keys ++ key ∷ []) r ≡ press_keys (key ∷ []) (press_keys keys r)
press_keys-append_one [] key r = refl
press_keys-append_one (k ∷ keys) key (running y) =
    press_keys-append_one keys key (keyboard_handle k y)
press_keys-append_one (k ∷ keys) key (stopped y) = refl
press_keys-append_one (k ∷ keys) key (exception n y) = refl
press_keys-append_one (k ∷ keys) key page_fault = refl

-- The Enter key, whatever shift and caps lock are.
enter_key : (y : System) → keyboard_handle 0x1C y ≡ enter y
unfolding keyboard_handle shell_handle_char translate_scancode isalpha
enter_key y = elim (Bool-cases y.keyboard.shift_down) [
  | inl shift ↦ rw shift refl
  | inr plain ↦ rw plain refl
]

-- Typing a line, from an empty line on, and Enter calls the command that its first field names, with
-- the line's first sixteen fields as its arguments, and then prints a new prompt. The line has at most
-- 127 characters, which the keys give in the state of shift and caps lock; the commands were
-- registered in an empty table.
pub press_keys-command :
    (y : System) (keys line name : List ℕ) (argv : List (List ℕ)) (cmd : Command)
    → IsValid y.shell
    → y.shell.buffer_length ≡ 0
    → TypesLine y.keyboard keys line
    → length line ≤ 127
    → take max_args (fields between line) ≡ name ∷ argv
    → y.devices.table ≡ all_added (λ i. [])
    → find_command name ≡ some cmd
    → (s : Shell) × HoldsLine line s
      × (let s' = (arguments (end_line s)).1 in
          press_keys (keys ++ 0x1C ∷ []) (running y)
          ≡ finish s' y.keyboard (call cmd.handler (name ∷ argv) s' s'.terminal y.devices))
press_keys-command y keys line name argv cmd v empty t short split table found =
    let (s, run, typed) = press_keys-Typed keys line [] y t (omega arith) start in
    let held : HoldsLine line s = record {
      holds = typed.holds;
      free = typed.free;
      size = typed.size;
      fits = short;
    } in
    (
      s,
      held,
      press_keys-append_one keys 0x1C (running y)
          ∙ ap (press_keys (0x1C ∷ [])) run
          ∙ enter_key (record y { shell = s })
          ∙ enter-command (record y { shell = s }) line name argv cmd held split table found,
    )
  where
    start : Typed [] y.shell
    start = record {
      valid = v;
      holds = ap y.shell.buffer (sym empty) ∙ v.ended;
      free = tt;
      size = empty;
      cursor = omega (arith, empty, v.cursor);
    }
