-- ===== src/Shell/Load.antt =====
-- shell_load_buffer of shell.c, which nothing calls: a text as the line, cut to the buffer's size.
use frewozet.Base.{
  ℕ, zero, suc, ◌+◌, ◌-◌, ◌≡◌, refl, List, [], ◌∷◌, take, ltb, if◌then◌else◌, update, arith, lt→ltb,
  ge→ltb,
}
use frewozet.Base.Text.{codes}
use frewozet.CString.{strcpy, strlen}
use frewozet.Terminal.{colorshell_writechar}
use frewozet.Shell.{Shell, buffer_size}

-- The loop of `shell_load_buffer`, at `i`: where it ends, and the shell then.
unfoldable load_chars : (text : List ℕ) (i : ℕ) → Shell → ℕ × Shell
load_chars [] i s = (i, s)
load_chars (c ∷ text) i s =
    let rest = load_chars text (i + 1) (record s {
      buffer = update s.buffer i c;
      terminal = colorshell_writechar c (codes "default") s.terminal;
    }) in
    if ltb i (buffer_size - 1) then rest else (i, s)

pub load_buffer : List ℕ → Shell → Shell
load_buffer text s =
    let (i, s) = load_chars text 0 s in record s { buffer = update s.buffer i 0; buffer_length = i }

-- From `i` on, at most `room` more characters fit.
load_chars-strcpy :
    (text : List ℕ) (room i : ℕ) (s : Shell)
    → i + room ≡ 127
    → let k = load_chars text i s in
      (update ((k.1).buffer) (k.0) 0 ≡ strcpy i (take room text) s.buffer)
      × (k.0 ≡ i + strlen (take room text))
unfolding load_chars strcpy strlen
load_chars-strcpy [] zero i s full = (refl, omega arith)
load_chars-strcpy [] (suc room) i s full = (refl, omega arith)
load_chars-strcpy (c ∷ text) zero i s full =
    rw (ge→ltb i 127 (omega (arith, full))) (refl, omega arith)
load_chars-strcpy (c ∷ text) (suc room) i s full =
    let k =
      load_chars-strcpy text room (i + 1)
        (record s {
          buffer = update s.buffer i c;
          terminal = colorshell_writechar c (codes "default") s.terminal;
        })
        (omega (arith, full)) in
    rw (lt→ltb i 127 (omega (arith, full))) (k.0, omega (arith, k.1))

-- `shell_load_buffer` leaves what copying the first 127 characters of the text would leave.
load_buffer-strcpy :
    (text : List ℕ) (s : Shell)
    → ((load_buffer text s).buffer ≡ strcpy 0 (take 127 text) s.buffer)
      × ((load_buffer text s).buffer_length ≡ strlen (take 127 text))
unfolding load_buffer
load_buffer-strcpy text s = let k = load_chars-strcpy text 127 0 s refl in (k.0, omega (arith, k.1))
