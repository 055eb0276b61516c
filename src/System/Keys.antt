-- ===== src/System/Keys.antt =====
-- The system from its start on, through any sequence of keys.
use frewozet.Base.{
  ◌≡◌, sym, subst, Option, none, some, Option-cases, inl, inr, ℕ, refl, List, [], ◌∷◌, arith,
}
use frewozet.Commands.Table.{register_all_commands}
use frewozet.Commands.Lookup.{all_added, register_all_commands-all_added}
use frewozet.Shell.{Shell, print_prompt}
use frewozet.Shell.Invariant.{Fits, ShellIsValid}
use frewozet.Shell.Kept.{print_prompt-ShellIsValid}
use frewozet.System.{
  System, Run, running, stopped, exception, page_fault, welcome, shell_init, keyboard_handle,
}
use frewozet.System.Invariant.{RunIsValid, keyboard_handle-IsValid}

-- One scancode after the other, as long as the handler returns.
abbrev pub press_keys : List ℕ → Run → Run
press_keys [] r = r
press_keys (k ∷ keys) (running y) = press_keys keys (keyboard_handle k y)
press_keys (k ∷ keys) (stopped y) = stopped y
press_keys (k ∷ keys) (exception n y) = exception n y
press_keys (k ∷ keys) page_fault = page_fault

press_keys-IsValid : (keys : List ℕ) (r : Run) → RunIsValid r → RunIsValid (press_keys keys r)
press_keys-IsValid [] r v = v
press_keys-IsValid (k ∷ keys) (running y) v =
    press_keys-IsValid keys (keyboard_handle k y) (keyboard_handle-IsValid k y v)
press_keys-IsValid (k ∷ keys) (stopped y) v = tt
press_keys-IsValid (k ∷ keys) (exception n y) v = tt
press_keys-IsValid (k ∷ keys) page_fault v = tt

pub welcome-ShellIsValid :
    (s : Shell) → ((i : ℕ) → Fits (s.history i)) → ShellIsValid (print_prompt (welcome s))
unfolding welcome
welcome-ShellIsValid s entries = print_prompt-ShellIsValid (welcome s) refl refl refl (record {
  ring = record { count = omega arith; next = omega arith; front = λ h. refl };
  entries = entries;
  saved = record {
    cursor = omega arith;
    fits = omega arith;
    ended = refl;
    full = λ i h. absurd (omega arith);
  };
  view = λ offset never. cc;
})

-- What `shell_init` leaves, when registering the commands does not fault.
pub record Started (y y' : System) : Type 0 where
  pub shell : y'.shell ≡ print_prompt (welcome y.shell)
  pub keyboard : y'.keyboard ≡ y.keyboard
  pub table : y'.devices.table ≡ all_added y.devices.table

pub shell_init-Started : (y y' : System) → shell_init y ≡ some y' → Started y y'
unfolding shell_init
shell_init-Started y y' e =
    elim (Option-cases (register_all_commands y.devices.table y.devices.memory)) [
      | inl fault ↦ let never : ◌≡◌ {A = Option System} none (some y') = rw fault at e in cc
      | inr ((table, m), done) ↦
          let y1 : System = record y {
            shell = print_prompt (welcome y.shell);
            devices = record (y.devices) { table = table; memory = m };
          } in
          let some_same : ◌≡◌ {A = Option System} (some y1) (some y') = rw done at e in
          let same : y1 ≡ y' = cc in
          subst (Started y) same (record {
            shell = refl;
            keyboard = refl;
            table = register_all_commands-all_added y.devices.table table y.devices.memory m done;
          })
    ]

-- From `shell_init` on, whatever keys are pressed and whatever commands they run, as long as every
-- handler returns: the line and the saved line fit their buffers, end with their only NUL and have
-- their cursors in them; the history is a ring of at most sixteen lines that fit; and the view is at
-- an entry that there is. The history's buffers hold lines that fit before the start, as zeros do.
pub press_keys-shell_init :
    (keys : List ℕ) (y y' : System)
    → ((i : ℕ) → Fits (y.shell.history i))
    → shell_init y ≡ some y'
    → RunIsValid (press_keys keys (running y'))
press_keys-shell_init keys y y' entries up = press_keys-IsValid keys (running y') (
    subst ShellIsValid (sym (shell_init-Started y y' up).shell)
      (welcome-ShellIsValid y.shell entries))
