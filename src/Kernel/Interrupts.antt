-- ===== src/Kernel/Interrupts.antt =====
-- Interrupts keep the shell valid, and are acknowledged.
use frewozet.Base.{
  ℕ, ◌-◌, ◌≤◌, ◌<◌, ◌≡◌, refl, subst, ◌&&◌, List, ◌∷◌, arith, tests, ltb, leb, ◌==◌, if◌then◌else◌,
  Bool-cases, inl, inr, u8, ge→ltb, le→leb,
}
use frewozet.Pic.{pic_send_eoi}
use frewozet.Shell.Invariant.{ShellIsValid, remembered}
use frewozet.System.{System, Run, running, stopped, exception, page_fault, keyboard_handle}
use frewozet.System.Invariant.{RunIsValid, if_IsValid, keyboard_handle-IsValid}
use frewozet.Terminal.{Terminal}
use frewozet.Timer.{timer_tick}
use frewozet.Kernel.{Frame, on_terminal, with_timer, then_eoi, interrupt_handler}

on_terminal-ShellIsValid :
    (f : Terminal → Terminal) (y : System)
    → ShellIsValid y.shell
    → ShellIsValid (on_terminal f y).shell
on_terminal-ShellIsValid f y v = record {
  line = record {
    cursor = v.line.cursor;
    fits = v.line.fits;
    ended = v.line.ended;
    full = v.line.full;
  };
  memory = remembered y.shell (on_terminal f y).shell refl v.memory;
}

then_eoi-IsValid : (irq : ℕ) (r : Run) → RunIsValid r → RunIsValid (then_eoi irq r)
unfolding then_eoi
then_eoi-IsValid irq (running y) v = on_terminal-ShellIsValid (pic_send_eoi irq) y v
then_eoi-IsValid irq (stopped y) v = tt
then_eoi-IsValid irq (exception n y) v = tt
then_eoi-IsValid irq page_fault v = tt

-- After any interrupt, if its handler returns, the line, the saved line, the history and the view of
-- the shell are valid again.
pub interrupt_handler-IsValid :
    (frame : Frame) (inb : ℕ → ℕ) (y : System)
    → ShellIsValid y.shell
    → RunIsValid (interrupt_handler frame inb y)
unfolding interrupt_handler
interrupt_handler-IsValid frame inb y v =
    let n = frame.interrupt_number in
    if_IsValid _ _ (ltb n 32) tt (λ h.
      if_IsValid _ _ (n == 32) (then_eoi-IsValid 0 (running (with_timer timer_tick y)) v) (λ h.
        if_IsValid _ _ (n == 33)
          (then_eoi-IsValid 1 (keyboard_handle (inb 0x60) y)
            (keyboard_handle-IsValid (inb 0x60) y v))
          (λ h.
            if_IsValid _ _ (leb 32 n && leb n 47) (then_eoi-IsValid (u8 (n - 32)) (running y) v)
              (λ h. v))))

-- The last that was written to the ports is the end-of-interrupt of the first controller, and for a
-- request of the second controller the one before it is its own.
abbrev pub Acknowledged : (irq : ℕ) → Run → Type 0
Acknowledged irq (running y) =
    (ports : List (ℕ × ℕ)) × (y.shell.terminal.ports
      ≡ (0x20, 0x20) ∷ (if leb 8 irq then (0xA0, 0x20) ∷ ports else ports))
Acknowledged irq (stopped y) = Unit
Acknowledged irq (exception n y) = Unit
Acknowledged irq page_fault = Unit

then_eoi-Acknowledged : (irq : ℕ) (r : Run) → Acknowledged irq (then_eoi irq r)
unfolding then_eoi pic_send_eoi
then_eoi-Acknowledged irq (running y) = (
  y.shell.terminal.ports,
  elim (Bool-cases (leb 8 irq)) [ inl second ↦ rw second refl | inr first ↦ rw first refl ],
)
then_eoi-Acknowledged irq (stopped y) = tt
then_eoi-Acknowledged irq (exception n y) = tt
then_eoi-Acknowledged irq page_fault = tt

-- Each of the sixteen hardware interrupts is acknowledged, after its handler, to the controllers
-- that sent it.
pub interrupt_handler-Acknowledged :
    (frame : Frame) (inb : ℕ → ℕ) (y : System)
    → 32 ≤ frame.interrupt_number
    → frame.interrupt_number < 48
    → Acknowledged (frame.interrupt_number - 32) (interrupt_handler frame inb y)
unfolding interrupt_handler
interrupt_handler-Acknowledged frame inb y low high =
    rw (ge→ltb frame.interrupt_number 32 low) (elim (Bool-cases (frame.interrupt_number == 32)) [
      | inl timer ↦ rw timer (
          subst (λ i. Acknowledged i (then_eoi 0 (running (with_timer timer_tick y)))) {x = 0}
            (omega (tests, timer)) (then_eoi-Acknowledged 0 (running (with_timer timer_tick y))))
      | inr other ↦ elim (Bool-cases (frame.interrupt_number == 33)) [
        | inl key ↦
            rw (other, key)
              (subst (λ i. Acknowledged i (then_eoi 1 (keyboard_handle (inb 0x60) y))) {x = 1}
                (omega (tests, key)) (then_eoi-Acknowledged 1 (keyboard_handle (inb 0x60) y)))
        | inr rest ↦
            rw
              (
                other,
                rest,
                le→leb 32 frame.interrupt_number low,
                le→leb frame.interrupt_number 47 (omega arith),
              )
              (subst (λ i. Acknowledged i (then_eoi (u8 (frame.interrupt_number - 32)) (running y)))
                {x = u8 (frame.interrupt_number - 32)} (omega arith)
                (then_eoi-Acknowledged (u8 (frame.interrupt_number - 32)) (running y)))
      ]
    ])
