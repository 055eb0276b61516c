-- ===== src/Kernel/Start.antt =====
-- The system from power on, through any interrupts.
use frewozet.Base.{
  ℕ, ◌≡◌, ◌∙◌, refl, sym, ap, subst, Option, none, some, List, [], ◌∷◌, Option-cases, ◌>>=◌, inl,
  inr,
}
use frewozet.CommandTable.{Node}
use frewozet.Memory.{memory_init, memory_enable_pmm_backend}
use frewozet.Paging.{remove_identity_map}
use frewozet.PmmInit.{pmm_init}
use frewozet.Commands.Lookup.{all_added}
use frewozet.Gdt.{Gdt, gdt_init}
use frewozet.Keyboard.{Keyboard}
use frewozet.Idt.{Idt, idt_init}
use frewozet.Shell.{print_prompt}
use frewozet.Shell.Invariant.{Fits, ShellIsValid}
use frewozet.System.{Run, running, stopped, exception, page_fault, shell_init, welcome}
use frewozet.System.Invariant.{RunIsValid}
use frewozet.System.Keys.{welcome-ShellIsValid, shell_init-Started}
use frewozet.Kernel.{
  Frame, Boot, Kernel, interrupt_handler, start_paging, start_pmm, start_heap, start_terminal,
  start_timer, start_shell, kmain,
}
use frewozet.Kernel.Interrupts.{interrupt_handler-IsValid}

-- The interrupts that are taken one after the other, with what the ports then read, as long as every
-- handler returns.
abbrev pub take_interrupts : List (Frame × (ℕ → ℕ)) → Run → Run
take_interrupts [] r = r
take_interrupts ((frame, inb) ∷ more) (running y) =
    take_interrupts more (interrupt_handler frame inb y)
take_interrupts ((frame, inb) ∷ more) (stopped y) = stopped y
take_interrupts ((frame, inb) ∷ more) (exception n y) = exception n y
take_interrupts ((frame, inb) ∷ more) page_fault = page_fault

take_interrupts-IsValid :
    (taken : List (Frame × (ℕ → ℕ))) (r : Run) → RunIsValid r → RunIsValid (take_interrupts taken r)
take_interrupts-IsValid [] r v = v
take_interrupts-IsValid ((frame, inb) ∷ more) (running y) v =
    take_interrupts-IsValid more (interrupt_handler frame inb y)
      (interrupt_handler-IsValid frame inb y v)
take_interrupts-IsValid ((frame, inb) ∷ more) (stopped y) v = tt
take_interrupts-IsValid ((frame, inb) ∷ more) (exception n y) v = tt
take_interrupts-IsValid ((frame, inb) ∷ more) page_fault v = tt

-- Of the kernel that a step leaves, if it does not fault.
abbrev IfSome : (Kernel → Type 0) → Option Kernel → Type 0
IfSome P none = Unit
IfSome P (some k) = P k

IfSome-bind :
    (P Q : Kernel → Type 0) (o : Option Kernel) (f : Kernel → Option Kernel)
    → IfSome P o
    → ((k : Kernel) → P k → IfSome Q (f k))
    → IfSome Q (o >>= f)
IfSome-bind P Q none f h step = tt
IfSome-bind P Q (some k) f h step = step k h

-- What starting the memory leaves alone.
record Rest : Type 0 where
  pub history : ℕ → List ℕ
  pub table : ℕ → List Node
  pub keyboard : Keyboard
  pub gdt : Gdt
  pub idt : Idt

abbrev rest_of : Kernel → Rest
rest_of k = record {
  history = k.system.shell.history;
  table = k.system.devices.table;
  keyboard = k.system.keyboard;
  gdt = k.gdt;
  idt = k.idt;
}

abbrev Keeps : (k k' : Kernel) → Type 0
Keeps k k' = rest_of k' ≡ rest_of k

start_paging-Keeps : (b : Boot) (k : Kernel) → IfSome (Keeps k) (start_paging b k)
unfolding start_paging
start_paging-Keeps b k = elim (Option-cases (remove_identity_map k.system.devices.memory.paging)) [
  | inl fault ↦ rw fault tt
  | inr (s, done) ↦ rw done refl
]

start_pmm-Keeps : (b : Boot) (k : Kernel) → IfSome (Keeps k) (start_pmm b k)
unfolding start_pmm
start_pmm-Keeps b k =
    elim (Option-cases (
      pmm_init k.system.devices.info b.kernel_end
        (memory_init k.system.devices.info b.kernel_end k.system.devices.memory))) [
          | inl fault ↦ rw fault tt
          | inr (m, done) ↦ rw done refl
        ]

start_heap-Keeps : (k : Kernel) → IfSome (Keeps k) (start_heap k)
unfolding start_heap
start_heap-Keeps k = elim (Option-cases (memory_enable_pmm_backend k.system.devices.memory)) [
  | inl fault ↦ rw fault tt
  | inr (m, done) ↦ rw done refl
]

-- What `kmain` has set up when it reaches its endless loop.
pub record Ready (b : Boot) (k k' : Kernel) : Type 0 where
  pub shell : ShellIsValid k'.system.shell
  pub empty : k'.system.shell.buffer_length ≡ 0
  pub keyboard : k'.system.keyboard ≡ k.system.keyboard
  pub commands : k'.system.devices.table ≡ all_added k.system.devices.table
  pub gdt : k'.gdt ≡ gdt_init b.gdt_address k.gdt
  pub idt : k'.idt ≡ idt_init b.stub b.idt_address k.idt

start_shell-Ready :
    (b : Boot) (k k1 : Kernel)
    → ((i : ℕ) → Fits (k.system.shell.history i))
    → Keeps (start_terminal b k) k1
    → IfSome (Ready b k) (start_shell (start_timer k1))
unfolding start_shell start_timer start_terminal print_prompt welcome
start_shell-Ready b k k1 entries same = elim (Option-cases (shell_init (start_timer k1).system)) [
  | inl fault ↦ rw fault tt
  | inr (y, done) ↦
      let started = shell_init-Started (start_timer k1).system y done in
      rw done (record {
        shell = subst ShellIsValid (sym started.shell) (
            welcome-ShellIsValid (start_timer k1).system.shell
              (λ i. subst Fits (sym (ap (λ r. r.history i) same)) (entries i)));
        empty = ap (λ s. s.buffer_length) started.shell;
        keyboard = started.keyboard ∙ ap (λ r. r.keyboard) same;
        commands = started.table ∙ ap (λ r. all_added r.table) same;
        gdt = ap (λ r. r.gdt) same;
        idt = ap (λ r. r.idt) same;
      })
]

-- If `kmain` reaches its endless loop, the shell is valid with an empty line, the commands are
-- registered, and the two descriptor tables are the initial ones; a page fault on the way is the
-- only other outcome.
pub kmain-Ready :
    (b : Boot) (k : Kernel)
    → ((i : ℕ) → Fits (k.system.shell.history i))
    → IfSome (Ready b k) (kmain b k)
unfolding kmain
kmain-Ready b k entries =
    let k0 = start_terminal b k in
    IfSome-bind (Keeps k0) (Ready b k) (start_paging b k0) _ (start_paging-Keeps b k0) (λ k1 h1.
      IfSome-bind (Keeps k1) (Ready b k) (start_pmm b k1) _ (start_pmm-Keeps b k1) (λ k2 h2.
        IfSome-bind (Keeps k2) (Ready b k) (start_heap k2) _ (start_heap-Keeps k2)
          (λ k3 h3. start_shell-Ready b k k3 entries (h3 ∙ h2 ∙ h1))))

pub reached-Ready :
    (b : Boot) (k k' : Kernel)
    → ((i : ℕ) → Fits (k.system.shell.history i))
    → kmain b k ≡ some k'
    → Ready b k k'
reached-Ready b k k' entries up = subst (IfSome (Ready b k)) up (kmain-Ready b k entries)

-- From a start that reaches the endless loop, through any sequence of interrupts, as long as every
-- handler returns: the line and the saved line fit their buffers, end with their only NUL and have
-- their cursors in them, the history is a ring of at most sixteen lines that fit, and the view is at
-- an entry that there is.
pub take_interrupts-kmain :
    (b : Boot) (k k' : Kernel) (taken : List (Frame × (ℕ → ℕ)))
    → ((i : ℕ) → Fits (k.system.shell.history i))
    → kmain b k ≡ some k'
    → RunIsValid (take_interrupts taken (running k'.system))
take_interrupts-kmain b k k' taken entries up =
    take_interrupts-IsValid taken (running k'.system) (reached-Ready b k k' entries up).shell
