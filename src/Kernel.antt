-- ===== src/Kernel.antt =====
-- idt.c (interrupt_handler) and kernel.c: what an interrupt does to the whole system, and how the
-- system starts.
pub mod Interrupts
pub mod Start
pub mod Typing
pub mod NoMap
mod Tests
use frewozet.Base.{
  ℕ, zero, suc, ◌+◌, ◌-◌, ◌*◌, ◌%◌, ◌^◌, Bool, ◌&&◌, Option, none, some, List, [], ◌∷◌, ◌|>◌, ◌>>=◌,
  ltb, leb, ◌==◌, if◌then◌else◌, get_or, u8, update, bit_or,
}
use frewozet.Base.Text.{codes}
use Prim.Native.String.{String}
use frewozet.Commands.{Devices, terminal_write}
use frewozet.Gdt.{Gdt, gdt_init}
use frewozet.Idt.{Idt, idt_init}
use frewozet.Memory.{Memory, memory_init, memory_enable_pmm_backend}
use frewozet.Paging
use frewozet.Paging.{Paging}
use frewozet.Pic.{pic_remap, pic_send_eoi}
use frewozet.PmmInit.{pmm_init}
use frewozet.Shell.{Shell}
use frewozet.StartupError.{get_startup_errors}
use frewozet.System.{
  System, Run, running, stopped, exception, page_fault, shell_init, keyboard_handle,
}
use frewozet.Terminal
use frewozet.Terminal.{Terminal, vga_char, write_uint, write_hex32}
use frewozet.Timer.{Timer, timer_init, timer_tick}

-- `struct interrupt_frame`, as far as the handler reads it.
pub record Frame : Type 0 where
  pub interrupt_number : ℕ
  pub error_code : ℕ
  pub eip : ℕ
  pub cs : ℕ
  pub eflags : ℕ

unfoldable pub exception_names : List String
exception_names =
    "Divide Error" ∷ "Debug" ∷ "Non-maskable Interrupt" ∷ "Breakpoint" ∷ "Overflow"
    ∷ "Bound Range Exceeded" ∷ "Invalid Opcode" ∷ "Device Not Available" ∷ "Double Fault"
    ∷ "Coprocessor Segment Overrun" ∷ "Invalid TSS" ∷ "Segment Not Present" ∷ "Stack-Segment Fault"
    ∷ "General Protection Fault" ∷ "Page Fault" ∷ "Reserved" ∷ "x87 Floating-Point Exception"
    ∷ "Alignment Check" ∷ "Machine Check" ∷ "SIMD Floating-Point Exception"
    ∷ "Virtualization Exception" ∷ "Control Protection Exception" ∷ "Reserved" ∷ "Reserved"
    ∷ "Reserved" ∷ "Reserved" ∷ "Reserved" ∷ "Reserved" ∷ "Hypervisor Injection Exception"
    ∷ "VMM Communication Exception" ∷ "Security Exception" ∷ "Reserved" ∷ []

abbrev pub on_terminal : (Terminal → Terminal) → System → System
on_terminal f y = record y { shell = record (y.shell) { terminal = f y.shell.terminal } }

abbrev pub with_timer : (Timer → Timer) → System → System
with_timer f y = record y { devices = record (y.devices) { timer = f y.devices.timer } }

unfoldable pub report_exception : Frame → Terminal → Terminal
report_exception frame t =
    t
    |> terminal_write "\nFREWOZET SYSTEM ERROR: "
    |> terminal_write (get_or exception_names frame.interrupt_number "")
    |> terminal_write "\nInterrupt Number: "
    |> write_uint frame.interrupt_number
    |> terminal_write "\nError code: "
    |> write_hex32 frame.error_code
    |> terminal_write "\nExtended Instruction Pointer: "
    |> write_hex32 frame.eip
    |> terminal_write "\nCode Segment: "
    |> write_hex32 frame.cs
    |> terminal_write "\nExtended Flags: "
    |> write_hex32 frame.eflags
    |> terminal_write "\nSystem halted. Restart required.\n"

-- `pic_send_eoi` after a handler that returned.
unfoldable pub then_eoi : (irq : ℕ) → Run → Run
then_eoi irq (running y) = running (on_terminal (pic_send_eoi irq) y)
then_eoi irq (stopped y) = stopped y
then_eoi irq (exception n y) = exception n y
then_eoi irq page_fault = page_fault

-- `inb` is what reading a port gives.
unfoldable pub interrupt_handler : Frame → (inb : ℕ → ℕ) → System → Run
interrupt_handler frame inb y =
    let n = frame.interrupt_number in
    if ltb n 32
    then stopped (on_terminal (report_exception frame) y)
    else if n == 32
    then then_eoi 0 (running (with_timer timer_tick y))
    else if n == 33
    then then_eoi 1 (keyboard_handle (inb 0x60) y)
    else if leb 32 n && leb n 47
    then then_eoi (u8 (n - 32)) (running y)
    else running y

-- What the linker, the loader and the processor give `kmain`: where the tables and the interrupt
-- stubs are, the stack pointer, the end of the kernel, and what the ports read.
pub record Boot : Type 0 where
  pub gdt_address : ℕ
  pub idt_address : ℕ
  pub stub : ℕ → ℕ
  pub esp : ℕ
  pub kernel_end : ℕ
  pub inb : ℕ → ℕ

pub record Kernel : Type 0 where
  pub system : System
  pub gdt : Gdt
  pub idt : Idt

-- The loop of `kmain` that writes to the screen's memory, from `vga[i]` on.
unfoldable pub vga_message : List ℕ → ℕ → Terminal → Terminal
vga_message [] i t = t
vga_message (c ∷ msg) i t =
    vga_message msg (i + 1) (record t { buffer = update t.buffer i (bit_or (0x07 * 2 ^ 8) c) })

abbrev say : String → Kernel → Kernel
say str k = record k { system = on_terminal (terminal_write str) k.system }

abbrev pub with_memory : Memory → Kernel → Kernel
with_memory m k = record k {
  system = record (k.system) { devices = record (k.system.devices) { memory = m } };
}

abbrev pub with_paging : Paging → Kernel → Kernel
with_paging s k = with_memory (record (k.system.devices.memory) { paging = s }) k

-- `terminal_init` and the two descriptor tables.
unfoldable pub start_terminal : Boot → Kernel → Kernel
start_terminal b k =
    let show = vga_message (codes "Frewozet Kernel loaded, trying to start terminal....") 1200 in
    let k = record k { system = on_terminal (λ t. Terminal.init (show t)) k.system } in
    let k = say "Alticator Frewozet\n    Development Preview\n\n" k in
    let k = say "Installing kernel GDT...." k in
    let k = say "  OK\n" (record k { gdt = gdt_init b.gdt_address k.gdt }) in
    let k = say "Starting error handling system...." k in
    let k = say "  OK\n" (record k { idt = idt_init b.stub b.idt_address k.idt }) in
    let k = say "ESP: 0x" k in
    say "\n" (record k { system = on_terminal (write_hex32 b.esp) k.system })

-- Paging and the interrupt controllers; `paging_init` does nothing.
unfoldable pub start_paging : Boot → Kernel → Option Kernel
start_paging b k = do
  let k = say "Removing paging identity map" k
  s ← Paging.remove_identity_map k.system.devices.memory.paging
  let k = say "  OK\n" (with_paging s k)
  let k = say "  OK\n" (say "Initializing paging subsystem" k)
  let k = say "Starting PIC remapping...." k
  some (say "  OK\n" (record k { system = on_terminal (pic_remap b.inb 32 40) k.system }))

unfoldable pub start_pmm : Boot → Kernel → Option Kernel
start_pmm b k = do
  let info = k.system.devices.info
  let k = say "Initializing memory...." k
  let k = say "  OK\n" (with_memory (memory_init info b.kernel_end k.system.devices.memory) k)
  let k = say "Initializing physical memory management...." k
  m ← pmm_init info b.kernel_end k.system.devices.memory
  some (say "  OK\n" (with_memory m k))

unfoldable pub start_heap : Kernel → Option Kernel
start_heap k = do
  let k = say "Enabling PMM heap backend...." k
  m ← memory_enable_pmm_backend k.system.devices.memory
  some (say "  OK\n" (with_memory m k))

unfoldable pub write_startup_errors : Option (List ℕ) → Terminal → Terminal
write_startup_errors none t = t
write_startup_errors (some startup_errors) t =
    t
    |> terminal_write "\nFREWOZET SYSTEM ERROR: The following errors occured during startup:\n"
    |> Terminal.write startup_errors
    |> terminal_write "\n\nWARNING: Some features may not work properly due to the above errors.\n"

-- The timer and the startup errors; `sti` has no state here.
unfoldable pub start_timer : Kernel → Kernel
start_timer k =
    let k = say "Initializing timer at 100 Hz...." k in
    let (timer, t) = timer_init 100 (k.system.devices.timer, k.system.shell.terminal) in
    let k = record k { system = on_terminal (λ u. t) (with_timer (λ u. timer) k.system) } in
    let k = say "  OK\n" k in
    let k = say "  OK\n\n" (say "Enabling interrupts...." k) in
    let errors = get_startup_errors k.system.devices.memory.startup_errors in
    let k = record k { system = on_terminal (write_startup_errors errors) k.system } in
    say "Frewozet Kernel is ready. Starting Frewozet Shell....\n\n" k

unfoldable pub start_shell : Kernel → Option Kernel
start_shell k = do y ← shell_init k.system; some (record k { system = y })

-- `kmain`, up to its endless loop; `none` is a page fault.
unfoldable pub kmain : Boot → Kernel → Option Kernel
kmain b k = do
  k ← start_paging b (start_terminal b k)
  k ← start_pmm b k
  k ← start_heap k
  start_shell (start_timer k)
