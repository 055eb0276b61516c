-- ===== src/Kernel/Tests.antt =====
-- A start without a memory map, and the interrupts of the timer and of a key.
use frewozet.Base.{ℕ, ◌++◌, ◌≡◌, refl, arith, some, false, [], ◌∷◌}
use frewozet.CString.{strlen}
use frewozet.RamMapper.{available}
use frewozet.Base.Text.{codes}
use frewozet.Commands.Table.{call}
use frewozet.Shell.{Shell}
use frewozet.System.Enter.{HoldsLine}
use frewozet.System.Keys.{press_keys}
use frewozet.System.SampleKeys.{help, help-known, help_keys, help-TypesLine, help_field}
use frewozet.System.{running, end_line, arguments, finish}
use frewozet.System.Invariant.{RunIsValid}
use frewozet.System.Sample.{system}
use frewozet.Kernel.{Frame, Boot, Kernel, interrupt_handler, kmain}
use frewozet.Kernel.Interrupts.{Acknowledged, interrupt_handler-Acknowledged}
use frewozet.Kernel.Typing.{press_keys-kmain}
use frewozet.Kernel.NoMap.{Bare, Loaded, kmain-no_map}
use frewozet.Kernel.Start.{take_interrupts, take_interrupts-kmain}

abbrev interrupt : ℕ → Frame
interrupt n = record {
  interrupt_number = n;
  error_code = 0;
  eip = 0xC0100000;
  cs = 8;
  eflags = 0x202;
}

abbrev boot : Boot
boot = record {
  gdt_address = 0xC0110000;
  idt_address = 0xC0111000;
  stub = λ i. 0xC0120000;
  esp = 0xC0090000;
  kernel_end = 0xC0130000;
  inb = λ port. 0xFF;
}

abbrev kernel : Kernel
kernel = record {
  system = record system { devices = record (system.devices) { table = λ i. [] } };
  gdt = record {
    gdt = λ i. record {
      limit_low = 0;
      base_low = 0;
      base_middle = 0;
      access = 0;
      granularity = 0;
      base_high = 0;
    };
    gp_limit = 0;
    gp_base = 0;
  };
  idt = record {
    idt = λ i. record { offset_low = 0; selector = 0; zero = 0; type_attr = 0; offset_high = 0 };
    idtp_limit = 0;
    idtp_base = 0;
  };
}

kernel-Bare : Bare kernel
unfolding available
kernel-Bare = record { no_map = refl; no_bitmap = refl; bootstrap = refl }

boot-Loaded : Loaded boot
boot-Loaded = record { above = omega arith; below = omega arith }

kmain-no_map_example :
    (k' : Kernel) × (kmain boot kernel ≡ some k')
    × (k'.system.devices.memory.pmm_backend_enabled ≡ false)
kmain-no_map_example = kmain-no_map boot kernel boot-Loaded kernel-Bare

empty_fits : strlen [] ≡ 0
unfolding strlen
empty_fits = refl

interrupt_handler-Acknowledged_example :
    Acknowledged 1 (interrupt_handler (interrupt 33) (λ port. 0x1E) system)
interrupt_handler-Acknowledged_example =
    interrupt_handler-Acknowledged (interrupt 33) (λ port. 0x1E) system (omega arith) (omega arith)

take_interrupts-kmain_example : RunIsValid (
    take_interrupts
      ((interrupt 32, λ port. 0) ∷ (interrupt 33, λ port. 0x1E) ∷ [])
      (running (kmain-no_map boot kernel boot-Loaded kernel-Bare).0.system))
take_interrupts-kmain_example =
    take_interrupts-kmain boot kernel ((kmain-no_map boot kernel boot-Loaded kernel-Bare).0)
      ((interrupt 32, λ port. 0) ∷ (interrupt 33, λ port. 0x1E) ∷ [])
      (λ i. (tt, omega (arith, empty_fits))) ((kmain-no_map boot kernel boot-Loaded kernel-Bare).1)

abbrev fresh : Kernel
fresh = (kmain-no_map boot kernel boot-Loaded kernel-Bare).0

press_keys-kmain_example :
    (s : Shell) × HoldsLine (codes "help") s
    × (let s' = (arguments (end_line s)).1 in
        press_keys (help_keys ++ 0x1C ∷ []) (running fresh.system)
        ≡ finish s' fresh.system.keyboard
            (call 0 (codes "help" ∷ []) s' s'.terminal fresh.system.devices))
press_keys-kmain_example =
    press_keys-kmain boot kernel fresh help_keys (codes "help") (codes "help") [] help
      (λ i. (tt, omega (arith, empty_fits))) refl
      ((kmain-no_map boot kernel boot-Loaded kernel-Bare).1) help-TypesLine (omega arith) help_field
      help-known
