-- ===== src/Locks/Main.antt =====
-- kernel_boot, kernel_main and kernel_cpu_main of main.rs, init_hardware of arch/arch_x86_64/mod.rs and
-- ap_entry of cpu/mod.rs beside it, as the locks that they take; and the kernel's processors together.
use oxidized.Common.{ℕ, zero, suc, Option, none, some, false, List, [], ◌∷◌, ◌++◌}
use oxidized.Locks.{acquire, unmask, State, device_tree, status_bits, ready_signal}
use oxidized.Locks.Code.{Code, scope, println, HeapCall, heap_calls, Message, log, logs}
use oxidized.Locks.Startup.{
  initialize_virtual_memory, init_framebuffer, idt_init, AcpiCall, Acpi, acpi_init, Apic, apic_init,
  init_ap, Started, start_additional_cpus, syscall_init,
}

-- What a run of `init_hardware` comes to, with the six lines that it logs before its steps.
pub record Hardware : Type 0 where
  pub gdt : Message
  pub tables : List HeapCall
  pub idt : Message
  pub acpi : Message
  pub acpi_run : Acpi
  pub apic : Message
  pub apic_run : Apic
  pub prints : ℕ
  pub platform : List AcpiCall
  pub cpus : List Started
  pub dropped : List HeapCall
  pub syscalls : Message
  pub table : List HeapCall
  pub registered : List HeapCall

abbrev pub init_hardware : Hardware → Code
init_hardware h =
    log h.gdt
    ++ (heap_calls h.tables
        ++ (log h.idt
            ++ (idt_init
                ++ (log h.acpi
                    ++ (acpi_init h.acpi_run
                        ++ (log h.apic
                            ++ (apic_init h.apic_run
                                ++ (start_additional_cpus h.prints h.platform h.cpus h.dropped
                                    ++ (log h.syscalls ++ syscall_init h.table h.registered)))))))))

abbrev pub kernel_ready : Code
kernel_ready = scope ready_signal []

abbrev pub spins : ℕ → Code
spins zero = []
spins (suc n) = kernel_ready ++ spins n

-- `waits`: the line of a processor that finds the kernel not ready, and its rounds of the loop; in the
-- end `wait_for_interrupt` takes interrupts.
abbrev pub wait_ready : Option (Message × ℕ) → Code
wait_ready none = []
wait_ready (some (m, rounds)) = log m ++ spins rounds

abbrev pub kernel_cpu_main : Option (Message × ℕ) → Message → Code
kernel_cpu_main waits entered = kernel_ready ++ (wait_ready waits ++ (log entered ++ (unmask ∷ [])))

-- A line with arguments on the heap: the names of the processor, or a device's path and name.
pub record Listed : Type 0 where
  pub arguments : List HeapCall
  pub line : Message
  pub dropped : List HeapCall

abbrev list_device : Listed → Code
list_device d = heap_calls d.arguments ++ (log d.line ++ heap_calls d.dropped)

abbrev pub list_devices : List Listed → Code
list_devices [] = []
list_devices (d ∷ ds) = list_device d ++ list_devices ds

pub record Run : Type 0 where
  pub prints : ℕ
  pub heap : Message
  pub memory : Message
  pub buffers : List HeapCall
  pub tree : List HeapCall
  pub framebuffer : List HeapCall
  pub hardware : Message
  pub hardware_run : Hardware
  pub online : Message
  pub versions : List Listed
  pub registered : List HeapCall
  pub lines : List Message
  pub keys : List HeapCall
  pub devices : List Listed
  pub dropped : List HeapCall
  pub entered : Message

abbrev pub early_init : Run → Code
early_init r =
    println
    ++ (initialize_virtual_memory r.prints r.heap r.memory
        ++ init_framebuffer r.buffers r.tree r.framebuffer)

-- The guard of the device tree is in scope to the end, and kernel_cpu_main does not return.
abbrev pub kernel_main : Run → Code
kernel_main r =
    scope status_bits []
    ++ (log r.online
        ++ (list_devices r.versions
            ++ (acquire device_tree
                ∷ (heap_calls r.registered
                    ++ (logs r.lines
                        ++ (heap_calls r.keys
                            ++ (list_devices r.devices
                                ++ (heap_calls r.dropped ++ kernel_cpu_main none r.entered))))))))

abbrev pub kernel_boot : Run → Code
kernel_boot r =
    println
    ++ (println
        ++ (println
            ++ (early_init r
                ++ (log r.hardware ++ (init_hardware r.hardware_run ++ kernel_main r)))))

-- Another processor, on the boot processor's tables.
pub record ApRun : Type 0 where
  pub starting : Message
  pub complete : Message
  pub waits : Option (Message × ℕ)
  pub entered : Message

abbrev pub ap_entry : ApRun → Code
ap_entry a = init_ap a.starting a.complete ++ (unmask ∷ kernel_cpu_main a.waits a.entered)

abbrev pub ap_code : Option ApRun → Code
ap_code none = []
ap_code (some a) = ap_entry a

-- Processor 0 boots; another one, if it starts, runs `ap_entry`.
abbrev pub run_on : Run → (ℕ → Option ApRun) → ℕ → Code
run_on r others zero = kernel_boot r
run_on r others (suc i) = ap_code (others i)

-- No lock is taken, and the interrupts are off, as the boot loader and the start-up code leave them.
abbrev pub start : Run → (ℕ → Option ApRun) → State
start r others = record {
  owner = λ l. none;
  code = run_on r others;
  guards = λ i. [];
  enabled = λ i. false;
}
