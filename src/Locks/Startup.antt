-- ===== src/Locks/Startup.antt =====
-- The locks that a processor takes from its entry point to its loop in kernel_cpu_main: main.rs,
-- memory/mod.rs, memory/allocator.rs, framebuffer/mod.rs and, in arch/arch_x86_64, mod.rs, idt/mod.rs,
-- acpi/mod.rs, apic/mod.rs, cpu/mod.rs and syscall/mod.rs. The initialisers of lazy_static stand where
-- the boot processor first comes to them.
use oxidized.Common.{ℕ, zero, suc, List, [], ◌∷◌, ◌++◌}
use oxidized.Locks.{
  device_tree, syscall_tables, frame_buffer, allocator, memory_manager, status_bits,
  software_handlers,
}
use oxidized.Locks.Code.{
  Code, scope, println, allocate_heap_space, HeapCall, heap_call, heap_calls, Message, log, logs,
  identity_map,
}

abbrev pub init_kernel_heap : ℕ → Message → Code
init_kernel_heap prints m = println ++ (scope allocator (allocate_heap_space prints) ++ log m)

abbrev pub initialize_virtual_memory : ℕ → Message → Message → Code
initialize_virtual_memory prints m done =
    println ++ (scope memory_manager [] ++ (println ++ (init_kernel_heap prints m ++ log done)))

-- The buffers under the lock of the frame buffer, and then the device; the tree itself is made before
-- its lock is taken.
abbrev pub init_framebuffer : List HeapCall → List HeapCall → List HeapCall → Code
init_framebuffer buffers tree device =
    scope frame_buffer (heap_calls buffers)
    ++ (heap_calls tree ++ scope device_tree (heap_calls device))

abbrev pub set_interrupt_handler : Code
set_interrupt_handler = scope software_handlers []

abbrev pub idt_init : Code
idt_init = set_interrupt_handler ++ (set_interrupt_handler ++ set_interrupt_handler)

-- What the acpi crate does while it parses: it maps regions, through the kernel's handler, and allocates.
pub data AcpiCall : Type 0 where
  maps_region : AcpiCall
  allocates : HeapCall → AcpiCall

abbrev acpi_call : AcpiCall → Code
acpi_call maps_region = scope memory_manager []
acpi_call (allocates h) = heap_call h

abbrev pub acpi_calls : List AcpiCall → Code
acpi_calls [] = []
acpi_calls (c ∷ cs) = acpi_call c ++ acpi_calls cs

-- What a run of `acpi::init`, and of `apic::init` with or without x2, comes to.
pub record Acpi : Type 0 where
  pub load : List AcpiCall
  pub loaded : Message
  pub platform : List AcpiCall
  pub processors : List Message
  pub dropped : List HeapCall

abbrev pub acpi_init : Acpi → Code
acpi_init a =
    acpi_calls a.load
    ++ (log a.loaded ++ (acpi_calls a.platform ++ (logs a.processors ++ heap_calls a.dropped)))

abbrev pub init_ap : Message → Message → Code
init_ap starting complete = log starting ++ log complete

pub data Mode : Type 0 where
  x2 : Mode
  legacy : (prints : ℕ) → Mode

abbrev pub map_registers : Mode → Code
map_registers x2 = []
map_registers (legacy prints) = identity_map prints

pub record Apic : Type 0 where
  pub platform : List AcpiCall
  pub pics : List Message
  pub found : Message
  pub mode : Mode
  pub starting : Message
  pub complete : Message
  pub dropped : List HeapCall

abbrev pub apic_init : Apic → Code
apic_init a =
    acpi_calls a.platform
    ++ (logs a.pics
        ++ (log a.found
            ++ (map_registers a.mode ++ (init_ap a.starting a.complete ++ heap_calls a.dropped))))

abbrev pub is_ready : Code
is_ready = scope status_bits []

abbrev pub polls : ℕ → Code
polls zero = []
polls (suc n) = is_ready ++ polls n

-- One processor started: its stack, the two commands, and the wait for its bit, of `polls` rounds.
pub record Started : Type 0 where
  pub stack : HeapCall
  pub init_sent : Message
  pub start_sent : Message
  pub waited : ℕ
  pub ready : Message

abbrev pub start_cpu : Started → Code
start_cpu c =
    heap_call c.stack ++ (log c.init_sent ++ (log c.start_sent ++ (polls c.waited ++ log c.ready)))

abbrev pub start_cpus : List Started → Code
start_cpus [] = []
start_cpus (c ∷ cs) = start_cpu c ++ start_cpus cs

abbrev pub start_additional_cpus : ℕ → List AcpiCall → List Started → List HeapCall → Code
start_additional_cpus prints platform cpus dropped =
    identity_map prints ++ (acpi_calls platform ++ (start_cpus cpus ++ heap_calls dropped))

abbrev pub syscall_init : List HeapCall → List HeapCall → Code
syscall_init table registered = heap_calls table ++ scope syscall_tables (heap_calls registered)
