-- ===== src/Locks/Nesting/Boots.antt =====
-- The order of the locks in the start of the kernel, on the boot processor and on the others.
use oxidized.Common.{ℕ, zero, suc, ◌≤◌, refl, arith, Bool, false, Option, none, some, List, [], ◌∷◌}
use oxidized.Locks.{
  Lock, device_tree, syscall_tables, frame_buffer, allocator, memory_manager, status_bits,
  ready_signal, software_handlers,
}
use oxidized.Locks.Code.{HeapCall, heap_calls, Message, log}
use oxidized.Locks.Startup.{
  init_kernel_heap, initialize_virtual_memory, set_interrupt_handler, idt_init, AcpiCall,
  maps_region, allocates, acpi_calls, Acpi, acpi_init, init_ap, Mode, x2, legacy, map_registers,
  Apic, apic_init, polls, Started, start_cpus, start_additional_cpus, syscall_init,
}
use oxidized.Locks.Main.{
  Hardware, init_hardware, kernel_ready, spins, wait_ready, Listed, list_devices, Run, early_init,
}
use oxidized.Locks.Nesting.{IsNested, raised, []-IsNested, ++-IsNested}
use oxidized.Locks.Nesting.Calls.{
  scope_from, empty_scope, println-IsNested, identity_map-IsNested, heap_call-IsNested,
  heap_calls-IsNested, log-IsNested, logs-IsNested,
}

module _ {on : Bool} (m : Lock) (h : m ≤ syscall_tables) where
  pub heaps : (cs : List HeapCall) → IsNested on m (heap_calls cs)
  heaps = heap_calls-IsNested m (omega arith)

  pub prints : (t : Message) → IsNested on m (log t)
  prints = log-IsNested m (omega arith)

  init_kernel_heap-IsNested : (n : ℕ) (t : Message) → IsNested on m (init_kernel_heap n t)
  init_kernel_heap-IsNested n t = ++-IsNested (println-IsNested m (omega arith)) (
      ++-IsNested
        (scope_from m allocator (identity_map-IsNested n (suc allocator) (omega arith))
          (omega arith) (omega arith))
        (prints t))

  initialize_virtual_memory-IsNested :
      (n : ℕ) (t u : Message) → IsNested on m (initialize_virtual_memory n t u)
  initialize_virtual_memory-IsNested n t u =
      let line = println-IsNested m (omega arith) in
      ++-IsNested line (
        ++-IsNested (empty_scope m memory_manager (omega arith) (omega arith))
          (++-IsNested line (++-IsNested (init_kernel_heap-IsNested n t) (prints u))))

  acpi_calls-IsNested : (cs : List AcpiCall) → IsNested on m (acpi_calls cs)
  acpi_calls-IsNested [] = []-IsNested m
  acpi_calls-IsNested (maps_region ∷ cs) =
      ++-IsNested (empty_scope m memory_manager (omega arith) (omega arith))
        (acpi_calls-IsNested cs)
  acpi_calls-IsNested (allocates c ∷ cs) =
      ++-IsNested (heap_call-IsNested m (omega arith) c) (acpi_calls-IsNested cs)

  acpi_init-IsNested : (a : Acpi) → IsNested on m (acpi_init a)
  acpi_init-IsNested a = ++-IsNested (acpi_calls-IsNested a.load) (
      ++-IsNested (prints a.loaded) (
        ++-IsNested (acpi_calls-IsNested a.platform)
          (++-IsNested (logs-IsNested m (omega arith) a.processors) (heaps a.dropped))))

  pub init_ap-IsNested : (t u : Message) → IsNested on m (init_ap t u)
  init_ap-IsNested t u = ++-IsNested (prints t) (prints u)

  map_registers-IsNested : (k : Mode) → IsNested on m (map_registers k)
  map_registers-IsNested x2 = []-IsNested m
  map_registers-IsNested (legacy n) = identity_map-IsNested n m (omega arith)

  apic_init-IsNested : (a : Apic) → IsNested on m (apic_init a)
  apic_init-IsNested a = ++-IsNested (acpi_calls-IsNested a.platform) (
      ++-IsNested (logs-IsNested m (omega arith) a.pics) (
        ++-IsNested (prints a.found) (
          ++-IsNested (map_registers-IsNested a.mode)
            (++-IsNested (init_ap-IsNested a.starting a.complete) (heaps a.dropped)))))

  polls-IsNested : (n : ℕ) → IsNested on m (polls n)
  polls-IsNested zero = []-IsNested m
  polls-IsNested (suc n) =
      ++-IsNested (empty_scope m status_bits (omega arith) (omega arith)) (polls-IsNested n)

  start_cpus-IsNested : (cs : List Started) → IsNested on m (start_cpus cs)
  start_cpus-IsNested [] = []-IsNested m
  start_cpus-IsNested (c ∷ cs) =
      ++-IsNested
        (++-IsNested (heap_call-IsNested m (omega arith) c.stack) (
          ++-IsNested (prints c.init_sent) (
            ++-IsNested (prints c.start_sent)
              (++-IsNested (polls-IsNested c.waited) (prints c.ready)))))
        (start_cpus-IsNested cs)

  start_additional_cpus-IsNested :
      (n : ℕ) (platform : List AcpiCall) (cs : List Started) (dropped : List HeapCall)
      → IsNested on m (start_additional_cpus n platform cs dropped)
  start_additional_cpus-IsNested n platform cs dropped =
      ++-IsNested (identity_map-IsNested n m (omega arith)) (
        ++-IsNested (acpi_calls-IsNested platform)
          (++-IsNested (start_cpus-IsNested cs) (heaps dropped)))

  syscall_init-IsNested : (bs cs : List HeapCall) → IsNested on m (syscall_init bs cs)
  syscall_init-IsNested bs cs = ++-IsNested (heaps bs) (
      scope_from m syscall_tables (heap_calls-IsNested (suc syscall_tables) (omega arith) cs) h
        (omega arith))

  pub kernel_ready-IsNested : IsNested on m kernel_ready
  kernel_ready-IsNested = empty_scope m ready_signal (omega arith) (omega arith)

  spins-IsNested : (n : ℕ) → IsNested on m (spins n)
  spins-IsNested zero = []-IsNested m
  spins-IsNested (suc n) = ++-IsNested kernel_ready-IsNested (spins-IsNested n)

  pub wait_ready-IsNested : (w : Option (Message × ℕ)) → IsNested on m (wait_ready w)
  wait_ready-IsNested none = []-IsNested m
  wait_ready-IsNested (some (t, n)) = ++-IsNested (prints t) (spins-IsNested n)

  pub list_devices-IsNested : (ds : List Listed) → IsNested on m (list_devices ds)
  list_devices-IsNested [] = []-IsNested m
  list_devices-IsNested (d ∷ ds) =
      ++-IsNested (++-IsNested (heaps d.arguments) (++-IsNested (prints d.line) (heaps d.dropped)))
        (list_devices-IsNested ds)

-- With the interrupts off.
set_interrupt_handler-IsNested :
    (m : Lock) → m ≤ software_handlers → IsNested false m set_interrupt_handler
set_interrupt_handler-IsNested m h = record {
  insert = λ first gs rest k a o.
      (raised m software_handlers h gs a, (omega (arith, h, k), omega arith), (gs, refl, o));
}

idt_init-IsNested : (m : Lock) → m ≤ software_handlers → IsNested false m idt_init
idt_init-IsNested m h =
    let one = set_interrupt_handler-IsNested m h in ++-IsNested one (++-IsNested one one)

pub init_hardware-IsNested :
    (m : Lock) → m ≤ syscall_tables → (r : Hardware) → IsNested false m (init_hardware r)
init_hardware-IsNested m h r = ++-IsNested (prints m h r.gdt) (
    ++-IsNested (heaps m h r.tables) (
      ++-IsNested (prints m h r.idt) (
        ++-IsNested (idt_init-IsNested m (omega arith)) (
          ++-IsNested (prints m h r.acpi) (
            ++-IsNested (acpi_init-IsNested m h r.acpi_run) (
              ++-IsNested (prints m h r.apic) (
                ++-IsNested (apic_init-IsNested m h r.apic_run) (
                  ++-IsNested
                    (start_additional_cpus-IsNested m h r.prints r.platform r.cpus r.dropped)
                    (++-IsNested (prints m h r.syscalls)
                      (syscall_init-IsNested m h r.table r.registered))))))))))

pub early_init-IsNested : {on : Bool} (r : Run) → IsNested on device_tree (early_init r)
early_init-IsNested r = ++-IsNested (println-IsNested device_tree (omega arith)) (
    ++-IsNested
      (initialize_virtual_memory-IsNested device_tree (omega arith) r.prints r.heap r.memory)
      (++-IsNested
        (scope_from device_tree frame_buffer
          (heap_calls-IsNested (suc frame_buffer) (omega arith) r.buffers) (omega arith)
          (omega arith))
        (++-IsNested (heaps device_tree (omega arith) r.tree) (
          scope_from device_tree device_tree (heaps (suc device_tree) (omega arith) r.framebuffer)
            (omega arith) (omega arith)))))
