-- ===== src/Locks/Tests.antt =====
-- Runs of the kernel's processors.
use oxidized.Common.{
  ℕ, ◌++◌, ◌⊎◌, false, zero, suc, ◌≤◌, ◌≡◌, ◌≢◌, refl, arith, ne→==, true, Option, none, some, [],
  ◌∷◌, drop,
}
use oxidized.Common.Predicates.{In}
use oxidized.Locks.{
  Lock, device_tree, update, acquire, release, unmask, Advance, here, next, take, advance, serial,
  software_handlers, State, Step, Reach,
}
use oxidized.Locks.Code.{
  Code, fits, grows, frees, drawn, Message, spurious, general_interrupt_handler,
}
use oxidized.Locks.Startup.{maps_region, allocates, Acpi, legacy, Apic, Started}
use oxidized.Locks.Main.{Hardware, Listed, Run, ApRun, kernel_boot, start}
use oxidized.Locks.Work.{IsDone}
use oxidized.Locks.Progress.{IsTimer, no_deadlock, kernel_reaches_end, kernel_ends}
use oxidized.Locks.Stuck.{printing_interrupt_sticks}

abbrev line : Message
line = record {
  to_string = fits ∷ grows 1 ∷ [];
  chars = drawn (fits ∷ frees ∷ []) ∷ [];
  dropped = frees ∷ [];
}

abbrev acpi_run : Acpi
acpi_run = record {
  load = maps_region ∷ [];
  loaded = line;
  platform = allocates fits ∷ [];
  processors = line ∷ [];
  dropped = [];
}

abbrev apic_run : Apic
apic_run = record {
  platform = allocates fits ∷ [];
  pics = line ∷ line ∷ [];
  found = line;
  mode = legacy 0;
  starting = line;
  complete = line;
  dropped = frees ∷ [];
}

abbrev second : Started
second = record { stack = grows 0; init_sent = line; start_sent = line; waited = 2; ready = line }

abbrev hardware_run : Hardware
hardware_run = record {
  gdt = line;
  tables = fits ∷ [];
  idt = line;
  acpi = line;
  acpi_run = acpi_run;
  apic = line;
  apic_run = apic_run;
  prints = 0;
  platform = allocates fits ∷ [];
  cpus = second ∷ [];
  dropped = frees ∷ [];
  syscalls = line;
  table = fits ∷ [];
  registered = fits ∷ [];
}

abbrev vendor : Listed
vendor = record { arguments = fits ∷ []; line = line; dropped = frees ∷ [] }

abbrev boot_run : Run
boot_run = record {
  prints = 0;
  heap = line;
  memory = line;
  buffers = fits ∷ fits ∷ [];
  tree = fits ∷ [];
  framebuffer = fits ∷ [];
  hardware = line;
  hardware_run = hardware_run;
  online = line;
  versions = vendor ∷ vendor ∷ [];
  registered = fits ∷ [];
  lines = line ∷ line ∷ [];
  keys = fits ∷ [];
  devices = vendor ∷ [];
  dropped = frees ∷ [];
  entered = line;
}

abbrev ap_run : ApRun
ap_run = record { starting = line; complete = line; waits = some (line, 3); entered = line }

-- One other processor.
abbrev aps : ℕ → Option ApRun
aps zero = some ap_run
aps (suc i) = none

few : (i : ℕ) → 1 ≤ i → aps i ≡ none
few zero h = absurd (omega (arith, h))
few (suc i) h = refl

-- The boot processor has taken the serial port for its first line.
abbrev printing : State
printing = record (start boot_run aps) {
  owner = update (start boot_run aps).owner serial (some 0);
  code = update (start boot_run aps).code 0 (drop 1 (kernel_boot boot_run));
  guards = update (start boot_run aps).guards 0 (serial ∷ []);
}

printing-Reach : Reach IsTimer (start boot_run aps) printing
printing-Reach = next here (advance 0 (take serial (drop 1 (kernel_boot boot_run)) refl refl))

no_deadlock_example :
    ((i : ℕ) → printing.code i ≡ []) ⊎ ((j : ℕ) × (t : State) × Advance j printing t)
no_deadlock_example = no_deadlock boot_run aps 1 few printing printing-Reach

-- The end of a run.
final : (t : State) × Reach IsTimer (start boot_run aps) t × IsDone t
final = kernel_reaches_end boot_run aps 1 few

kernel_ends_example :
    (final.0.owner device_tree ≡ some 0) × ((l : Lock) → l ≢ device_tree → final.0.owner l ≡ none)
kernel_ends_example = kernel_ends boot_run aps final.0 final.1 final.2

-- Processor 1 prints with its interrupts on, and may get a spurious one.
abbrev writing : State
writing = record printing {
  owner = update printing.owner serial (some 1);
  code = update printing.code 1 (release serial ∷ []);
  guards = update (start boot_run aps).guards 1 (serial ∷ []);
  enabled = update printing.enabled 1 true;
}

abbrev IsSpurious : Code → Type 0
IsSpurious h = h ≡ general_interrupt_handler (spurious line)

alone : (j : ℕ) → 1 ≢ j → In serial (writing.guards j) → ⊥
alone j ne = rw (ne→== 1 j ne) (λ m. m)

-- The spurious interrupt has arrived.
abbrev spurious_code : Code
spurious_code = general_interrupt_handler (spurious line) ++ (unmask ∷ release serial ∷ [])

abbrev arrived : State
arrived = record writing {
  code = update writing.code 1 spurious_code;
  enabled = update writing.enabled 1 false;
}

printing_interrupt_sticks_example :
    Step IsSpurious writing arrived
    × ((u : State)
        → Reach IsSpurious arrived u
        → ((u.code 1 ≡ spurious_code) ⊎ (spurious_code ≡ acquire software_handlers ∷ u.code 1))
          × (u.owner serial ≡ some 1))
printing_interrupt_sticks_example =
    printing_interrupt_sticks IsSpurious (spurious line) writing 1 refl tt refl refl alone
