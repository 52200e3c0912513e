-- ===== src/Interrupts.antt =====
-- kernel/src/arch/arch_x86_64/idt/mod.rs: the interrupt descriptor table, the exceptions, and the
-- handlers of software interrupts.
mod Handlers
pub mod Dispatch
mod Tests
unfoldable pub use Handlers.*
use oxidized.Common.{
  ℕ, ◌+◌, ◌-◌, ◌==◌, ltb, if◌then◌else◌, ◌||◌, Option, none, some, List, length, get_elem?, set,
  replicate, Outcome, returns, panics, spins,
}
use oxidized.Common.TreeMap.{TreeMap}
use oxidized.Syscall.{usize_max, SyscallParameters, legacy_syscall}
use oxidized.Apic.{LocalApic, end_of_interrupt}
use oxidized.Apic.Run.{Bus, Machine, ◌>>=◌, ◌>>◌, pure, panic, spin}

-- The exceptions that `InterruptHandlers` handles.
pub data Exception : Type 0 where
  breakpoint double_fault page_fault alignment_check bound_range_exceeded : Exception
  invalid_opcode invalid_tss general_protection_fault debug device_not_available : Exception
  divide_error machine_check non_maskable_interrupt overflow security_exception : Exception
  segment_not_present simd_floating_point stack_segment_fault virtualization : Exception
  vmm_communication_exception x87_floating_point : Exception

-- `InterruptHandlers`: what is printed left out.
pub handle_exception : Exception → Outcome (Unit {0})
handle_exception breakpoint = returns tt
handle_exception double_fault = panics
handle_exception page_fault = panics
handle_exception alignment_check = panics
handle_exception bound_range_exceeded = panics
handle_exception invalid_opcode = panics
handle_exception invalid_tss = panics
handle_exception general_protection_fault = panics
handle_exception debug = panics
handle_exception device_not_available = panics
handle_exception divide_error = panics
handle_exception machine_check = panics
handle_exception non_maskable_interrupt = panics
handle_exception overflow = panics
handle_exception security_exception = panics
handle_exception segment_not_present = panics
handle_exception simd_floating_point = panics
handle_exception stack_segment_fault = panics
handle_exception virtualization = panics
handle_exception vmm_communication_exception = panics
handle_exception x87_floating_point = panics

-- What a vector from 32 on leads to.
pub data Entry : Type 0 where
  general context_switch missing : Entry

-- The lines of `IDT` for those vectors.
pub idt_entry : ℕ → Entry
idt_entry vector =
    if vector == 0xFE
    then context_switch
    else if vector == 0x20 || vector == 0xFF || vector == 0x80
    then general
    else missing

-- `TICKS`, and the hardware.
pub record Cpu (S : Type 0) : Type 0 where
  pub ticks : ℕ
  pub machine : S

-- A step of the hardware alone.
pub on_machine : {S A : Type 0} → Machine S A → Machine (Cpu S) A
on_machine m c = elim (m c.machine) [
  | returns (a, s) ↦ returns (a, record { ticks = c.ticks; machine = s })
  | panics ↦ panics
  | spins ↦ spins
]

-- `SoftwareInterruptHandler`, of the vector.
abbrev pub Handler : Type 0 → Type 0
Handler S = ℕ → Machine S (Unit {0})

pub general_interrupt_handler : {S : Type 0} → List (Option (Handler S)) → Handler S
general_interrupt_handler handlers index =
    if ltb index 32 then panic else elim (get_elem? handlers (index - 32)) [
      | none ↦ panic
      | some none ↦ pure tt
      | some (some handler) ↦ handler index
    ]

module _ (B : Bus) (apic : LocalApic) where
  -- `ticks + 1` with overflow checks.
  pub apic_timer_interrupt_handler : Handler (Cpu B.State)
  apic_timer_interrupt_handler vector c =
      if c.ticks == usize_max
      then panics
      else on_machine (end_of_interrupt B apic)
          (record { ticks = c.ticks + 1; machine = c.machine })

  pub apic_spurious_interrupt_handler : Handler (Cpu B.State)
  apic_spurious_interrupt_handler vector = on_machine (end_of_interrupt B apic)

  -- The handler of the tables of the time, for the number that the assembler line gives for rax.
  pub legacy_syscall_interrupt_handler :
      TreeMap (TreeMap (SyscallParameters → Machine (Cpu B.State) (Unit {0})))
      → ℕ
      → Handler (Cpu B.State)
  legacy_syscall_interrupt_handler tables rax vector = elim (legacy_syscall tables rax) [
    | returns (some callback) ↦ callback (record { id = rax })
    | returns none ↦ pure tt
    | panics ↦ panic
    | spins ↦ spin
  ]
