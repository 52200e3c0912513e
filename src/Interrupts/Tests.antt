-- ===== src/Interrupts/Tests.antt =====
-- Runs with the handlers that setting up the table registers.
use oxidized.Common.{
  ◌≡◌, refl, arith, false, Option, List, [], ◌∷◌, length, Outcome, returns, panics, spins,
}
use oxidized.Crates.Concrete.{quiet_bus}
use oxidized.Apic.{LocalApic, end_of_interrupt, write_register, get_register_pointer}
use oxidized.Interrupts.{
  Cpu, Handler, no_handlers, set_interrupt_handler, idt_handlers, general_interrupt_handler,
  apic_timer_interrupt_handler, apic_spurious_interrupt_handler,
}
use oxidized.Interrupts.Dispatch.{times, idt_handlers-ticks}

abbrev apic : LocalApic
apic = record { address = 0xFEE00000; x2 = false }

abbrev SmallHandler : Type 0
SmallHandler = Handler (Cpu quiet_bus.State)

abbrev spurious : SmallHandler
spurious = apic_spurious_interrupt_handler quiet_bus apic

abbrev timer : SmallHandler
timer = apic_timer_interrupt_handler quiet_bus apic

abbrev none_set : List (Option SmallHandler)
none_set = no_handlers

none_set_is_full : length none_set ≡ 224
unfolding no_handlers
none_set_is_full = refl

abbrev set_up : Outcome (List (Option SmallHandler))
set_up = idt_handlers timer spurious spurious

abbrev handlers : List (Option SmallHandler)
handlers = elim set_up [ returns hs ↦ hs | panics ↦ [] | spins ↦ [] ]

set_up_returns : set_up ≡ returns handlers
unfolding idt_handlers set_interrupt_handler no_handlers
set_up_returns = refl

abbrev cpu : Cpu quiet_bus.State
cpu = record { ticks = 41; machine = [] }

acknowledged :
    times 2 (end_of_interrupt quiet_bus apic) []
    ≡ returns (tt, (0xFEE000B0, 0) ∷ (0xFEE000B0, 0) ∷ [])
unfolding times end_of_interrupt write_register get_register_pointer
acknowledged = refl

idt_handlers-ticks_example :
    times 2 (general_interrupt_handler handlers 0x20) cpu
    ≡ returns (tt, record { ticks = 43; machine = (0xFEE000B0, 0) ∷ (0xFEE000B0, 0) ∷ [] })
idt_handlers-ticks_example =
    idt_handlers-ticks quiet_bus apic spurious spurious handlers 2 cpu set_up_returns (omega arith)
      acknowledged
