-- ===== src/Interrupts/Handlers.antt =====
-- kernel/src/arch/arch_x86_64/idt/mod.rs: the table of software interrupt handlers.
use oxidized.Common.{
  ℕ, ◌-◌, ltb, if◌then◌else◌, Option, none, some, List, length, set, replicate, Outcome, returns,
  panics, ◌>>=◌,
}

module _ {H : Type 0} where
  -- `SOFTWARE_HANDLERS`, at first.
  unfoldable pub no_handlers : List (Option H)
  no_handlers = replicate 224 none

  unfoldable pub set_interrupt_handler : List (Option H) → ℕ → Option H → Outcome (List (Option H))
  set_interrupt_handler handlers interrupt handler =
      if ltb interrupt 32
      then panics
      else if ltb (interrupt - 32) (length handlers)
      then returns (set handlers (interrupt - 32) handler)
      else panics

  unfoldable pub clear_interrupt_handler : List (Option H) → ℕ → Outcome (List (Option H))
  clear_interrupt_handler handlers interrupt = set_interrupt_handler handlers interrupt none

-- The three handlers that setting up `IDT` registers.
unfoldable pub idt_handlers : {H : Type 0} → H → H → H → Outcome (List (Option H))
idt_handlers timer legacy spurious = do
  with_timer ← set_interrupt_handler no_handlers 0x20 (some timer)
  with_legacy ← set_interrupt_handler with_timer 0x80 (some legacy)
  set_interrupt_handler with_legacy 0xFF (some spurious)
