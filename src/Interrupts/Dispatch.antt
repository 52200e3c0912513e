-- ===== src/Interrupts/Dispatch.antt =====
-- Which handler runs for an interrupt, and what the timer counts.
use oxidized.Common.{
  ℕ, zero, suc, ◌+◌, ◌-◌, ◌<◌, ◌≤◌, ◌≡◌, refl, ◌==◌, if◌then◌else◌, Option, none, some, List,
  length, get_elem?, set, Outcome, returns, panics, spins, length-set, get_elem?-set_self,
  get_elem?-set_ne, arith, ℕ_discrete, ◌∙◌, ap, sym, subst, Option-cases, inl, inr,
}
use oxidized.Syscall.{usize_max}
use oxidized.Apic.{LocalApic, end_of_interrupt}
use oxidized.Apic.Run.{Bus, Machine, ◌>>◌, pure}
use oxidized.Interrupts.{
  Handler, set_interrupt_handler, general_interrupt_handler, Cpu, on_machine, idt_handlers,
  no_handlers, apic_timer_interrupt_handler,
}

-- What a registered handler, or none, does for a vector.
abbrev pub run : {S : Type 0} → Option (Handler S) → Handler S
run none vector = pure tt
run (some handler) vector = handler vector

general-run :
    {S : Type 0} (handlers : List (Option (Handler S))) (vector : ℕ) {h : Option (Handler S)}
    → 32 ≤ vector
    → get_elem? handlers (vector - 32) ≡ some h
    → general_interrupt_handler handlers vector ≡ run h vector
unfolding general_interrupt_handler
general-run handlers vector {h} high e = elim (Option-cases h) [
  | inl absent ↦ ground (arith, e, absent)
  | inr (handler, here) ↦ ground (arith, e, here)
]

general-eq :
    {S : Type 0} (handlers after : List (Option (Handler S))) (vector : ℕ)
    → get_elem? after (vector - 32) ≡ get_elem? handlers (vector - 32)
    → general_interrupt_handler after vector ≡ general_interrupt_handler handlers vector
unfolding general_interrupt_handler
general-eq handlers after vector e = rw e refl

-- With a table of 224 entries and a vector from 32 to 255, `set_interrupt_handler` returns a table of
-- 224 entries, in which that vector runs the new handler (or does nothing when it is cleared), and
-- every other vector from 32 on does what it did.
pub set_interrupt_handler_lem :
    {S : Type 0} (handlers : List (Option (Handler S))) (interrupt : ℕ)
    (handler : Option (Handler S))
    → length handlers ≡ 224
    → 32 ≤ interrupt
    → interrupt < 256
    → (after : List (Option (Handler S))) × (set_interrupt_handler handlers interrupt handler
        ≡ returns after)
      × (length after ≡ 224)
      × ((vector : ℕ)
          → 32 ≤ vector
          → general_interrupt_handler after vector ≡ (
              if vector == interrupt
              then run handler vector
              else general_interrupt_handler handlers vector))
unfolding set_interrupt_handler general_interrupt_handler
set_interrupt_handler_lem handlers interrupt handler full high byte =
    let after = set handlers (interrupt - 32) handler in
    (
      after,
      ground arith,
      omega (arith, length-set handlers (interrupt - 32) handler),
      λ vector above. elim (ℕ_discrete vector interrupt) [
        | yes same ↦
            general-run after vector above (
              subst (λ (v : ℕ). get_elem? after (v - 32) ≡ some handler) (sym same)
                (get_elem?-set_self handlers (interrupt - 32) handler (omega arith)))
            ∙ ground (arith, same)
        | no other ↦
            general-eq handlers after vector (
              get_elem?-set_ne handlers (interrupt - 32) (vector - 32) handler
                (λ e. other (omega arith)))
            ∙ ground (arith, other)
      ],
    )

-- `n` interrupts, one after the other.
unfoldable pub times : {S : Type 0} → ℕ → Machine S (Unit {0}) → Machine S (Unit {0})
times zero m = pure tt
times (suc n) m = m >> times n m

-- Inversion of a sequence that returns.
>>-eq-returns :
    {S : Type 0} (m k : Machine S (Unit {0})) (s : S) {r : Unit {0} × S}
    → (m >> k) s ≡ returns r
    → (s' : S) × (m s ≡ returns (tt, s')) × (k s' ≡ returns r)
>>-eq-returns {S = S} m k s {r} h = go (m s) h
  where
    go :
        (o : Outcome (Unit {0} × S))
        → ((λ (t : S). o) >> k) s ≡ returns r
        → (s' : S) × (o ≡ returns (tt, s')) × (k s' ≡ returns r)
    go (returns (u, s')) h = (s', refl, h)
    go panics h = cc
    go spins h = cc

timer-registered :
    {H : Type 0} (timer legacy spurious : H) (handlers : List (Option H))
    → idt_handlers timer legacy spurious ≡ returns handlers
    → get_elem? handlers 0 ≡ some (some timer)
unfolding idt_handlers set_interrupt_handler no_handlers
timer-registered timer legacy spurious handlers e =
    sym (ap (λ o. elim o [ returns hs ↦ get_elem? hs 0 | panics ↦ none | spins ↦ none ]) e)

module _ (B : Bus) (apic : LocalApic) where
  abbrev pub timer : Handler (Cpu B.State)
  timer = apic_timer_interrupt_handler B apic

  tick :
      (c : Cpu B.State) {s : B.State}
      → c.ticks < usize_max
      → end_of_interrupt B apic c.machine ≡ returns (tt, s)
      → timer 0x20 c ≡ returns (tt, record { ticks = c.ticks + 1; machine = s })
  unfolding apic_timer_interrupt_handler on_machine
  tick c room e = ground (arith, e)

  ticks-times :
      (n : ℕ) (c : Cpu B.State) {s : B.State}
      → c.ticks + n ≤ usize_max
      → times n (end_of_interrupt B apic) c.machine ≡ returns (tt, s)
      → times n (timer 0x20) c ≡ returns (tt, record { ticks = c.ticks + n; machine = s })
  unfolding times
  ticks-times zero c room e = ground arith
  ticks-times (suc n) c room e =
      let (s', first, rest) =
        >>-eq-returns (end_of_interrupt B apic) (times n (end_of_interrupt B apic)) c.machine e in
      let next : Cpu B.State = record { ticks = c.ticks + 1; machine = s' } in
      ground (arith, tick c (omega arith) first, ticks-times n next (omega arith) rest)

  -- With the handlers that setting up the table registers, `n` interrupts of the timer's vector raise
  -- the count of ticks by `n`, when it stays within a usize, and acknowledge the interrupt to the
  -- local APIC `n` times, where that returns.
  pub idt_handlers-ticks :
      (legacy spurious : Handler (Cpu B.State)) (handlers : List (Option (Handler (Cpu B.State))))
      (n : ℕ) (c : Cpu B.State) {s : B.State}
      → idt_handlers timer legacy spurious ≡ returns handlers
      → c.ticks + n ≤ usize_max
      → times n (end_of_interrupt B apic) c.machine ≡ returns (tt, s)
      → times n (general_interrupt_handler handlers 0x20) c
        ≡ returns (tt, record { ticks = c.ticks + n; machine = s })
  idt_handlers-ticks legacy spurious handlers n c set_up room e =
      ap (λ m. times n m c)
        (general-run handlers 0x20 (omega arith)
          (timer-registered timer legacy spurious handlers set_up))
      ∙ ticks-times n c room e
