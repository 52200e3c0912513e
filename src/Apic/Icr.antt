-- ===== src/Apic/Icr.antt =====
-- Inter-processor interrupts: what the command register is given, in which order, and when.
use oxidized.Common.{
  ℕ, zero, suc, ◌+◌, ◌*◌, ◌/◌, ◌%◌, ◌^◌, ◌-◌, ◌<◌, ◌≡◌, ◌≢◌, refl, if◌then◌else◌, Bool, Bool-cases,
  inl, inr, true, false, bit_and, bit_or, Outcome, returns, panics, spins, arith, ap, ap₂, fun_ext,
  sym, ◌∙◌,
}
use oxidized.Common.Bits.{bit_or-shifted, bit_or-low, bit_and-mask}
use oxidized.Apic.Run.{Bus, Msr, Machine, ◌>>=◌, ◌>>◌}
use oxidized.Apic.{
  LocalApic, u32_mod, u64_mod, get_icr, wait_loop, wait_for_ipi_delivery, set_icr,
  get_icr_cpu_value, start_icr, init_icr, clear_apic_errors, send_ipi_start, write_register,
  get_register_pointer, write_apic_msr, register_ipi_high, register_ipi_low,
}

-- A target in the top bits, then `0x4600`, then a byte: the source's two `|` make a sum.
or_start :
    (k t segment q : ℕ)
    → 0x4600 < 2 ^ k
    → segment < 256
    → t * 2 ^ k + 0x4600 ≡ q * 2 ^ 8
    → bit_or (bit_or (t * 2 ^ k) 0x4600) segment ≡ t * 2 ^ k + 0x4600 + segment
or_start k t segment q room h e =
    ap (λ z. bit_or z segment) (bit_or-shifted k t 0x4600 room ∙ e)
    ∙ bit_or-shifted 8 q segment h
    ∙ ap (λ (z : ℕ). z + segment) (sym e)

-- For a processor number and a page below 256 the fields of the two commands do not overlap: each
-- command is the sum of the target's field, the mode and, for the start-up command, the page.
pub command_values :
    (apic : LocalApic) (cpu_id segment : ℕ)
    → cpu_id < 256
    → segment < 256
    → (start_icr apic cpu_id segment ≡ cpu_id * 2 ^ (if apic.x2 then 32 else 56) + 0x4600 + segment)
      × (init_icr apic cpu_id ≡ cpu_id * 2 ^ (if apic.x2 then 32 else 56) + 0x4500)
unfolding start_icr init_icr get_icr_cpu_value
command_values apic cpu_id segment h g = elim (Bool-cases apic.x2) [
  | inl new ↦
      let w : cpu_id * 2 ^ 32 % u64_mod ≡ cpu_id * 2 ^ 32 = omega arith in
      rw (new, w)
        (
          or_start 32 cpu_id segment (cpu_id * 2 ^ 24 + 0x46) (omega arith) g (omega arith),
          bit_or-low 32 cpu_id 0x4500 (omega arith),
        )
  | inr old ↦
      let w : cpu_id * 2 ^ 56 % u64_mod ≡ cpu_id * 2 ^ 56 = omega arith in
      rw (old, w)
        (
          or_start 56 cpu_id segment (cpu_id * 2 ^ 48 + 0x46) (omega arith) g (omega arith),
          bit_or-low 56 cpu_id 0x4500 (omega arith),
        )
]

module _ (B : Bus) where
  open B use {State, read32, write32, rdmsr, wrmsr}

  -- The register shows a delivery pending for `n` reads, and then none.
  pub data Delivers (apic : LocalApic) : ℕ → State → State → Type 0 where
    now :
        {s s' : State} {n : ℕ} (v : ℕ)
        → get_icr B apic s ≡ returns (v, s')
        → bit_and v (2 ^ 12) ≢ 2 ^ 12
        → n ≡ 0
        → Delivers apic n s s'
    later :
        {s s' s'' : State} {n : ℕ} (v : ℕ)
        → get_icr B apic s ≡ returns (v, s')
        → bit_and v (2 ^ 12) ≡ 2 ^ 12
        → Delivers apic n s' s''
        → Delivers apic (suc n) s s''

  -- If the hardware shows the delivery done after `n` polls, the wait ends after them, and the
  -- machine is in the state that the last poll left.
  pub wait_loop-Delivers :
      (fuel : ℕ) (apic : LocalApic) {n : ℕ} {s s' : State}
      → Delivers apic n s s'
      → n < fuel
      → wait_loop B fuel apic s ≡ returns (tt, s')
  unfolding wait_loop
  wait_loop-Delivers zero apic d h = absurd (omega arith)
  wait_loop-Delivers (suc fuel) apic (now v e done z) h = ground (arith, e, done)
  wait_loop-Delivers (suc fuel) apic (later v e busy d) h =
      ground (arith, e, busy, wait_loop-Delivers fuel apic d (omega arith))

  -- Reading the command register of the machine shows nothing pending, and changes nothing.
  abbrev pub IsQuiet : LocalApic → Type 0
  IsQuiet apic =
      (s : State) → (v : ℕ) × (get_icr B apic s ≡ returns (v, s)) × (bit_and v (2 ^ 12) ≢ 2 ^ 12)

  wait-quiet :
      (fuel : ℕ) (apic : LocalApic) (s : State)
      → IsQuiet apic
      → wait_for_ipi_delivery B (suc fuel) apic s ≡ returns (tt, s)
  unfolding wait_for_ipi_delivery wait_loop
  wait-quiet fuel apic s quiet = let (v, e, done) = quiet s in ground (arith, e, done)

  -- The two writes of a command, high half first: it is the write of the low half that sends it.
  pub send_halves : LocalApic → ℕ → Machine State (Unit {0})
  send_halves apic value = do
    write32 (apic.address + register_ipi_high) (value / 2 ^ 32)
    write32 (apic.address + register_ipi_low) (value % 2 ^ 32)

  high_half : (value : ℕ) → value < 2 ^ 64 → bit_and (value / 2 ^ 32) (u32_mod - 1) ≡ value / 2 ^ 32
  high_half value h =
      let alone : 0 * 2 ^ 32 + value / 2 ^ 32 ≡ value / 2 ^ 32 = omega arith in
      ap (λ t. bit_and t (u32_mod - 1)) (sym alone)
      ∙ bit_and-mask 32 0 (value / 2 ^ 32) (omega arith)

  -- A wait behind a step adds nothing.
  wait-after :
      (fuel : ℕ) (apic : LocalApic) (step : Machine State (Unit {0})) (s : State)
      → IsQuiet apic
      → (step >> wait_for_ipi_delivery B (suc fuel) apic) s ≡ step s
  wait-after fuel apic step s quiet = go (step s)
    where
      go :
          (o : Outcome (Unit {0} × State))
          → ((λ (t : State). o) >> wait_for_ipi_delivery B (suc fuel) apic) s ≡ o
      go (returns (u, s')) = wait-quiet fuel apic s' quiet
      go panics = refl
      go spins = refl

  write_register_old :
      (apic : LocalApic) (register value : ℕ)
      → apic.x2 ≡ false
      → write_register B apic register value
        ≡ write32 (apic.address + bit_and register 0x0FF0) value
  unfolding write_register get_register_pointer
  write_register_old apic register value e = rw e refl

  set_icr_at :
      (fuel address value : ℕ) (x2 : Bool) (s : State)
      → IsQuiet (record { address = address; x2 = x2 })
      → value < 2 ^ 64
      → set_icr B (suc fuel) (record { address = address; x2 = x2 }) value s ≡ (
          if x2
          then wrmsr Msr.x2apic_icr value s
          else send_halves (record { address = address; x2 = x2 }) value s)
  unfolding set_icr write_apic_msr write_register get_register_pointer send_halves
  set_icr_at fuel address value true s quiet h =
      rw (wait-quiet fuel (record { address = address; x2 = true }) s quiet, ◌>>=◌) refl
  set_icr_at fuel address value false s quiet h =
      let apic : LocalApic = record { address = address; x2 = false } in
      let low : Machine State (Unit {0}) = write32 (address + register_ipi_low) (value % u32_mod) in
      let tail : (low >> wait_for_ipi_delivery B (suc fuel) apic) ≡ low =
        fun_ext λ t. wait-after fuel apic low t quiet in
      rw (wait-quiet fuel apic s quiet, ◌>>=◌)
        (rw (wait-quiet fuel apic s quiet, ◌>>=◌)
          (ap₂
            (λ (hi : ℕ) (k : Machine State (Unit {0})).
              (write32 (address + register_ipi_high) hi >> k) s)
            (high_half value h) tail))

  -- With the register quiet, `set_icr` of a 64-bit value writes an xAPIC's two halves, the high one
  -- first, and an x2APIC's register at once, and writes nothing else.
  pub set_icr_lem :
      (fuel : ℕ) (apic : LocalApic) (value : ℕ) (s : State)
      → IsQuiet apic
      → value < 2 ^ 64
      → set_icr B (suc fuel) apic value s
        ≡ (if apic.x2 then wrmsr Msr.x2apic_icr value s else send_halves apic value s)
  set_icr_lem fuel apic value s = set_icr_at fuel apic.address value apic.x2 s

  start_at :
      (fuel address cpu_id segment : ℕ) (x2 : Bool) (t : State)
      → IsQuiet (record { address = address; x2 = x2 })
      → cpu_id < 256
      → segment < 256
      → set_icr B
          (suc fuel)
          (record { address = address; x2 = x2 })
          (start_icr (record { address = address; x2 = x2 }) cpu_id segment)
          t
        ≡ (if x2
              then wrmsr Msr.x2apic_icr (cpu_id * 2 ^ 32 + 0x4600 + segment)
              else (write32 (address + register_ipi_high) (cpu_id * 2 ^ 24)
                  >> write32 (address + register_ipi_low) (0x4600 + segment)))
            t
  unfolding send_halves
  start_at fuel address cpu_id segment true t quiet h g =
      let apic : LocalApic = record { address = address; x2 = true } in
      let (value, _) = command_values apic cpu_id segment h g in
      set_icr_at fuel address (start_icr apic cpu_id segment) true t quiet (omega arith)
      ∙ ap (λ (v : ℕ). wrmsr Msr.x2apic_icr v t) value
  start_at fuel address cpu_id segment false t quiet h g =
      let apic : LocalApic = record { address = address; x2 = false } in
      let (value, _) = command_values apic cpu_id segment h g in
      let high : start_icr apic cpu_id segment / 2 ^ 32 ≡ cpu_id * 2 ^ 24 = omega arith in
      let low : start_icr apic cpu_id segment % 2 ^ 32 ≡ 0x4600 + segment = omega arith in
      set_icr_at fuel address (start_icr apic cpu_id segment) false t quiet (omega arith)
      ∙ ap₂
          (λ (v w : ℕ).
            (write32 (address + register_ipi_high) v >> write32 (address + register_ipi_low) w) t)
          high low

  -- Started with the register quiet, `send_ipi_start` for a processor and a page below 256 clears the
  -- error status and then, on an xAPIC, writes the processor into the top byte of the high half and
  -- then mode 6, level asserted, with the page into the low half; on an x2APIC it writes both at
  -- once, the processor in the high word.
  pub send_ipi_start_lem :
      (fuel : ℕ) (apic : LocalApic) (cpu_id segment : ℕ) (s : State)
      → IsQuiet apic
      → cpu_id < 256
      → segment < 256
      → send_ipi_start B (suc fuel) apic cpu_id segment s
        ≡ (clear_apic_errors B apic
              >> (if apic.x2
                  then wrmsr Msr.x2apic_icr (cpu_id * 2 ^ 32 + 0x4600 + segment)
                  else (write32 (apic.address + register_ipi_high) (cpu_id * 2 ^ 24)
                      >> write32 (apic.address + register_ipi_low) (0x4600 + segment))))
            s
  unfolding send_ipi_start
  send_ipi_start_lem fuel apic cpu_id segment s quiet h g =
      ap (λ (k : Machine State (Unit {0})). (clear_apic_errors B apic >> k) s)
        (fun_ext λ t. start_at fuel apic.address cpu_id segment apic.x2 t quiet h g)
