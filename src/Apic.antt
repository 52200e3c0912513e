-- ===== src/Apic.antt =====
-- kernel/src/arch/arch_x86_64/apic/mod.rs: the local APIC, by memory-mapped registers (xAPIC) or by
-- model-specific registers (x2APIC).
pub mod Run
mod Registers
pub mod Icr
pub mod Setup
mod Tests
pub use Registers.*
use Run.{Machine, ◌>>=◌, ◌>>◌, pure, panic, spin}
use oxidized.Common.{
  ℕ, zero, suc, ◌+◌, ◌*◌, ◌/◌, ◌%◌, ◌^◌, ◌-◌, ◌==◌, if◌then◌else◌, Bool, true, false, ◌&&◌, not,
  bit_and, bit_or,
}
use Run.{Bus, Msr}

-- `AdvancedProgrammableInterruptController`
pub record LocalApic : Type 0 where
  pub address : ℕ
  pub x2 : Bool

abbrev pub u32_mod : ℕ
u32_mod = 2 ^ 32

abbrev pub u64_mod : ℕ
u64_mod = 2 ^ 64

pub get_icr_cpu_value : LocalApic → ℕ → ℕ
get_icr_cpu_value apic cpu_id = cpu_id * 2 ^ (if apic.x2 then 32 else 56) % u64_mod

-- The `icr_value` of `send_ipi_init` and of `send_ipi_start`.
pub init_icr : LocalApic → ℕ → ℕ
init_icr apic cpu_id = bit_or 0x4500 (get_icr_cpu_value apic cpu_id)

pub start_icr : LocalApic → ℕ → ℕ → ℕ
start_icr apic cpu_id segment = bit_or (bit_or (get_icr_cpu_value apic cpu_id) 0x4600) segment

module _ (B : Bus) where
  open B use {State, read32, write32, rdmsr, wrmsr}

  abbrev pub M : Type 0 → Type 0
  M A = Machine State A

  unfoldable pub get_register_pointer : LocalApic → ℕ → M ℕ
  get_register_pointer apic register =
      if apic.x2 then panic else pure (apic.address + bit_and register apic_register_address_mask)

  pub read_register : LocalApic → ℕ → M ℕ
  read_register apic register = do pointer ← get_register_pointer apic register; read32 pointer

  unfoldable pub write_register : LocalApic → ℕ → ℕ → M (Unit {0})
  write_register apic register value =
      if apic.x2
      then panic
      else (do pointer ← get_register_pointer apic register; write32 pointer value)

  pub read_apic_msr : LocalApic → Msr → M ℕ
  read_apic_msr apic msr = if not apic.x2 then panic else rdmsr msr

  pub write_apic_msr : LocalApic → Msr → ℕ → M (Unit {0})
  write_apic_msr apic msr value = if not apic.x2 then panic else wrmsr msr value

  pub get_apic_id : LocalApic → M ℕ
  get_apic_id apic =
      if not apic.x2 && apic.address == 0
      then pure 0
      else if apic.x2
      then (do v ← read_apic_msr apic Msr.x2apic_apicid; pure (bit_and v (u32_mod - 1)))
      else read_register apic register_id

  pub get_version : LocalApic → M ℕ
  get_version apic =
      if apic.x2 then read_apic_msr apic Msr.x2apic_version else read_register apic register_version

  pub get_task_priority : LocalApic → M ℕ
  get_task_priority apic =
      if apic.x2
      then read_apic_msr apic Msr.x2apic_tpr
      else read_register apic register_task_priority

  -- `get_arbiration_priority`
  pub get_arbitration_priority : LocalApic → M ℕ
  get_arbitration_priority apic =
      if apic.x2
      then read_apic_msr apic Msr.x2apic_ppr
      else read_register apic register_arbitration_priority

  pub get_processor_priority : LocalApic → M ℕ
  get_processor_priority apic =
      if apic.x2
      then read_apic_msr apic Msr.x2apic_ppr
      else read_register apic register_processor_priority

  pub get_spurious_interrupt_vector : LocalApic → M ℕ
  get_spurious_interrupt_vector apic =
      if apic.x2
      then read_apic_msr apic Msr.x2apic_sivr
      else read_register apic register_spurious_interrupt_vector

  pub set_spurious_interrupt_vector : LocalApic → ℕ → M (Unit {0})
  set_spurious_interrupt_vector apic value =
      if apic.x2
      then write_apic_msr apic Msr.x2apic_sivr value
      else write_register apic register_spurious_interrupt_vector (value % u32_mod)

  pub get_timer_divisor : LocalApic → M ℕ
  get_timer_divisor apic =
      if apic.x2
      then read_apic_msr apic Msr.x2apic_div_conf
      else read_register apic register_timer_divisor

  pub set_timer_divisor : LocalApic → ℕ → M (Unit {0})
  set_timer_divisor apic value =
      if apic.x2
      then write_apic_msr apic Msr.x2apic_div_conf value
      else write_register apic register_timer_divisor value

  pub set_timer_initial_count : LocalApic → ℕ → M (Unit {0})
  set_timer_initial_count apic value =
      if apic.x2
      then write_apic_msr apic Msr.x2apic_init_count value
      else write_register apic register_timer_initial_count value

  unfoldable pub end_of_interrupt : LocalApic → M (Unit {0})
  end_of_interrupt apic =
      if apic.x2
      then write_apic_msr apic Msr.x2apic_eoi 0
      else write_register apic register_end_of_interrupt 0

  pub get_error_status : LocalApic → M ℕ
  get_error_status apic =
      if apic.x2
      then (do write_apic_msr apic Msr.x2apic_lvt_error 0; read_apic_msr apic Msr.x2apic_lvt_error)
      else (do
        write_register apic register_error_status 0
        read_register apic register_error_status)

  pub set_error_status : LocalApic → ℕ → M (Unit {0})
  set_error_status apic value =
      if apic.x2
      then write_apic_msr apic Msr.x2apic_lvt_error value
      else write_register apic register_error_status (value % u32_mod)

  pub get_icr : LocalApic → M ℕ
  get_icr apic = if apic.x2 then read_apic_msr apic Msr.x2apic_icr else (do
    ipi_high ← read_register apic register_ipi_high
    ipi_low ← read_register apic register_ipi_low
    pure (bit_or (ipi_high * u32_mod % u64_mod) (bit_and ipi_low (u32_mod - 1))))

  -- The `while` loop of `wait_for_ipi_delivery`, on fuel.
  pub wait_loop : ℕ → LocalApic → M (Unit {0})
  wait_loop zero apic = spin
  wait_loop (suc fuel) apic = do
    icr ← get_icr apic
    let again = wait_loop fuel apic
    if bit_and icr (2 ^ 12) == 2 ^ 12 then again else pure tt

  pub wait_for_ipi_delivery : ℕ → LocalApic → M (Unit {0})
  wait_for_ipi_delivery fuel apic = if apic.x2 then pure tt else wait_loop fuel apic

  pub set_icr : ℕ → LocalApic → ℕ → M (Unit {0})
  set_icr fuel apic value = do
    wait_for_ipi_delivery fuel apic
    if apic.x2 then write_apic_msr apic Msr.x2apic_icr value else (do
      let ipi_high = bit_and (value / 2 ^ 32) (u32_mod - 1)
      wait_for_ipi_delivery fuel apic
      write_register apic register_ipi_high ipi_high
      write_register apic register_ipi_low (value % u32_mod)
      wait_for_ipi_delivery fuel apic)

  pub clear_apic_errors : LocalApic → M (Unit {0})
  clear_apic_errors apic =
      if apic.x2
      then write_apic_msr apic Msr.x2apic_lvt_error 0
      else write_register apic register_error_status 0

  pub send_ipi_init : ℕ → LocalApic → ℕ → M (Unit {0})
  send_ipi_init fuel apic cpu_id = do
    clear_apic_errors apic
    set_icr fuel apic (init_icr apic cpu_id)

  pub send_ipi_start : ℕ → LocalApic → ℕ → ℕ → M (Unit {0})
  send_ipi_start fuel apic cpu_id segment = do
    clear_apic_errors apic
    set_icr fuel apic (start_icr apic cpu_id segment)

  pub set_local_vector_table_timer : LocalApic → ℕ → M (Unit {0})
  set_local_vector_table_timer apic value =
      if apic.x2
      then write_apic_msr apic Msr.x2apic_lvt_timer value
      else write_register apic register_timer (value % u32_mod)

  pub init_ap : LocalApic → M (Unit {0})
  init_ap apic = do
    if apic.x2
        then (do
          base ← read_apic_msr apic Msr.apic_base
          write_apic_msr apic Msr.apic_base (bit_or base (2 ^ 10)))
        else pure tt
    sivr ← get_spurious_interrupt_vector apic
    set_spurious_interrupt_vector apic (bit_or sivr 0x1FF)
    set_local_vector_table_timer apic (bit_or 32 0x20000)
    set_timer_divisor apic 0x03
    set_timer_initial_count apic 0xFF00
