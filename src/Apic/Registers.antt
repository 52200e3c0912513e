-- ===== src/Apic/Registers.antt =====
-- kernel/src/arch/arch_x86_64/apic/mod.rs: the offsets of the registers in the page of the local APIC.
use oxidized.Common.{ℕ}

-- `register_address`, `address` and the offsets of the source's registers.
abbrev pub apic_register_address_mask : ℕ
apic_register_address_mask = 0x0FF0

abbrev pub register_id : ℕ
register_id = 0x020

abbrev pub register_version : ℕ
register_version = 0x030

abbrev pub register_task_priority : ℕ
register_task_priority = 0x080

abbrev pub register_arbitration_priority : ℕ
register_arbitration_priority = 0x090

abbrev pub register_processor_priority : ℕ
register_processor_priority = 0x0A0

abbrev pub register_end_of_interrupt : ℕ
register_end_of_interrupt = 0x0B0

abbrev pub register_spurious_interrupt_vector : ℕ
register_spurious_interrupt_vector = 0x0F0

abbrev pub register_error_status : ℕ
register_error_status = 0x280

abbrev pub register_ipi_low : ℕ
register_ipi_low = 0x300

abbrev pub register_ipi_high : ℕ
register_ipi_high = 0x310

abbrev pub register_timer : ℕ
register_timer = 0x320

abbrev pub register_timer_initial_count : ℕ
register_timer_initial_count = 0x380

abbrev pub register_timer_divisor : ℕ
register_timer_divisor = 0x3E0
