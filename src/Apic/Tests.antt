-- ===== src/Apic/Tests.antt =====
-- Runs on a machine whose registers keep what is written.
use oxidized.Common.{
  ℕ, ◌+◌, ◌-◌, [], ◌*◌, ◌^◌, ◌≡◌, refl, arith, false, returns, if◌then◌else◌, ◌==◌,
}
use oxidized.Crates.Concrete.{quiet_bus}
use oxidized.Apic.{
  LocalApic, get_icr, set_icr, send_ipi_start, clear_apic_errors, register_ipi_high,
  register_ipi_low, read_register, get_register_pointer,
}
use oxidized.Apic.Run.{Bus, ◌>>◌}
use oxidized.Apic.Icr.{IsQuiet, Delivers, now, later, send_halves, set_icr_lem, send_ipi_start_lem}

abbrev apic : LocalApic
apic = record { address = 0xFEE00000; x2 = false }

quiet : IsQuiet quiet_bus apic
unfolding get_icr read_register get_register_pointer
quiet s = (0, refl, λ e. omega arith)

set_icr_lem_example : set_icr quiet_bus 1 apic 0x4608 [] ≡ send_halves quiet_bus apic 0x4608 []
set_icr_lem_example = set_icr_lem quiet_bus 0 apic 0x4608 [] quiet (omega arith)

send_ipi_start_lem_example :
    send_ipi_start quiet_bus 1 apic 3 8 []
    ≡ (clear_apic_errors quiet_bus apic
          >> (quiet_bus.write32 (apic.address + register_ipi_high) (3 * 2 ^ 24)
              >> quiet_bus.write32 (apic.address + register_ipi_low) (0x4600 + 8)))
        []
send_ipi_start_lem_example =
    send_ipi_start_lem quiet_bus 0 apic 3 8 [] quiet (omega arith) (omega arith)

-- So many reads show a delivery pending.
abbrev busy_bus : Bus
busy_bus = record {
  State = ℕ;
  read32 = λ a s. returns (if s == 0 then 0 else 4096, s - 1);
  write32 = λ a v s. returns (tt, s);
  rdmsr = λ r s. returns (0, s);
  wrmsr = λ r v s. returns (tt, s);
}

delivers : Delivers busy_bus apic 1 2 0
unfolding get_icr read_register get_register_pointer
delivers = later (4096 * 2 ^ 32 + 4096) refl refl (now 0 refl (λ e. omega arith) refl)
