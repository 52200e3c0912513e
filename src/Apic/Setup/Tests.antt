-- ===== src/Apic/Setup/Tests.antt =====
-- A processor whose local APIC stands at the usual address, on a bus that keeps what is written.
use oxidized.Common.{◌≡◌, refl, arith, false, none, some, [], returns, panics, spins, Outcome}
use oxidized.Crates.{PageTables}
use oxidized.Crates.Concrete.{bit_function, rounding, page_set, quiet_bus}
use oxidized.Memory.Frames.{FrameAllocator}
use oxidized.Memory.Manager.{identity_map}
use oxidized.Apic.{
  init_ap, get_spurious_interrupt_vector, set_spurious_interrupt_vector,
  set_local_vector_table_timer, set_timer_divisor, set_timer_initial_count, read_register,
  write_register, get_register_pointer,
}
use oxidized.Apic.Run.{Machine}
use oxidized.Apic.Setup.{Boot, apic_model, init, use_memory, Reaches, init-Reaches}

abbrev page_tables : PageTables (FrameAllocator bit_function)
page_tables = page_set (FrameAllocator bit_function)

abbrev SmallBoot : Type 0
SmallBoot = Boot bit_function rounding page_tables quiet_bus

abbrev before : SmallBoot
before = record {
  bus = [];
  manager = record {
    page_table = some (λ q. false);
    physical_offset = 0;
    next_free_page = 0x100000;
    flushes = [];
  };
  frames = record { memory_map = none; next = 0; used_pages = (512, λ i. false) };
  local_apic = record { address = 0; x2 = false };
}

abbrev nothing_to_do : Machine quiet_bus.State (Unit {0})
nothing_to_do s = returns (tt, s)

abbrev call : Outcome SmallBoot
call =
    init bit_function rounding page_tables quiet_bus nothing_to_do 19 false before
      (some (apic_model 0xFEE00000))

abbrev after : SmallBoot
after = elim call [ returns s ↦ s | panics ↦ before | spins ↦ before ]

call_returns : call ≡ returns after
unfolding init use_memory identity_map init_ap get_spurious_interrupt_vector
    set_spurious_interrupt_vector set_local_vector_table_timer set_timer_divisor
    set_timer_initial_count read_register write_register get_register_pointer
call_returns = refl

init-Reaches_example : Reaches bit_function rounding page_tables quiet_bus after
init-Reaches_example =
    init-Reaches bit_function rounding page_tables quiet_bus nothing_to_do 19 0xFEE00000 before
      after refl (omega arith) refl call_returns
