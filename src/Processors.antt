-- ===== src/Processors.antt =====
-- kernel/src/arch/arch_x86_64/cpu/mod.rs: the start of the other processors.
pub mod Trampoline
pub mod Boot
pub mod Signals
mod Tests
use oxidized.Common.{
  ℕ, ◌+◌, ◌-◌, ◌*◌, ◌/◌, ◌%◌, ◌^◌, ◌==◌, ltb, if◌then◌else◌, ◌&&◌, Bool, true, false, bit_and,
  Outcome, returns, panics, ◌>>=◌,
}
use oxidized.Crates.{BitStore}
use oxidized.Shared.Memcpy.{Memory, memcpy, store_word}
use oxidized.Memory.Frames.{page_size}
use oxidized.Memory.Kmalloc.{Kmalloc}

abbrev pub cpu_stack_pages : ℕ
cpu_stack_pages = 256

-- The offsets of the source, which are negative: -3, -2 and -1.
abbrev pub page_table_offset : ℕ
page_table_offset = 3

abbrev pub stack_end_offset : ℕ
stack_end_offset = 2

abbrev pub entry_address_offset : ℕ
entry_address_offset = 1

-- `InterProcessorInterruptPayload`
pub record Payload : Type 0 where
  pub payload : ℕ

-- `BSP_EFER`, `BSP_CR0` and `BSP_CR4`, or the registers themselves.
pub record Control : Type 0 where
  pub efer : ℕ
  pub cr0 : ℕ
  pub cr4 : ℕ

-- Byte `k` of a 64-bit value, the lowest first.
unfoldable pub byte_of : ℕ → ℕ → ℕ
byte_of value k = value / 256 ^ k % 256

-- `get_code_segment`: the page of the payload.
pub get_code_segment : Payload → ℕ
get_code_segment p = bit_and (p.payload / 2 ^ 12 % 2 ^ 16) 0x00FF

-- `cpu_apic_id`, of what cpuid leaves in rbx.
pub cpu_apic_id : ℕ → ℕ
cpu_apic_id rbx = bit_and (rbx / 2 ^ 24) 0xff

-- `code_len` is the length of `BOOTSTRAP_CODE`, and `code` is where it stands.
module _ (code code_len : ℕ) where
  pub load : Memory → Payload → Memory
  load m p = memcpy m p.payload code code_len

  -- `target` of `set_value`, for an index of minus `k`.
  pub target : Payload → ℕ → ℕ
  target p k = p.payload + code_len - 8 - 8 * k

  pub set_value : Memory → Payload → ℕ → ℕ → Memory
  set_value m p k value = store_word m (target p k) (byte_of value)

  pub set_page_table : Memory → Payload → ℕ → Memory
  set_page_table m p page_table = set_value m p page_table_offset page_table

  pub set_entry_point : Memory → Payload → ℕ → Memory
  set_entry_point m p ap_entry = set_value m p entry_address_offset ap_entry

  pub set_stack : Memory → Payload → ℕ → ℕ → Outcome Memory
  set_stack m p stack stack_length =
      if stack % 16 == 0 && (stack + stack_length) % 16 == 0
      then returns (set_value m p stack_end_offset (stack + stack_length))
      else panics

  -- `cr3`, `registers` and `ap_entry` are what the assembler line, the reads of the control registers
  -- and the address of the function give.
  pub setup_trampoline_common_parameters : ℕ → ℕ → Control → Memory → Payload → Memory × Control
  setup_trampoline_common_parameters cr3 ap_entry registers m p =
      (set_entry_point (set_page_table m p cr3) p ap_entry, registers)

  module _ (K : Kmalloc) where
    open K use {Heap, kmalloc}

    pub create_ap_stack : Heap → ℕ → Outcome (ℕ × Heap)
    create_ap_stack h size = kmalloc h size 16

    -- The memory, the heap, the copies of the control registers, and the stack.
    pub setup_trampoline :
        ℕ → ℕ → Control → Memory → Heap → Payload → Outcome (Memory × Heap × Control × ℕ)
    setup_trampoline cr3 ap_entry registers m h p = do
      r ← create_ap_stack h (cpu_stack_pages * page_size)
      let (stack, h') = r
      m₁ ← set_stack m p stack (cpu_stack_pages * page_size)
      let (m₂, control) = setup_trampoline_common_parameters cr3 ap_entry registers m₁ p
      returns (m₂, h', control, stack)

-- The bits of `CPU_ONLINE_STATUS_BITS` and of `CPU_BOOTING_STATUS_BITS`.
module _ (B : BitStore) where
  open B use {Bits, len, test, assign, bitarr}

  -- `get_online_cpu_status_bits` and `get_booting_cpu_status_bits`, the first time: an array that holds
  -- the one value 512, as `bitarr!(512)` makes it.
  abbrev pub new_status_bits : Bits
  new_status_bits = bitarr 512

  -- A processor that the array does not have is not ready.
  pub is_ready : Bits → ℕ → Bool
  is_ready bits cpu_id = if ltb cpu_id (len bits) then test bits cpu_id else false

  -- `mark_cpu_online` and `mark_cpu_booting`, each on its array.
  pub mark_cpu : Bits → ℕ → Outcome Bits
  mark_cpu bits cpu_id = if ltb cpu_id (len bits) then returns (assign bits cpu_id true) else panics

-- `set_control_regs`: what the three registers hold after it. `known` cuts each value to the flags
-- that the x86_64 crate names (`from_bits_truncate`).
pub set_control_regs : (Control → Control) → Control → Control
set_control_regs known bsp = known bsp
