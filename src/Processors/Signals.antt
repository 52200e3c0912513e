-- ===== src/Processors/Signals.antt =====
-- cpu/mod.rs, InterProcessorInterruptPayload::boot: the two commands by the local APIC, before the
-- loop that waits (Processors.Boot).
use oxidized.Common.{ℕ, ◌/◌, ◌%◌, ◌^◌, ◌<◌, ◌≡◌, ◌∙◌, ap, arith, bit_and}
use oxidized.Common.Bits.{bit_and-mask}
use oxidized.Apic.{LocalApic, send_ipi_init, send_ipi_start}
use oxidized.Apic.Run.{Bus, Machine, ◌>>◌}
use oxidized.Processors.{Payload, get_code_segment}

-- `fuel` is for the delivery of each command.
pub boot_signals : (H : Bus) → ℕ → LocalApic → Payload → ℕ → Machine H.State (Unit {0})
boot_signals H fuel apic p cpu_id =
    let segment = get_code_segment p % 256 in
    send_ipi_init H fuel apic cpu_id >> send_ipi_start H fuel apic cpu_id segment

-- For a page below 1 MiB, the page that the start-up command names is the one that the code was
-- copied to.
pub get_code_segment_lem :
    (p : Payload) → p.payload < 2 ^ 20 → get_code_segment p % 256 ≡ p.payload / 4096
unfolding get_code_segment
get_code_segment_lem p h =
    let page : ℕ = p.payload / 2 ^ 12 % 2 ^ 16 in
    let small : page < 2 ^ 8 = omega arith in
    let masked : bit_and page 0xFF ≡ page =
      ap (λ k. bit_and k 0xFF) (omega arith) ∙ bit_and-mask 8 0 page small in
    ap (λ k. k % 256) masked ∙ omega arith
