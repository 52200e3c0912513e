-- ===== src/Processors/Tests.antt =====
-- A trampoline for one processor.
use oxidized.Common.{ℕ, ◌+◌, ◌-◌, ◌*◌, ◌≤◌, ◌<◌, ◌≡◌, ◌⊎◌, refl, arith, returns}
use oxidized.Crates.Concrete.{blocks}
use oxidized.Shared.Memcpy.{Memory}
use oxidized.Processors.{Payload, Control, setup_trampoline}
use oxidized.Processors.Trampoline.{Holds, setup_trampoline_lem}

abbrev page : Payload
page = record { payload = 0 }

abbrev registers : Control
registers = record { efer = 0x500; cr0 = 0x80010033; cr4 = 0x668 }

abbrev empty_memory : Memory
empty_memory a = 0

setup_trampoline_lem_example :
    (m' : Memory) × (setup_trampoline 0x5000 512 blocks 0x1000 0x2000 registers empty_memory 65536
        page
      ≡ returns (m', 1114112, registers, 1048576))
    × Holds 0x5000 512 page 0x1000 (1048576 + 256 * 4096) 0x2000 m'
    × ((q : ℕ) → (q < 0 + 512 - 32) ⊎ (0 + 512 - 8 ≤ q) → m' q ≡ empty_memory q)
setup_trampoline_lem_example =
    setup_trampoline_lem 0x5000 512 page (omega arith) blocks 0x1000 0x2000 registers empty_memory
      65536 1114112 1048576 refl (omega arith)
