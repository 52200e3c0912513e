-- ===== src/Segments/Tests.antt =====
-- Tables with the task state segments 104 bytes apart, and stacks from 16 MiB on.
use oxidized.Common.{
  ℕ, ◌+◌, ◌*◌, ◌/◌, ◌%◌, ◌≤◌, ◌<◌, ◌≡◌, ◌≢◌, ◌⊎◌, arith, some, List, get_elem?, returns, panics,
}
use oxidized.Crates.Concrete.{descriptors}
use oxidized.Segments.{
  GdtInformation, all_gdts, Loaded, load_gdt, TaskStateSegment, task_state_segments, stack_start,
}
use oxidized.Segments.Tables.{load_gdt_lem}
use oxidized.Segments.Stacks.{slot, task_state_segments-Apart}

abbrev flags : ℕ
flags = 0x920000000000

abbrev tss_at : ℕ → ℕ
tss_at i = 0x200000 + 104 * i

load_gdt_lem_example :
    (gs : List (GdtInformation descriptors)) × (all_gdts descriptors flags tss_at ≡ returns gs)
    × ((cpu : ℕ)
        → cpu < 256
        → (l : Loaded descriptors) × (load_gdt descriptors gs cpu ≡ returns l)
          × (l.table.1 (l.cs / 8) ≡ some (1, 0x00af9b000000ffff))
          × (l.table.1 (l.ds / 8) ≡ some (1, flags))
          × (l.ss ≡ l.ds)
          × (l.table.1 (l.task / 8) ≡ some (2, tss_at cpu)))
    × ((cpu : ℕ) → 256 ≤ cpu → load_gdt descriptors gs cpu ≡ panics)
load_gdt_lem_example = load_gdt_lem descriptors flags tss_at

task_state_segments-Apart_example :
    (tss : TaskStateSegment) × (get_elem? (task_state_segments descriptors 0x1000000) 2 ≡ some tss)
    × (slot descriptors 0x1000000 tss 1 % 16 ≡ 0)
    × (stack_start descriptors 0x1000000 2 1 + 16112 ≤ slot descriptors 0x1000000 tss 1)
    × (slot descriptors 0x1000000 tss 1 ≤ stack_start descriptors 0x1000000 2 1 + 16128)
    × ((cpu' x' : ℕ)
        → x' < 10
        → (2 ≢ cpu') ⊎ (1 ≢ x')
        → (slot descriptors 0x1000000 tss 1 < stack_start descriptors 0x1000000 cpu' x')
          ⊎ (stack_start descriptors 0x1000000 cpu' x' + 16384
              ≤ stack_start descriptors 0x1000000 2 1))
task_state_segments-Apart_example =
    task_state_segments-Apart descriptors 0x1000000 2 1 (omega arith) (omega arith)
