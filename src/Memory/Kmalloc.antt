-- ===== src/Memory/Kmalloc.antt =====
-- kernel/src/memory/allocator.rs, `kmalloc`: the heap as its clients see it.
use oxidized.Common.{ℕ, ◌+◌, ◌%◌, ◌^◌, ◌<◌, ◌≡◌, ◌≢◌, Outcome, returns}

-- A heap, and an allocation of a size and an alignment, which may panic and gives 0 where it fails.
pub record Kmalloc : Type 1 where
  pub Heap : Type 0
  pub kmalloc : Heap → ℕ → ℕ → Outcome (ℕ × Heap)
  pub kmalloc-aligned :
      (h h' : Heap) (size ptr : ℕ) → kmalloc h size 16 ≡ returns (ptr, h') → ptr % 16 ≡ 0
  pub kmalloc-fits :
      (h h' : Heap) (size align ptr : ℕ)
      → kmalloc h size align ≡ returns (ptr, h')
      → ptr ≢ 0
      → ptr + size < 2 ^ 64
