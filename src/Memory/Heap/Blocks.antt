-- ===== src/Memory/Heap/Blocks.antt =====
-- memory/allocator.rs, KernelAllocator::alloc: where the blocks lie, whether the heap has to grow or not.
use oxidized.Common.{ℕ, ◌+◌, ◌%◌, ◌^◌, ◌<◌, ◌≡◌, ◌≢◌, arith, inl, inr, Outcome-cases, returns}
use oxidized.Crates.{BitStore, Paging, PageTables, LockedHeap}
use oxidized.Memory.Frames.{FrameAllocator}
use oxidized.Memory.Heap.{Kernel, calculate_heap_expansion, extend_heap, alloc}

module _ (B : BitStore) (G : Paging) (P : PageTables (FrameAllocator B)) (L : LockedHeap)
    (fuel flags : ℕ) where
  open L use {heap_size, allocate, allocate-aligned, allocate-fits}

  -- The address that `alloc` returns for an alignment of 16 is a multiple of 16, whether the heap has to
  -- grow for it or not.
  pub alloc-aligned :
      (k k' : Kernel B G P L) (size ptr : ℕ)
      → alloc B G P L fuel flags k size 16 ≡ returns (ptr, k')
      → ptr % 16 ≡ 0
  unfolding alloc
  alloc-aligned k k' size ptr e =
      elim (Outcome-cases (
        extend_heap B G P L fuel flags (record k { heap = (allocate k.heap size 16).1 })
          (calculate_heap_expansion (heap_size (allocate k.heap size 16).1) size 16))) [
            | inl (k₂, q) ↦
                ground (arith, e, q, allocate-aligned k.heap size, allocate-aligned k₂.heap size)
            | inr (inl q) ↦ ground (arith, e, q, allocate-aligned k.heap size)
            | inr (inr q) ↦ ground (arith, e, q, allocate-aligned k.heap size)
          ]

  -- The block that it returns ends below 2^64.
  pub alloc-fits :
      (k k' : Kernel B G P L) (size align ptr : ℕ)
      → alloc B G P L fuel flags k size align ≡ returns (ptr, k')
      → ptr ≢ 0
      → ptr + size < 2 ^ 64
  unfolding alloc
  alloc-fits k k' size align ptr e ne =
      elim (Outcome-cases (
        extend_heap B G P L fuel flags (record k { heap = (allocate k.heap size align).1 })
          (calculate_heap_expansion (heap_size (allocate k.heap size align).1) size align))) [
            | inl (k₂, q) ↦
                ground (
                  arith,
                  e,
                  q,
                  ne,
                  allocate-fits k.heap size align,
                  allocate-fits k₂.heap size align,
                )
            | inr (inl q) ↦ ground (arith, e, q, ne, allocate-fits k.heap size align)
            | inr (inr q) ↦ ground (arith, e, q, ne, allocate-fits k.heap size align)
          ]
