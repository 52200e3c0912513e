-- ===== src/Memory/Startup/Clients.antt =====
-- memory/allocator.rs, kmalloc: the kernel's heap, as the frame buffer and the processors see it.
use oxidized.Common.{ℕ, ◌+◌, ◌%◌, ◌^◌, ◌<◌, ◌≡◌, ◌≢◌, returns}
use oxidized.Crates.{BitStore, Paging, PageTables, LockedHeap}
use oxidized.Memory.Frames.{FrameAllocator}
use oxidized.Memory.Heap.Blocks.{alloc-aligned, alloc-fits}
use oxidized.Memory.Kmalloc.{Kmalloc}
use oxidized.Memory.Startup.{System, kmalloc}

module _ (B : BitStore) (G : Paging) (P : PageTables (FrameAllocator B)) (L : LockedHeap)
    (fuel flags : ℕ) where
  pub kmalloc-aligned :
      (k k' : System B G P L) (size ptr : ℕ)
      → kmalloc B G P L k fuel flags size 16 ≡ returns (ptr, k')
      → ptr % 16 ≡ 0
  unfolding kmalloc
  kmalloc-aligned k k' size ptr e = alloc-aligned B G P L fuel flags k k' size ptr e

  pub kmalloc-fits :
      (k k' : System B G P L) (size align ptr : ℕ)
      → kmalloc B G P L k fuel flags size align ≡ returns (ptr, k')
      → ptr ≢ 0
      → ptr + size < 2 ^ 64
  unfolding kmalloc
  kmalloc-fits k k' size align ptr e ne = alloc-fits B G P L fuel flags k k' size align ptr e ne

  -- The kernel's heap, with the managers that it draws on.
  abbrev pub kernel_heap : Kmalloc
  kernel_heap = record {
    Heap = System B G P L;
    kmalloc = λ k size align. kmalloc B G P L k fuel flags size align;
    kmalloc-aligned = λ k k' size ptr e. kmalloc-aligned k k' size ptr e;
    kmalloc-fits = λ k k' size align ptr e ne. kmalloc-fits k k' size align ptr e ne;
  }
