-- ===== src/Memory/Startup.antt =====
-- memory/mod.rs, initialize_virtual_memory, and the functions of memory/allocator.rs that it calls: the
-- page tables, the frames and the heap, in that order.
pub mod Clients
use oxidized.Common.{ℕ, List, Outcome, returns, ◌>>=◌}
use oxidized.Crates.{BitStore, Paging, PageTables, LockedHeap}
use oxidized.Memory.Frames.{FrameAllocator, MemoryRegion}
use oxidized.Memory.Frames
use oxidized.Memory.Manager
use oxidized.Memory.Heap
use oxidized.Memory.Heap.{Kernel}

module _ (B : BitStore) (G : Paging) (P : PageTables (FrameAllocator B)) (L : LockedHeap) where
  abbrev pub System : Type 0
  System = Kernel B G P L

  pub init_frame_allocator : System → List MemoryRegion → Outcome System
  init_frame_allocator k memory_map = do
    frames ← Frames.init B G k.frames memory_map
    returns (record k { frames = frames })

  pub init_kernel_heap : ℕ → ℕ → System → Outcome System
  init_kernel_heap fuel flags k = Heap.init B G P L fuel flags k

  -- `active` is what `get_active_page_table` finds: the tables that the processor uses, seen through
  -- the mapping of all memory from `base_address` on.
  pub initialize_virtual_memory : ℕ → ℕ → P.Tables → System → ℕ → List MemoryRegion → Outcome System
  initialize_virtual_memory fuel flags active k base_address memory_map = do
    let k₀ : System = record k { manager = Manager.init B G P k.manager active base_address }
    k₁ ← init_frame_allocator k₀ memory_map
    init_kernel_heap fuel flags k₁

  pub kmalloc : System → ℕ → ℕ → ℕ → ℕ → Outcome (ℕ × System)
  kmalloc k fuel flags size align = Heap.alloc B G P L fuel flags k size align

  pub kfree : System → ℕ → ℕ → ℕ → ℕ → ℕ → System
  kfree k fuel flags ptr size align = Heap.dealloc B G P L fuel flags k ptr size align
