-- ===== src/Memory/Heap.antt =====
-- kernel/src/memory/allocator.rs, KernelAllocator: the kernel heap, and how it grows.
pub mod Growth
pub mod Blocks
mod Tests
use oxidized.Common.{
  ℕ, ◌%◌, ◌^◌, ◌+◌, ◌*◌, ◌/◌, ◌==◌, ltb, max, if◌then◌else◌, Bool, not, Option, none, some, Outcome,
  returns, panics, ◌>>=◌, unwrap,
}
use oxidized.Crates.{BitStore, Paging, PageTables, LockedHeap}
use oxidized.Memory.Frames.{FrameAllocator, page_size}
use oxidized.Memory.Manager.{MemoryManager, allocate_contigious_address_range}

abbrev pub kernel_heap_start : ℕ
kernel_heap_start = 0xF00000000000

abbrev pub kernel_heap_pages : ℕ
kernel_heap_pages = 128

-- `calculate_heap_expansion`, with products that wrap, of the heap's size and a layout's size and alignment.
pub calculate_heap_expansion : ℕ → ℕ → ℕ → ℕ
calculate_heap_expansion heap_size size align =
    max (heap_size / 4) ((align + size) % 2 ^ 64 * 3 % 2 ^ 64 / 2)

-- `pages_to_allocate` of `extend_heap`
pub pages_to_allocate : ℕ → ℕ → ℕ
pages_to_allocate current_size needed_bytes =
    let pages = current_size / page_size + 1 in
    let needed_pages = needed_bytes * 8 % 2 ^ 64 / page_size + 1 in
    if ltb pages needed_pages then needed_pages else pages

module _ (B : BitStore) (G : Paging) (P : PageTables (FrameAllocator B)) (L : LockedHeap) where
  open G use {virt_addr}
  open L use {Heap, heap_size, init_heap, extend, allocate, deallocate}

  -- The heap with the managers that it draws on.
  pub record Kernel : Type 0 where
    pub heap : Heap
    pub manager : MemoryManager B G P
    pub frames : FrameAllocator B

  -- `flags` are PRESENT | WRITABLE | NO_EXECUTE, and `fuel` is for the search of pages.
  module _ (fuel flags : ℕ) where
    pub allocate_heap_space : Kernel → ℕ → Outcome (ℕ × Kernel)
    allocate_heap_space k pages = do
      earliest ← virt_addr kernel_heap_start
      r ←
          allocate_contigious_address_range B G P fuel k.manager k.frames pages (some earliest)
            flags
      space ← unwrap r.0
      returns (space, record k { manager = r.1; frames = r.2 })

    pub init : Kernel → Outcome Kernel
    init k = do
      r ← allocate_heap_space k kernel_heap_pages
      let (space, k') = r
      returns (record k' { heap = init_heap space (kernel_heap_pages * page_size) })

    pub extend_heap : Kernel → ℕ → Outcome Kernel
    extend_heap k needed_bytes = if heap_size k.heap == 0 then panics else (do
      let pages = pages_to_allocate (heap_size k.heap) needed_bytes
      r ← allocate_heap_space k pages
      let (space, k') = r
      if space == 0
          then panics
          else returns (record k' { heap = extend k.heap (pages * page_size % 2 ^ 64) }))

    -- `alloc`: a null pointer is 0.
    pub alloc : Kernel → ℕ → ℕ → Outcome (ℕ × Kernel)
    alloc k size align =
        let (ret, heap) = allocate k.heap size align in
        let k₁ : Kernel = record k { heap = heap } in
        if not (ret == 0) then returns (ret, k₁) else (do
          k₂ ← extend_heap k₁ (calculate_heap_expansion (heap_size heap) size align)
          let (again, heap') = allocate k₂.heap size align
          returns (again, record k₂ { heap = heap' }))

    pub dealloc : Kernel → ℕ → ℕ → ℕ → Kernel
    dealloc k ptr size align = record k { heap = deallocate k.heap ptr size align }
