-- ===== src/Memory/Heap/Tests.antt =====
-- A full heap of one page that grows by three.
use oxidized.Common.{
  ℕ, arith, ◌+◌, ◌*◌, ◌<◌, ◌≡◌, refl, true, false, some, [], ◌∷◌, Outcome, returns, panics, spins,
}
use oxidized.Crates.{PageTables}
use oxidized.Crates.Concrete.{bit_function, rounding, page_set, bump_heap}
use oxidized.Memory.Frames.{
  FrameAllocator, allocate_frame, allocate_loop, usable_frames, scan, set_page, addresses,
  addresses_of, region_addresses, frames_of,
}
use oxidized.Memory.Manager.{
  find_range, add_pages, first_page, floor, map_pages, allocate_contigious_address_range,
}
use oxidized.Memory.Heap.{
  Kernel, alloc, extend_heap, allocate_heap_space, pages_to_allocate, calculate_heap_expansion,
}
use oxidized.Memory.Heap.Growth.{alloc-grows}

abbrev page_tables : PageTables (FrameAllocator bit_function)
page_tables = page_set (FrameAllocator bit_function)

abbrev SmallKernel : Type 0
SmallKernel = Kernel bit_function rounding page_tables bump_heap

abbrev kernel : SmallKernel
kernel = record {
  heap = (4096, 4096);
  manager = record {
    page_table = some (λ q. false);
    physical_offset = 0;
    next_free_page = 0;
    flushes = [];
  };
  frames = record {
    memory_map = some (record { start = 0x100000; end = 0x103000; usable = true } ∷ []);
    next = 0;
    used_pages = (512, λ i. false);
  };
}

abbrev extension : Outcome SmallKernel
extension = extend_heap bit_function rounding page_tables bump_heap 5 3 kernel 1024

abbrev extended : SmallKernel
extended = elim extension [ returns k ↦ k | panics ↦ kernel | spins ↦ kernel ]

extension_returns : extension ≡ returns extended
unfolding extend_heap pages_to_allocate allocate_heap_space allocate_contigious_address_range
    find_range add_pages first_page floor map_pages allocate_frame allocate_loop usable_frames scan
    set_page addresses addresses_of region_addresses frames_of
extension_returns = refl

abbrev allocation : Outcome (ℕ × SmallKernel)
allocation = alloc bit_function rounding page_tables bump_heap 5 3 kernel 8 8

abbrev allocated : SmallKernel
allocated = elim allocation [ returns r ↦ r.1 | panics ↦ kernel | spins ↦ kernel ]

allocation_returns : allocation ≡ returns (8192, allocated)
unfolding alloc calculate_heap_expansion extend_heap pages_to_allocate allocate_heap_space
    allocate_contigious_address_range find_range add_pages first_page floor map_pages allocate_frame
    allocate_loop usable_frames scan set_page addresses addresses_of region_addresses frames_of
allocation_returns = refl

alloc-grows_example : (2 * 4096 < allocated.heap.0) × (4096 + 12 * (8 + 8) < allocated.heap.0 + 8)
alloc-grows_example =
    alloc-grows bit_function rounding page_tables bump_heap 5 3 kernel allocated 8 8 8192
      (omega arith) (omega arith) refl allocation_returns
