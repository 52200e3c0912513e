-- ===== src/Memory/Heap/Growth.antt =====
-- How much the heap grows, and when.
use oxidized.Common.{
  ℕ, ◌%◌, ◌^◌, ◌+◌, ◌*◌, ◌/◌, ◌≤◌, ◌<◌, ◌≡◌, ◌≢◌, arith, inl, inr, Outcome-cases, returns, panics,
  max,
}
use oxidized.Crates.{BitStore, Paging, PageTables, LockedHeap}
use oxidized.Memory.Frames.{FrameAllocator, page_size}
use oxidized.Memory.Heap.{
  Kernel, calculate_heap_expansion, pages_to_allocate, allocate_heap_space, extend_heap, alloc,
}

-- The pages that `extend_heap` asks for hold more than the heap does, and more than eight times the
-- bytes that it was asked for, as long as these are below 2^64; and no smaller number of pages does
-- both.
pub pages_to_allocate_lem :
    (current needed n : ℕ)
    → needed * 8 < 2 ^ 64
    → (current < pages_to_allocate current needed * page_size)
      × (needed * 8 < pages_to_allocate current needed * page_size)
      × (current < n * page_size
          → needed * 8 < n * page_size
          → pages_to_allocate current needed ≤ n)
unfolding pages_to_allocate
pages_to_allocate_lem current needed n small = (ground arith, ground arith, λ h g. ground arith)

pages_fit :
    (current needed : ℕ)
    → 2 * current + page_size < 2 ^ 64
    → needed * 8 + page_size < 2 ^ 64
    → pages_to_allocate current needed * page_size < 2 ^ 64
unfolding pages_to_allocate
pages_fit current needed room small = ground arith

module _ (B : BitStore) (G : Paging) (P : PageTables (FrameAllocator B)) (L : LockedHeap)
    (fuel flags : ℕ) where
  open L use {heap_size, allocate, extend, size-extend, size-allocate}

  -- An extension that returns has more than doubled the heap, and by more than eight times the bytes
  -- that were asked for, as long as twice the heap and eight times the bytes are below 2^64 less a page; of an empty heap it panics.
  pub extend_heap-doubles :
      (k k' : Kernel B G P L) (needed : ℕ)
      → 2 * heap_size k.heap + page_size < 2 ^ 64
      → needed * 8 + page_size < 2 ^ 64
      → extend_heap B G P L fuel flags k needed ≡ returns k'
      → (heap_size k.heap ≢ 0)
        × (2 * heap_size k.heap < heap_size k'.heap)
        × (heap_size k.heap + needed * 8 < heap_size k'.heap)
  unfolding extend_heap
  extend_heap-doubles k k' needed room small h =
      let pages : ℕ = pages_to_allocate (heap_size k.heap) needed in
      let big = pages_to_allocate_lem (heap_size k.heap) needed 0 (omega arith) in
      let fits : pages * page_size < 2 ^ 64 = pages_fit (heap_size k.heap) needed room small in
      elim (Outcome-cases (allocate_heap_space B G P L fuel flags k pages)) [
        | inl ((space, k₁), e) ↦
            ground (arith, e, big, fits, size-extend k.heap (pages * page_size % 2 ^ 64))
        | inr (inl e) ↦ ground (arith, e)
        | inr (inr e) ↦ ground (arith, e)
      ]

  -- While a block fits, `alloc` returns it and leaves the managers alone. Where none fits and the
  -- heap has no size, it panics.
  pub alloc_lem :
      (k : Kernel B G P L) (size align : ℕ)
      → ((allocate k.heap size align).0 ≢ 0
          → alloc B G P L fuel flags k size align
            ≡ returns (
              (allocate k.heap size align).0,
              record k { heap = (allocate k.heap size align).1 },
            ))
        × ((allocate k.heap size align).0 ≡ 0
            → heap_size k.heap ≡ 0
            → alloc B G P L fuel flags k size align ≡ panics)
  unfolding alloc extend_heap
  alloc_lem k size align =
      (λ h. ground arith, λ h z. ground (arith, size-allocate k.heap size align))

  -- With a heap of less than 2^63 bytes less a page, and twelve times the size and alignment asked
  -- for below 2^64 less a page, a call of `alloc` that finds no block at first, and returns, has
  -- extended the heap: it has more than doubled, and grown by more than twelve times the size and
  -- alignment asked for, less eight bytes.
  pub alloc-grows :
      (k k' : Kernel B G P L) (size align ret : ℕ)
      → 2 * heap_size k.heap + page_size < 2 ^ 64
      → 12 * (align + size) + page_size < 2 ^ 64
      → (allocate k.heap size align).0 ≡ 0
      → alloc B G P L fuel flags k size align ≡ returns (ret, k')
      → (2 * heap_size k.heap < heap_size k'.heap)
        × (heap_size k.heap + 12 * (align + size) < heap_size k'.heap + 8)
  unfolding alloc calculate_heap_expansion
  alloc-grows k k' size align ret room small z h =
      let heap₁ = (allocate k.heap size align).1 in
      let k₁ : Kernel B G P L = record k { heap = heap₁ } in
      let needed : ℕ = max (heap_size heap₁ / 4) ((align + size) % 2 ^ 64 * 3 % 2 ^ 64 / 2) in
      let same : heap_size heap₁ ≡ heap_size k.heap = size-allocate k.heap size align in
      elim (Outcome-cases (extend_heap B G P L fuel flags k₁ needed)) [
        | inr (inl e) ↦ ground (arith, e)
        | inr (inr e) ↦ ground (arith, e)
        | inl (k₂, e) ↦ ground (
          arith,
          e,
          extend_heap-doubles k₁ k₂ needed (omega (arith, same)) (ground (arith, same)) e,
          same,
          size-allocate k₂.heap size align,
        )
      ]
