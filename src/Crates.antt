-- ===== src/Crates.antt =====
-- The crates that the kernel calls and whose code is not in the repository, as interfaces: a record
-- of the operations that the source uses, with the documented behaviour that it relies on.
pub mod Concrete
pub mod Descriptors
use oxidized.Common.{
  ℕ, ◌-◌, ◌≤◌, not, ◌&&◌, ◌%◌, ◌^◌, ◌≢◌, ◌+◌, ◌*◌, ◌/◌, ◌<◌, ◌≡◌, Bool, true, ◌==◌, if◌then◌else◌,
  Option, some, Outcome, returns, panics,
}

-- bitvec: a `BitArray` of some length. `test` is indexing and `assign` is `set`, both in range; the
-- callers below write out what happens out of range. `bitarr v` is what `bitarr!(v)` makes of a list
-- of one value: one 64-bit word, whose first bit is set unless `v` is 0.
pub record BitStore : Type 1 where
  pub Bits : Type 0
  pub len : Bits → ℕ
  pub test : Bits → ℕ → Bool
  pub assign : Bits → ℕ → Bool → Bits
  pub len-assign : (b : Bits) (i : ℕ) (v : Bool) → len (assign b i v) ≡ len b
  pub bitarr : ℕ → Bits
  pub len-bitarr : (v : ℕ) → len (bitarr v) ≡ 64
  pub test-bitarr : (v i : ℕ) → i < 64 → test (bitarr v) i ≡ (i == 0 && not (v == 0))
  pub test-assign :
      (b : Bits) (i j : ℕ) (v : Bool)
      → i < len b
      → test (assign b i v) j ≡ (if i == j then v else test b j)

-- x86_64: the start of the 4 KiB frame or page that holds an address.
-- (`PhysFrame::containing_address`, `Page::containing_address`, `VirtAddr::align_down`.) `virt_addr` is
-- `VirtAddr::new`, which copies bit 47 into the bits above it, and panics where these hold anything but
-- copies of it or zeros.
pub record Paging : Type 0 where
  pub containing_address : ℕ → ℕ
  pub containing_address-eq : (a : ℕ) → containing_address a ≡ a / 4096 * 4096
  pub virt_addr : ℕ → Outcome ℕ
  pub virt_addr-low : (a : ℕ) → a < 2 ^ 47 → virt_addr a ≡ returns a
  pub virt_addr-gap :
      (a : ℕ) → 2 ^ 47 ≤ a → a < 2 ^ 48 → virt_addr a ≡ returns (a + (2 ^ 64 - 2 ^ 48))
  pub virt_addr-bad : (a : ℕ) → 2 ^ 48 ≤ a → a < 2 ^ 64 - 2 ^ 47 → virt_addr a ≡ panics
  pub virt_addr-high : (a : ℕ) → 2 ^ 64 - 2 ^ 47 ≤ a → a < 2 ^ 64 → virt_addr a ≡ returns a

-- x86_64: the active page tables, for 4 KiB pages given by their start addresses. `translate_page`
-- is whether a page is mapped. `map_to` may take frames for the tables themselves from an allocator
-- of states `F`, and is `none` where the crate's function fails; `identity_map` maps a frame to the
-- page at the frame's own address.
pub record PageTables (F : Type 0) : Type 1 where
  pub Tables : Type 0
  pub translate_page : Tables → ℕ → Bool
  pub map_to : Tables → ℕ → ℕ → ℕ → F → Option (Tables × F)
  pub translate-map :
      (t : Tables) (page frame flags : ℕ) (f : F) (t' : Tables) (f' : F)
      → map_to t page frame flags f ≡ some (t', f')
      → (q : ℕ) → translate_page t' q ≡ (if page == q then true else translate_page t q)
  pub identity_map : Tables → ℕ → ℕ → F → Option (Tables × F)
  pub identity_map-eq :
      (t : Tables) (frame flags : ℕ) (f : F)
      → identity_map t frame flags f ≡ map_to t frame frame flags f

-- linked_list_allocator: a heap over a range of memory. `allocate` gives 0 where no block fits.
pub record LockedHeap : Type 1 where
  pub Heap : Type 0
  pub heap_size : Heap → ℕ
  pub init_heap : ℕ → ℕ → Heap
  pub extend : Heap → ℕ → Heap
  pub allocate : Heap → ℕ → ℕ → ℕ × Heap
  pub deallocate : Heap → ℕ → ℕ → ℕ → Heap
  pub size-init : (start size : ℕ) → heap_size (init_heap start size) ≡ size
  pub size-extend : (h : Heap) (n : ℕ) → heap_size (extend h n) ≡ heap_size h + n
  pub size-allocate :
      (h : Heap) (size align : ℕ) → heap_size (allocate h size align).1 ≡ heap_size h
  pub allocate-aligned : (h : Heap) (size : ℕ) → (allocate h size 16).0 % 16 ≡ 0
  pub allocate-fits :
      (h : Heap) (size align : ℕ)
      → (allocate h size align).0 ≢ 0
      → (allocate h size align).0 + size < 2 ^ 64
