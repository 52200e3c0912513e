-- ===== src/Memory/Frames.antt =====
-- kernel/src/memory/allocator.rs, BootInfoFrameAllocator: which physical frames are in use.
pub mod Scan
pub mod Allocate
pub mod Held
pub mod Ownership
pub mod Reserved
mod Tests
use oxidized.Common.{
  ℕ, zero, suc, ◌+◌, ◌-◌, ◌*◌, ◌/◌, ◌^◌, ◌==◌, ltb, leb, if◌then◌else◌, Bool, true, false, not,
  ◌&&◌, Option, none, some, List, [], ◌∷◌, ◌++◌, map, drop, Outcome, returns, panics, spins, ◌>>=◌,
  unwrap, arith,
}
use oxidized.Crates.{BitStore, Paging}

abbrev pub page_size : ℕ
page_size = 4096

abbrev pub one_megabyte : ℕ
one_megabyte = 1024 * 1024

abbrev pub max_supported_memory : ℕ
max_supported_memory = one_megabyte * 1024 * 1024 * 8

abbrev pub max_supported_pages : ℕ
max_supported_pages = max_supported_memory / page_size

-- What the source reads of a boot loader's memory region: `usable` is
-- `kind == MemoryRegionKind::Usable`.
pub record MemoryRegion : Type 0 where
  pub start : ℕ
  pub end : ℕ
  pub usable : Bool

-- `n` addresses from `a` on, a page apart.
unfoldable pub addresses : ℕ → ℕ → List ℕ
addresses zero a = []
addresses (suc n) a = a ∷ addresses n (a + page_size)

-- `(start..end).step_by(PAGE_SIZE)`
unfoldable pub region_addresses : MemoryRegion → List ℕ
region_addresses r = addresses ((r.end - r.start + 4095) / 4096) r.start

-- The addresses of the regions that are usable, or of those that are not.
unfoldable pub addresses_of : Bool → List MemoryRegion → List ℕ
addresses_of wanted [] = []
addresses_of wanted (r ∷ rs) =
    let rest = addresses_of wanted rs in
    if (if wanted then r.usable else not r.usable) then region_addresses r ++ rest else rest

abbrev pub get_page : ℕ → ℕ
get_page frame = frame / 2 ^ 12

-- The second loop of `init`: how many usable frames lead up to the first one at 1 MiB or above.
pub leading_low : List ℕ → ℕ
leading_low [] = 0
leading_low (frame ∷ rest) =
    let more = leading_low rest + 1 in if ltb frame 0x100000 then more else 0

module _ (G : Paging) where
  open G use {containing_address}

  -- The start addresses of the usable frames, in the order of the memory map.
  unfoldable pub frames_of : List MemoryRegion → List ℕ
  frames_of regions = map containing_address (addresses_of true regions)

module _ (B : BitStore) where
  open B use {Bits, len, test, assign}

  pub record FrameAllocator : Type 0 where
    pub memory_map : Option (List MemoryRegion)
    pub next : ℕ
    pub used_pages : Bits

  -- `used_pages.set(page, value)`, which panics out of range.
  unfoldable pub set_page : FrameAllocator → ℕ → Bool → Outcome FrameAllocator
  set_page s page value =
      if ltb page (len s.used_pages)
      then returns (record s { used_pages = assign s.used_pages page value })
      else panics

  -- The first loop of `init`. Its guard skips the pages that the bit array has, and leaves the
  -- others to `set`.
  pub mark_reserved : FrameAllocator → List ℕ → Outcome FrameAllocator
  mark_reserved s [] = returns s
  mark_reserved s (region ∷ rest) = do
    s' ←
        if ltb (get_page region) (len s.used_pages)
        then returns s
        else set_page s (get_page region) true
    mark_reserved s' rest

  pub free : FrameAllocator → ℕ → Outcome FrameAllocator
  free s frame = set_page s (get_page frame) false

  -- `is_usable`, over the rest of the memory map.
  pub usable_in : FrameAllocator → ℕ → List MemoryRegion → Bool
  usable_in s page [] = false
  usable_in s page (region ∷ rest) =
      let further = usable_in s page rest in
      if ltb (page * 2 ^ 12) region.start
      then further
      else if leb region.end (page * 2 ^ 12)
      then further
      else if not region.usable
      then false
      else not (test s.used_pages page)

  pub is_usable : FrameAllocator → ℕ → Outcome Bool
  is_usable s page =
      if leb (len s.used_pages) page
      then returns false
      else (do regions ← unwrap s.memory_map; returns (usable_in s page regions))

  pub force_allocate : FrameAllocator → ℕ → Outcome (Option ℕ × FrameAllocator)
  force_allocate s frame =
      if leb (len s.used_pages) (get_page frame)
      then panics
      else if test s.used_pages (get_page frame)
      then panics
      else (do s' ← set_page s (get_page frame) true; returns (some frame, s'))

  -- One pass of `allocate_frame` over the frames from `current_frame` on. A hit is the frame with
  -- the count that `next` becomes; `none` is the end of the list, or the `break` at a page that the
  -- bit array does not have.
  unfoldable pub scan : Bits → List ℕ → ℕ → Option (ℕ × ℕ)
  scan used [] current_frame = none
  scan used (frame ∷ rest) current_frame =
      let skipped = scan used rest current_frame in
      let taken = scan used rest (current_frame + 1) in
      if ltb frame 0x100000
      then skipped
      else if leb (len used) (get_page frame)
      then none
      else if not (test used (get_page frame))
      then some (frame, current_frame + 1)
      else taken

  -- The loop of `allocate_conventional_memory_frame`, over frames in (0, 1 MiB).
  pub scan_conventional : FrameAllocator → List ℕ → Outcome (Option ℕ × FrameAllocator)
  scan_conventional s [] = returns (none, s)
  scan_conventional s (frame ∷ rest) =
      let further = scan_conventional s rest in
      if ltb frame 0x100000 && ltb 0 frame
      then (if leb (len s.used_pages) (get_page frame)
          then panics
          else if test s.used_pages (get_page frame)
          then further
          else (do s' ← set_page s (get_page frame) true; returns (some frame, s')))
      else further

  module _ (G : Paging) where
    unfoldable pub usable_frames : FrameAllocator → Outcome (List ℕ)
    usable_frames s = do regions ← unwrap s.memory_map; returns (frames_of G regions)

    pub init : FrameAllocator → List MemoryRegion → Outcome FrameAllocator
    init s regions = do
      let s₀ : FrameAllocator = record s { memory_map = some regions }
      s₁ ← mark_reserved s₀ (addresses_of false regions)
      frames ← usable_frames s₁
      returns (record s₁ { next = leading_low frames })

    pub allocate_conventional_memory_frame : FrameAllocator → Outcome (Option ℕ × FrameAllocator)
    allocate_conventional_memory_frame s = do frames ← usable_frames s; scan_conventional s frames

    -- The `loop` of `allocate_frame`, on fuel: two rounds are enough (`allocate_frame_total`).
    unfoldable pub allocate_loop : ℕ → FrameAllocator → Outcome (Option ℕ × FrameAllocator)
    allocate_loop zero s = spins
    allocate_loop (suc fuel) s = do
      frames ← usable_frames s
      elim (scan s.used_pages (drop s.next frames) s.next) [
        | some (frame, n) ↦ do
          s' ← set_page (record s { next = n }) (get_page frame) true
          returns (some frame, s')
        | none ↦
            let again = allocate_loop fuel (record s { next = 0 }) in
            if s.next == 0 then returns (none, s) else again
      ]

    unfoldable pub allocate_frame : FrameAllocator → Outcome (Option ℕ × FrameAllocator)
    allocate_frame s = allocate_loop 2 s
