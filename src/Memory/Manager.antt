-- ===== src/Memory/Manager.antt =====
-- kernel/src/memory/mod.rs, MemoryManager: ranges of virtual pages and their mapping to frames.
pub mod Search
pub mod Range
mod Tests
use oxidized.Common.{
  ℕ, ◌%◌, ◌^◌, ◌||◌, zero, suc, ◌+◌, ◌*◌, ◌==◌, ltb, if◌then◌else◌, Bool, true, false, Option, none,
  some, List, [], ◌∷◌, Outcome, returns, panics, spins, ◌>>=◌, unwrap,
}
use mathlib.Core.Option
use oxidized.Crates.{BitStore, Paging, PageTables}
use oxidized.Memory.Frames.{FrameAllocator, allocate_frame, page_size}

-- What is dropped from the translation cache.
pub data Flush : Type 0 where
  flush_page : ℕ → Flush
  flush_all : Flush

module _ (B : BitStore) (G : Paging) (P : PageTables (FrameAllocator B)) where
  open G use {containing_address, virt_addr}
  open P use {Tables, translate_page, map_to}

  -- The manager, with the flushes that it has made, the latest first.
  pub record MemoryManager : Type 0 where
    pub page_table : Option Tables
    pub physical_offset : ℕ
    pub next_free_page : ℕ
    pub flushes : List Flush

  -- `init`, given the tables and the offset that they report.
  pub init : MemoryManager → Tables → ℕ → MemoryManager
  init s tables phys_offset = record s { page_table = some tables; physical_offset = phys_offset }

  pub translate : MemoryManager → ℕ → ℕ
  translate s physical_address = physical_address + s.physical_offset

  -- `earliest_address.unwrap_or(start).align_down(PAGE_SIZE)`
  unfoldable pub floor : Option ℕ → ℕ → ℕ
  floor earliest start = containing_address (Option.get_or earliest start)

  -- `page + n`, for a page by its start: the sum is made into an address by `VirtAddr::new`.
  unfoldable pub add_pages : ℕ → ℕ → Outcome ℕ
  add_pages page n = virt_addr ((page + n * page_size) % 2 ^ 64)

  -- The `while` loop of `allocate_contigious_address_range`, on fuel: the start and the length of a
  -- run of free pages.
  unfoldable pub find_range : ℕ → Tables → Option ℕ → ℕ → ℕ → ℕ → Outcome (ℕ × ℕ)
  find_range zero t earliest pages start index = spins
  find_range (suc fuel) t earliest pages start index =
      if ltb index pages
      then (do
        current ← add_pages start index
        if ltb current (floor earliest start) || translate_page t current
            then (do after ← add_pages current 1; find_range fuel t earliest pages after 0)
            else find_range fuel t earliest pages start (index + 1))
      else returns (start, index)

  -- What the mapping loop works on.
  pub record Mapping : Type 0 where
    pub tables : Tables
    pub frames : FrameAllocator B
    pub flushes : List Flush

  -- The mapping loop, with the pages that are left and the index of the next: false where a
  -- frame is missing, which is the `?` of the source and leaves the pages mapped so far.
  unfoldable pub map_pages : ℕ → ℕ → ℕ → ℕ → ℕ → Mapping → Outcome (Bool × Mapping)
  map_pages zero pages start i flags s = returns (true, s)
  map_pages (suc n) pages start i flags s = do
    r ← allocate_frame B G s.frames
    elim r.0 [
      | none ↦ returns (false, record s { frames = r.1 })
      | some frame ↦ do
        page ← add_pages start i
        m ← unwrap (map_to s.tables page frame flags r.1)
        map_pages n pages start (i + 1) flags (record {
          tables = m.0;
          frames = m.1;
          flushes = if pages == 1 then flush_page page ∷ s.flushes else s.flushes;
        })
    ]

  -- The manager once its mapping loop has stopped.
  abbrev pub after_mapping : MemoryManager → ℕ → Mapping → MemoryManager
  after_mapping s next m = record s {
    page_table = some m.tables;
    next_free_page = next;
    flushes = m.flushes;
  }

  -- The first page that `allocate_contigious_address_range` looks at.
  unfoldable pub first_page : MemoryManager → Option ℕ → ℕ
  first_page s earliest =
      if ltb s.next_free_page (floor earliest s.next_free_page)
      then floor earliest s.next_free_page
      else s.next_free_page

  unfoldable pub allocate_contigious_address_range :
      ℕ
      → MemoryManager
      → FrameAllocator B
      → ℕ
      → Option ℕ
      → ℕ
      → Outcome (Option ℕ × MemoryManager × FrameAllocator B)
  allocate_contigious_address_range fuel s frames pages earliest flags = do
    let start = containing_address (first_page s earliest)
    t ← unwrap s.page_table
    found ← find_range fuel t earliest pages start 0
    next ← add_pages found.0 found.1
    r ←
        map_pages found.1 pages found.0 0 flags
          (record { tables = t; frames = frames; flushes = s.flushes })
    let s' : MemoryManager = after_mapping s next r.1
    returns (
        if r.0
        then (
          some found.0,
          (if ltb 1 pages then record s' { flushes = flush_all ∷ s'.flushes } else s'),
          r.1.frames,
        )
        else (none, s', r.1.frames))

  unfoldable pub identity_map :
      MemoryManager → FrameAllocator B → ℕ → ℕ → Outcome (MemoryManager × FrameAllocator B)
  identity_map s frames frame flags = do
    t ← unwrap s.page_table
    m ← unwrap (P.identity_map t frame flags frames)
    returns (record s { page_table = some m.0; flushes = flush_page frame ∷ s.flushes }, m.1)
