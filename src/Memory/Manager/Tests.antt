-- ===== src/Memory/Manager/Tests.antt =====
-- Runs of the search for pages and of a mapping.
use oxidized.Common.{
  ℕ, inl, ◌^◌, ◌<◌, ◌+◌, ◌*◌, ◌/◌, ◌≤◌, ◌≡◌, ◌==◌, refl, Bool, true, false, Option, none, some, [],
  ◌∷◌, arith, Outcome, returns, panics, spins,
}
use oxidized.Crates.{PageTables}
use oxidized.Crates.Concrete.{bit_function, rounding, page_set}
use oxidized.Memory.Frames.{
  FrameAllocator, allocate_frame, allocate_loop, usable_frames, scan, set_page, addresses,
  addresses_of, region_addresses, frames_of,
}
use oxidized.Memory.Manager.{
  MemoryManager, find_range, add_pages, first_page, floor, map_pages,
  allocate_contigious_address_range,
}
use oxidized.Memory.Manager.Range.{Ranged, allocate_contigious_lem}

abbrev Frames : Type 0
Frames = FrameAllocator bit_function

abbrev page_tables : PageTables Frames
page_tables = page_set Frames

-- Only the page at 4096 is mapped.
abbrev one_page : ℕ → Bool
one_page q = q == 4096

beyond : (q : ℕ) → 8192 ≤ q → one_page q ≡ false
beyond q h = ground arith

abbrev frames : Frames
frames = record {
  memory_map = some (record { start = 0x100000; end = 0x103000; usable = true } ∷ []);
  next = 0;
  used_pages = (512, λ i. false);
}

abbrev manager : MemoryManager bit_function rounding page_tables
manager = record {
  page_table = some one_page;
  physical_offset = 0;
  next_free_page = 4096;
  flushes = [];
}

abbrev call : Outcome (Option ℕ × MemoryManager bit_function rounding page_tables × Frames)
call = allocate_contigious_address_range bit_function rounding page_tables 5 manager frames 2 none 3

abbrev manager_after : MemoryManager bit_function rounding page_tables
manager_after = elim call [ returns r ↦ r.1 | panics ↦ manager | spins ↦ manager ]

abbrev frames_after : Frames
frames_after = elim call [ returns r ↦ r.2 | panics ↦ frames | spins ↦ frames ]

call_returns : call ≡ returns (some 8192, manager_after, frames_after)
unfolding allocate_contigious_address_range find_range add_pages first_page floor map_pages
    allocate_frame allocate_loop usable_frames scan set_page addresses addresses_of region_addresses
    frames_of
call_returns = refl

starts_below :
    8192 ≤ first_page bit_function rounding page_tables manager none / 4096 * 4096 + 1 * 4096
unfolding first_page floor
starts_below = omega arith

below_half :
    first_page bit_function rounding page_tables manager none / 4096 * 4096 + (1 + 2 + 1) * 4096
    < 2 ^ 47
unfolding first_page floor
below_half = omega arith

allocate_contigious_lem_example :
    Ranged bit_function rounding page_tables manager manager_after one_page none 2 8192
allocate_contigious_lem_example =
    allocate_contigious_lem bit_function rounding page_tables 1 5 8192 0 (2 ^ 47) manager
      manager_after frames frames_after 2 none 3 one_page 8192 (inl (refl, refl)) (omega arith)
      below_half refl beyond (λ x e. cc) starts_below (omega arith) call_returns
