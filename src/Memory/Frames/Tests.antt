-- ===== src/Memory/Frames/Tests.antt =====
-- Runs of the frame allocator on a small memory map.
use oxidized.Common.{
  ℕ, ◌≡◌, refl, inl, inr, Bool, true, false, Option, some, List, [], ◌∷◌, arith, returns, panics,
  ◌<◌, ◌==◌, if◌then◌else◌,
}
use oxidized.Common.Predicates.{All, In}
use oxidized.Crates.Concrete.{bit_function, rounding}
use oxidized.Memory.Frames.{
  FrameAllocator, MemoryRegion, frames_of, allocate_frame, init, allocate_conventional_memory_frame,
  allocate_loop, usable_frames, scan, set_page, addresses, addresses_of, region_addresses, get_page,
  scan_conventional,
}
use oxidized.Memory.Frames.Allocate.{
  Granted, allocate_frame-Granted, allocate_frame_complete, allocate_frame_total,
}
use oxidized.Memory.Frames.Held.{IsSound}
use oxidized.Memory.Frames.Ownership.{here, next, grant, Reach-IsSound}
use oxidized.Memory.Frames.Reserved.{StartsAt, init-marks_nothing, init-panics}

abbrev low : MemoryRegion
low = record { start = 0x1000; end = 0x3000; usable = true }

abbrev reserved : MemoryRegion
reserved = record { start = 0x3000; end = 0x4000; usable = false }

abbrev high : MemoryRegion
high = record { start = 0x100000; end = 0x102000; usable = true }

abbrev regions : List MemoryRegion
regions = low ∷ reserved ∷ high ∷ []

abbrev Bits : Type 0
Bits = ℕ × (ℕ → Bool)

abbrev no_pages : Bits
no_pages = (512, λ i. false)

abbrev fresh : FrameAllocator bit_function
fresh = record { memory_map = some regions; next = 2; used_pages = no_pages }

abbrev first_given : FrameAllocator bit_function
first_given = record {
  memory_map = some regions;
  next = 3;
  used_pages = (512, λ i. if 256 == i then true else false);
}

fresh_grants : allocate_frame bit_function rounding fresh ≡ returns (some 0x100000, first_given)
unfolding allocate_frame allocate_loop usable_frames scan set_page addresses addresses_of
    region_addresses frames_of
fresh_grants = refl

high_is_usable : In 0x101000 (frames_of rounding regions)
unfolding addresses addresses_of region_addresses frames_of
high_is_usable = inr (inr (inr (inl refl)))

frames_addressable : All (λ (g : ℕ). get_page g < 512) (frames_of rounding regions)
unfolding addresses addresses_of region_addresses frames_of
frames_addressable = (omega arith, (omega arith, (omega arith, (omega arith, tt))))

allocate_frame-Granted_example : Granted bit_function rounding fresh regions 0x100000 first_given
allocate_frame-Granted_example =
    allocate_frame-Granted bit_function rounding fresh regions 0x100000 first_given refl
      fresh_grants

allocate_frame_complete_example :
    (g : ℕ) × (s' : FrameAllocator bit_function) × (allocate_frame bit_function rounding first_given
      ≡ returns (some g, s'))
allocate_frame_complete_example =
    allocate_frame_complete bit_function rounding first_given regions 0x101000 refl
      frames_addressable high_is_usable
      (record { high = omega arith; addressable = omega arith; clear = refl })

allocate_frame_total_example :
    (r : Option ℕ × FrameAllocator bit_function) × (allocate_frame bit_function rounding first_given
      ≡ returns r)
allocate_frame_total_example = allocate_frame_total bit_function rounding first_given regions refl

Reach-IsSound_example :
    IsSound bit_function (record { allocator = first_given; held = get_page 0x100000 ∷ [] })
Reach-IsSound_example =
    Reach-IsSound bit_function rounding (record { in_use = tt; distinct = tt })
      (next here (grant {s = fresh} {held = []} 0x100000 fresh_grants))

abbrev low_given : FrameAllocator bit_function
low_given = record {
  memory_map = some regions;
  next = 2;
  used_pages = (512, λ i. if 1 == i then true else false);
}

conventional_grants :
    allocate_conventional_memory_frame bit_function rounding fresh
    ≡ returns (some 0x1000, low_given)
unfolding allocate_conventional_memory_frame scan_conventional usable_frames set_page addresses
    addresses_of region_addresses frames_of
conventional_grants = refl

reserved_addressable : All (λ (g : ℕ). get_page g < 512) (addresses_of false regions)
unfolding addresses addresses_of region_addresses
reserved_addressable = (omega arith, tt)

init-marks_nothing_example :
    (s' : FrameAllocator bit_function) × (init bit_function rounding fresh regions ≡ returns s')
    × (s'.used_pages ≡ no_pages)
    × (s'.memory_map ≡ some regions)
    × StartsAt s'.next (frames_of rounding regions)
init-marks_nothing_example =
    init-marks_nothing bit_function rounding fresh regions reserved_addressable

abbrev far : MemoryRegion
far = record { start = 0x200000; end = 0x201000; usable = false }

far_is_reserved : In 0x200000 (addresses_of false (far ∷ []))
unfolding addresses addresses_of region_addresses
far_is_reserved = inl refl

init-panics_example : init bit_function rounding fresh (far ∷ []) ≡ panics
init-panics_example =
    init-panics bit_function rounding fresh (far ∷ []) 0x200000 far_is_reserved (omega arith)
