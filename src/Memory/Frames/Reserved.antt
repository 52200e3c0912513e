-- ===== src/Memory/Frames/Reserved.antt =====
-- init, which should mark the reserved frames, and is_usable, which reads the memory map.
use oxidized.Common.{
  ℕ, zero, suc, ◌*◌, ◌^◌, ◌≤◌, ◌<◌, ◌≡◌, refl, subst, sym, dec_lt, Option, none, some, List, [],
  ◌∷◌, arith, inl, inr, Bool, false, not, ◌&&◌, leb, ltb, returns, panics, if◌then◌else◌,
}
use oxidized.Common.Predicates.{All, In}
use oxidized.Crates.{BitStore, Paging}
use oxidized.Memory.Frames.{
  FrameAllocator, MemoryRegion, get_page, frames_of, addresses_of, usable_frames, set_page,
  mark_reserved, leading_low, init, usable_in, is_usable,
}

-- The first region that holds an address.
unfoldable pub region_of : ℕ → List MemoryRegion → Option MemoryRegion
region_of a [] = none
region_of a (r ∷ rs) = if leb r.start a && ltb a r.end then some r else region_of a rs

-- A frame count that `init` may start from: every frame before it lies below 1 MiB, and the frame
-- at it does not.
abbrev pub StartsAt : ℕ → List ℕ → Type 0
StartsAt n [] = n ≡ 0
StartsAt zero (f ∷ fs) = 0x100000 ≤ f
StartsAt (suc n) (f ∷ fs) = (f < 0x100000) × StartsAt n fs

leading_low_low : (f : ℕ) (fs : List ℕ) → f < 0x100000 → leading_low (f ∷ fs) ≡ suc (leading_low fs)
unfolding leading_low
leading_low_low f fs h = ground arith

leading_low_high : (f : ℕ) (fs : List ℕ) → 0x100000 ≤ f → leading_low (f ∷ fs) ≡ 0
unfolding leading_low
leading_low_high f fs h = ground arith

leading_low-StartsAt : (frames : List ℕ) → StartsAt (leading_low frames) frames
unfolding leading_low
leading_low-StartsAt [] = refl
leading_low-StartsAt (f ∷ fs) = elim (dec_lt f 0x100000) [
  | yes h ↦
      subst (λ n. StartsAt n (f ∷ fs)) (sym (leading_low_low f fs h)) (h, leading_low-StartsAt fs)
  | no h ↦
      let high : 0x100000 ≤ f = omega arith in
      subst (λ n. StartsAt n (f ∷ fs)) (sym (leading_low_high f fs high)) high
]

module _ (B : BitStore) where
  open B use {Bits, len, test}

  mark_reserved-skips :
      (s : FrameAllocator B) (xs : List ℕ)
      → All (λ a. get_page a < len s.used_pages) xs
      → mark_reserved B s xs ≡ returns s
  unfolding mark_reserved
  mark_reserved-skips s [] h = refl
  mark_reserved-skips s (a ∷ xs) h = ground (arith, mark_reserved-skips s xs h.1)

  mark_reserved-panics :
      (s : FrameAllocator B) (xs : List ℕ) (a : ℕ)
      → In a xs
      → len s.used_pages ≤ get_page a
      → mark_reserved B s xs ≡ panics
  unfolding mark_reserved set_page
  mark_reserved-panics s [] a m h = absurd m
  mark_reserved-panics s (x ∷ xs) a (inl e) h = ground arith
  mark_reserved-panics s (x ∷ xs) a (inr m) h = ground (arith, mark_reserved-panics s xs a m h)

  -- What `is_usable` asks of the region that it has found.
  unfoldable pub allows : Bits → ℕ → Option MemoryRegion → Bool
  allows used page none = false
  allows used page (some r) = r.usable && not (test used page)

  usable_in_lem :
      (s : FrameAllocator B) (page : ℕ) (regions : List MemoryRegion)
      → usable_in B s page regions ≡ allows s.used_pages page (region_of (page * 2 ^ 12) regions)
  unfolding usable_in region_of allows
  usable_in_lem s page [] = refl
  usable_in_lem s page (r ∷ rs) = ground (arith, usable_in_lem s page rs)

  -- With a memory map, `is_usable` says yes for a page exactly when the bit array has it, the first
  -- region that holds its address is a usable one, and the page is not in use.
  pub is_usable_lem :
      (s : FrameAllocator B) (regions : List MemoryRegion) (page : ℕ)
      → s.memory_map ≡ some regions
      → is_usable B s page
        ≡ returns (
            ltb page (len s.used_pages)
            && allows s.used_pages page (region_of (page * 2 ^ 12) regions))
  unfolding is_usable
  is_usable_lem s regions page e = ground (arith, usable_in_lem s page regions)

module _ (B : BitStore) (G : Paging) where
  open B use {Bits, len, test}

  -- `init` stores the map and moves `next` to the first usable frame at 1 MiB or above, and marks no
  -- page, reserved or not, when every reserved address is one that the bit array has.
  pub init-marks_nothing :
      (s : FrameAllocator B) (regions : List MemoryRegion)
      → All (λ a. get_page a < len s.used_pages) (addresses_of false regions)
      → (s' : FrameAllocator B) × (init B G s regions ≡ returns s')
        × (s'.used_pages ≡ s.used_pages)
        × (s'.memory_map ≡ some regions)
        × StartsAt s'.next (frames_of G regions)
  unfolding init usable_frames
  init-marks_nothing s regions h = (
    record s { memory_map = some regions; next = leading_low (frames_of G regions) },
    ground (
      arith,
      mark_reserved-skips B (record s { memory_map = some regions }) (addresses_of false regions) h,
    ),
    refl,
    refl,
    leading_low-StartsAt (frames_of G regions),
  )

  -- `init` panics when a reserved address lies above what the bit array covers.
  pub init-panics :
      (s : FrameAllocator B) (regions : List MemoryRegion) (a : ℕ)
      → In a (addresses_of false regions)
      → len s.used_pages ≤ get_page a
      → init B G s regions ≡ panics
  unfolding init
  init-panics s regions a m h = ground (
    arith,
    mark_reserved-panics B (record s { memory_map = some regions }) (addresses_of false regions) a m
        h,
  )
