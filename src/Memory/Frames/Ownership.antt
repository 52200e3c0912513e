-- ===== src/Memory/Frames/Ownership.antt =====
-- The frame allocator under any sequence of calls: no page is handed out twice while it is held.
use oxidized.Common.{
  ℕ, ◌<◌, ◌≡◌, Option-cases, sym, subst, none, some, List, ◌∷◌, arith, inl, inr, returns,
}
use oxidized.Common.Predicates.{All, In}
use oxidized.Crates.{BitStore, Paging}
use oxidized.Memory.Frames.{
  FrameAllocator, MemoryRegion, get_page, frames_of, usable_frames, allocate_frame,
  allocate_conventional_memory_frame, force_allocate, free,
}
use oxidized.Memory.Frames.Allocate.{
  allocate_frame-Granted, allocate_frame-none, allocate_frame_unmapped,
}
use oxidized.Memory.Frames.Held.{
  remove, Takes, Ledger, HeldPage, IsSound, force_allocate-Takes, scan_conventional-Takes,
  scan_conventional-none, Takes-IsSound, free-IsSound,
}

module _ (B : BitStore) (G : Paging) where
  open B use {Bits, len, test, assign}

  allocate_frame-Takes :
      (s : FrameAllocator B) (f : ℕ) (s' : FrameAllocator B)
      → allocate_frame B G s ≡ returns (some f, s')
      → Takes B s f s'
  allocate_frame-Takes s f s' h = elim (Option-cases s.memory_map) [
    | inl unmapped ↦ cc (allocate_frame_unmapped B G s unmapped)
    | inr (regions, e) ↦
        let g = allocate_frame-Granted B G s regions f s' e h in
        record {
          addressable = g.free.addressable;
          clear = g.free.clear;
          used = g.used;
          same_map = g.same_map;
        }
  ]

  allocate_frame_refused :
      (s s' : FrameAllocator B)
      → allocate_frame B G s ≡ returns (none, s')
      → s'.used_pages ≡ s.used_pages
  allocate_frame_refused s s' h = elim (Option-cases s.memory_map) [
    | inl unmapped ↦ cc (allocate_frame_unmapped B G s unmapped)
    | inr (regions, e) ↦ allocate_frame-none B G s regions s' e h
  ]

  -- `allocate_conventional_memory_frame` hands out a usable frame strictly between 0 and 1 MiB whose
  -- page was not in use, marks that page and no other, and keeps the memory map.
  pub allocate_conventional-Takes :
      (s : FrameAllocator B) (regions : List MemoryRegion) (f : ℕ) (s' : FrameAllocator B)
      → s.memory_map ≡ some regions
      → allocate_conventional_memory_frame B G s ≡ returns (some f, s')
      → Takes B s f s' × In f (frames_of G regions) × (0 < f) × (f < 0x100000)
  unfolding allocate_conventional_memory_frame usable_frames
  allocate_conventional-Takes s regions f s' e h =
      ground (arith, scan_conventional-Takes B s (frames_of G regions) f s')

  conventional-Takes :
      (s : FrameAllocator B) (f : ℕ) (s' : FrameAllocator B)
      → allocate_conventional_memory_frame B G s ≡ returns (some f, s')
      → Takes B s f s'
  unfolding allocate_conventional_memory_frame usable_frames
  conventional-Takes s f s' h = elim (Option-cases s.memory_map) [
    | inl unmapped ↦ ground arith
    | inr (regions, e) ↦ (allocate_conventional-Takes s regions f s' e h).0
  ]

  conventional_refused :
      (s s' : FrameAllocator B)
      → allocate_conventional_memory_frame B G s ≡ returns (none, s')
      → s'.used_pages ≡ s.used_pages
  unfolding allocate_conventional_memory_frame usable_frames
  conventional_refused s s' h = elim (Option-cases s.memory_map) [
    | inl unmapped ↦ ground arith
    | inr (regions, e) ↦ ground (arith, scan_conventional-none B s (frames_of G regions) s')
  ]

  -- One call of a client that returns.
  pub data Step : Ledger B → Ledger B → Type 0 where
    grant :
        {s s' : FrameAllocator B} {held : List ℕ} (f : ℕ)
        → allocate_frame B G s ≡ returns (some f, s')
        → Step
            (record { allocator = s; held = held })
            (record { allocator = s'; held = get_page f ∷ held })
    conventional :
        {s s' : FrameAllocator B} {held : List ℕ} (f : ℕ)
        → allocate_conventional_memory_frame B G s ≡ returns (some f, s')
        → Step
            (record { allocator = s; held = held })
            (record { allocator = s'; held = get_page f ∷ held })
    force :
        {s s' : FrameAllocator B} {held : List ℕ} (f g : ℕ)
        → force_allocate B s f ≡ returns (some g, s')
        → Step
            (record { allocator = s; held = held })
            (record { allocator = s'; held = get_page g ∷ held })
    release :
        {s s' : FrameAllocator B} {held : List ℕ} (f : ℕ)
        → free B s f ≡ returns s'
        → Step
            (record { allocator = s; held = held })
            (record { allocator = s'; held = remove (get_page f) held })
    refuse :
        {s s' : FrameAllocator B} {held : List ℕ}
        → allocate_frame B G s ≡ returns (none, s')
        → Step (record { allocator = s; held = held }) (record { allocator = s'; held = held })
    refuse_conventional :
        {s s' : FrameAllocator B} {held : List ℕ}
        → allocate_conventional_memory_frame B G s ≡ returns (none, s')
        → Step (record { allocator = s; held = held }) (record { allocator = s'; held = held })

  pub data Reach (l : Ledger B) : Ledger B → Type 0 where
    here : Reach l l
    next : {m n : Ledger B} → Reach l m → Step m n → Reach l n

  same_pages :
      (s s' : FrameAllocator B) (held : List ℕ)
      → s'.used_pages ≡ s.used_pages
      → IsSound B (record { allocator = s; held = held })
      → IsSound B (record { allocator = s'; held = held })
  same_pages s s' held e v = record {
    in_use = subst (λ u. All (HeldPage B u) held) (sym e) v.in_use;
    distinct = v.distinct;
  }

  Step-IsSound : {l m : Ledger B} → Step l m → IsSound B l → IsSound B m
  Step-IsSound (grant {s} {s'} {held} f e) v =
      Takes-IsSound B s s' f held (allocate_frame-Takes s f s' e) v
  Step-IsSound (conventional {s} {s'} {held} f e) v =
      Takes-IsSound B s s' f held (conventional-Takes s f s' e) v
  Step-IsSound (force {s} {s'} {held} f g e) v =
      let (same, t) = force_allocate-Takes B s f g s' e in Takes-IsSound B s s' g held (rw same t) v
  Step-IsSound (release {s} {s'} {held} f e) v = free-IsSound B s s' f held e v
  Step-IsSound (refuse {s} {s'} {held} e) v = same_pages s s' held (allocate_frame_refused s s' e) v
  Step-IsSound (refuse_conventional {s} {s'} {held} e) v =
      same_pages s s' held (conventional_refused s s' e) v

  -- Whatever calls are made, and in whatever order, the pages that are handed out and not yet freed
  -- are in use and pairwise distinct: no page is handed out twice while it is held.
  pub Reach-IsSound : {l m : Ledger B} → IsSound B l → Reach l m → IsSound B m
  Reach-IsSound v here = v
  Reach-IsSound v (next r st) = Step-IsSound st (Reach-IsSound v r)
