-- ===== src/Memory/Frames/Allocate.antt =====
-- allocate_frame: which frame it hands out, and that it finds one whenever one is free.
use oxidized.Common.{
  ℕ, zero, suc, ◌≢◌, subst, ◌∙◌, if◌then◌else◌, ◌<◌, ◌≡◌, refl, Option, none, some, List, arith,
  inl, inr, Bool-cases, Option-cases, true, drop, returns, panics, ◌==◌, ==_iff, ◌⊎◌,
}
use oxidized.Common.Predicates.{All, In, In-drop}
use oxidized.Crates.{BitStore, Paging}
use oxidized.Memory.Frames.{
  FrameAllocator, MemoryRegion, get_page, frames_of, scan, usable_frames, set_page, allocate_loop,
  allocate_frame,
}
use oxidized.Memory.Frames.Scan.{IsFree, scan-some, scan-none}

module _ (B : BitStore) (G : Paging) where
  open B use {len, test, assign}

  -- What a call that hands out frame `f` has done.
  pub record Granted (s : FrameAllocator B) (regions : List MemoryRegion) (f : ℕ)
      (s' : FrameAllocator B) : Type 0 where
    pub usable : In f (frames_of G regions)
    pub free : IsFree B s.used_pages f
    pub used : s'.used_pages ≡ assign s.used_pages (get_page f) true
    pub same_map : s'.memory_map ≡ s.memory_map

  granted_here :
      (s : FrameAllocator B) (regions : List MemoryRegion) (p : ℕ × ℕ)
      → scan B s.used_pages (drop s.next (frames_of G regions)) s.next ≡ some p
      → In p.0 (frames_of G regions) × IsFree B s.used_pages p.0
  granted_here s regions p e =
      let (m, v) = scan-some B s.used_pages (drop s.next (frames_of G regions)) s.next p.0 p.1 e in
      (In-drop s.next p.0 (frames_of G regions) m, v)

  -- The state after a round that hits.
  abbrev after_hit : FrameAllocator B → ℕ × ℕ → FrameAllocator B
  after_hit s p = record s { next = p.1; used_pages = assign s.used_pages (get_page p.0) true }

  round-hit :
      (fuel : ℕ) (s : FrameAllocator B) (regions : List MemoryRegion) (p : ℕ × ℕ)
      → s.memory_map ≡ some regions
      → scan B s.used_pages (drop s.next (frames_of G regions)) s.next ≡ some p
      → allocate_loop B G (suc fuel) s ≡ returns (some p.0, after_hit s p)
  unfolding allocate_loop usable_frames set_page
  round-hit fuel s regions p e hit = ground (arith, granted_here s regions p hit)

  round-miss :
      (fuel : ℕ) (s : FrameAllocator B) (regions : List MemoryRegion)
      → s.memory_map ≡ some regions
      → scan B s.used_pages (drop s.next (frames_of G regions)) s.next ≡ none
      → allocate_loop B G (suc fuel) s ≡ (
          if s.next == 0 then returns (none, s) else allocate_loop B G fuel (record s { next = 0 }))
  unfolding allocate_loop usable_frames
  round-miss fuel s regions e miss = ground arith

  allocate_loop-Granted :
      (fuel : ℕ) (s : FrameAllocator B) (regions : List MemoryRegion) (f : ℕ)
      (s' : FrameAllocator B)
      → s.memory_map ≡ some regions
      → allocate_loop B G fuel s ≡ returns (some f, s')
      → Granted s regions f s'
  unfolding allocate_loop
  allocate_loop-Granted zero s regions f s' e h = cc
  allocate_loop-Granted (suc fuel) s regions f s' e h =
      elim (Option-cases (scan B s.used_pages (drop s.next (frames_of G regions)) s.next)) [
        | inl miss ↦
            let retry = allocate_loop-Granted fuel (record s { next = 0 }) regions f s' e in
            ground (arith, round-miss fuel s regions e miss, retry)
        | inr (p, hit) ↦
            ground (arith, round-hit fuel s regions p e hit, granted_here s regions p hit)
      ]

  -- A frame that `allocate_frame` hands out is usable in the memory map, lies at 1 MiB or above, has
  -- a page that the bit array holds, and was not in use; its page is in use afterwards, no other
  -- page changes, and the memory map is the same.
  pub allocate_frame-Granted :
      (s : FrameAllocator B) (regions : List MemoryRegion) (f : ℕ) (s' : FrameAllocator B)
      → s.memory_map ≡ some regions
      → allocate_frame B G s ≡ returns (some f, s')
      → Granted s regions f s'
  unfolding allocate_frame
  allocate_frame-Granted s regions f s' e h = allocate_loop-Granted 2 s regions f s' e h

  -- A pass from the start misses only if no frame is free.
  start-miss :
      (s : FrameAllocator B) (regions : List MemoryRegion) (f : ℕ)
      → All (λ g. get_page g < len s.used_pages) (frames_of G regions)
      → In f (frames_of G regions)
      → IsFree B s.used_pages f
      → scan B s.used_pages (drop 0 (frames_of G regions)) 0 ≢ none
  start-miss s regions f all m v miss =
      scan-none B s.used_pages (frames_of G regions) 0 f all m v miss

  -- If some usable frame at 1 MiB or above is not in use, and the bit array has the page of every
  -- usable frame, then `allocate_frame` returns, without panic or endless retry, and hands out a
  -- frame.
  pub allocate_frame_complete :
      (s : FrameAllocator B) (regions : List MemoryRegion) (f : ℕ)
      → s.memory_map ≡ some regions
      → All (λ g. get_page g < len s.used_pages) (frames_of G regions)
      → In f (frames_of G regions)
      → IsFree B s.used_pages f
      → (g : ℕ) × (s' : FrameAllocator B) × (allocate_frame B G s ≡ returns (some g, s'))
  unfolding allocate_frame
  allocate_frame_complete s regions f e all m v =
      elim (Option-cases (scan B s.used_pages (drop s.next (frames_of G regions)) s.next)) [
        | inr (p, hit) ↦ (p.0, after_hit s p, round-hit 1 s regions p e hit)
        | inl miss ↦ elim (Option-cases (scan B s.used_pages (drop 0 (frames_of G regions)) 0)) [
          | inl none_left ↦ absurd (start-miss s regions f all m v none_left)
          | inr (p, hit) ↦
              let s₀ : FrameAllocator B = record s { next = 0 } in
              elim (Bool-cases (s.next == 0)) [
                | inl z ↦ absurd (
                    start-miss s regions f all m v (
                      subst (λ k. scan B s.used_pages (drop k (frames_of G regions)) k ≡ none)
                        ((==_iff _ _).0 z) miss))
                | inr nz ↦ (
                  p.0,
                  after_hit s₀ p,
                  round-miss 1 s regions e miss ∙ rw nz (round-hit 0 s₀ regions p e hit),
                )
              ]
        ]
      ]

  round_total :
      (fuel : ℕ) (s : FrameAllocator B) (regions : List MemoryRegion)
      → s.memory_map ≡ some regions
      → (s.next ≡ 0)
        ⊎ ((r : Option ℕ × FrameAllocator B) × (allocate_loop B G fuel (record s { next = 0 })
              ≡ returns r))
      → (r : Option ℕ × FrameAllocator B) × (allocate_loop B G (suc fuel) s ≡ returns r)
  round_total fuel s regions e again =
      elim (Option-cases (scan B s.used_pages (drop s.next (frames_of G regions)) s.next)) [
        | inr (p, hit) ↦ ((some p.0, after_hit s p), round-hit fuel s regions p e hit)
        | inl miss ↦ elim again [
          | inl z ↦ ((none, s), ground (arith, round-miss fuel s regions e miss))
          | inr (r, q) ↦ elim (Bool-cases (s.next == 0)) [
            | inl z ↦ ((none, s), round-miss fuel s regions e miss ∙ rw z refl)
            | inr nz ↦ (r, round-miss fuel s regions e miss ∙ rw nz q)
          ]
        ]
      ]

  -- `allocate_frame` returns whatever the state, once the memory map is set: its loop makes at most
  -- two rounds, and no bit that it sets is out of range.
  pub allocate_frame_total :
      (s : FrameAllocator B) (regions : List MemoryRegion)
      → s.memory_map ≡ some regions
      → (r : Option ℕ × FrameAllocator B) × (allocate_frame B G s ≡ returns r)
  unfolding allocate_frame
  allocate_frame_total s regions e =
      round_total 1 s regions e (inr (round_total 0 (record s { next = 0 }) regions e (inl refl)))

  allocate_loop-none :
      (fuel : ℕ) (s : FrameAllocator B) (regions : List MemoryRegion) (s' : FrameAllocator B)
      → s.memory_map ≡ some regions
      → allocate_loop B G fuel s ≡ returns (none, s')
      → s'.used_pages ≡ s.used_pages
  unfolding allocate_loop
  allocate_loop-none zero s regions s' e h = cc
  allocate_loop-none (suc fuel) s regions s' e h =
      elim (Option-cases (scan B s.used_pages (drop s.next (frames_of G regions)) s.next)) [
        | inl miss ↦
            let retry = allocate_loop-none fuel (record s { next = 0 }) regions s' e in
            ground (arith, round-miss fuel s regions e miss, retry)
        | inr (p, hit) ↦ ground (arith, round-hit fuel s regions p e hit)
      ]

  -- A call that hands out nothing leaves the pages as they are.
  pub allocate_frame-none :
      (s : FrameAllocator B) (regions : List MemoryRegion) (s' : FrameAllocator B)
      → s.memory_map ≡ some regions
      → allocate_frame B G s ≡ returns (none, s')
      → s'.used_pages ≡ s.used_pages
  unfolding allocate_frame
  allocate_frame-none s regions s' e h = allocate_loop-none 2 s regions s' e h

  pub allocate_frame_unmapped :
      (s : FrameAllocator B) → s.memory_map ≡ none → allocate_frame B G s ≡ panics
  unfolding allocate_frame allocate_loop usable_frames
  allocate_frame_unmapped s e = ground arith
