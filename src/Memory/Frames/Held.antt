-- ===== src/Memory/Frames/Held.antt =====
-- What clients hold of the frame allocator, and what a call that takes or frees a page does to it.
use oxidized.Common.{
  ℕ, ◌<◌, ◌≡◌, ◌≢◌, sym, subst, none, some, List, [], ◌∷◌, arith, true, false, returns, ◌==◌,
  if◌then◌else◌,
}
use oxidized.Common.Predicates.{All, In, Distinct, All-in}
use oxidized.Crates.{BitStore}
use oxidized.Memory.Frames.{
  FrameAllocator, get_page, set_page, scan_conventional, force_allocate, free,
}

-- The pages of a list but `p`.
unfoldable pub remove : ℕ → List ℕ → List ℕ
remove p [] = []
remove p (q ∷ qs) = if p == q then remove p qs else q ∷ remove p qs

In-remove : (p x : ℕ) (qs : List ℕ) → In x (remove p qs) → In x qs × (p ≢ x)
unfolding remove
In-remove p x [] m = absurd m
In-remove p x (q ∷ qs) m = ground (arith, In-remove p x qs)

remove-Distinct : (p : ℕ) (qs : List ℕ) → Distinct qs → Distinct (remove p qs)
unfolding remove
remove-Distinct p [] d = tt
remove-Distinct p (q ∷ qs) d = ground (arith, remove-Distinct p qs d.1, In-remove p q qs)

module _ (B : BitStore) where
  open B use {Bits, len, test, assign, len-assign, test-assign}

  -- What a call that takes the page of frame `f` does to the state.
  pub record Takes (s : FrameAllocator B) (f : ℕ) (s' : FrameAllocator B) : Type 0 where
    pub addressable : get_page f < len s.used_pages
    pub clear : test s.used_pages (get_page f) ≡ false
    pub used : s'.used_pages ≡ assign s.used_pages (get_page f) true
    pub same_map : s'.memory_map ≡ s.memory_map

  -- `force_allocate` hands out the frame that it is given, and only if its page is not in use.
  pub force_allocate-Takes :
      (s : FrameAllocator B) (f g : ℕ) (s' : FrameAllocator B)
      → force_allocate B s f ≡ returns (some g, s')
      → (g ≡ f) × Takes s f s'
  unfolding force_allocate set_page
  force_allocate-Takes s f g s' e = ground arith

  pub scan_conventional-Takes :
      (s : FrameAllocator B) (frames : List ℕ) (f : ℕ) (s' : FrameAllocator B)
      → scan_conventional B s frames ≡ returns (some f, s')
      → Takes s f s' × In f frames × (0 < f) × (f < 0x100000)
  unfolding scan_conventional set_page
  scan_conventional-Takes s [] f s' e = cc
  scan_conventional-Takes s (x ∷ xs) f s' e = ground (arith, scan_conventional-Takes s xs f s')

  pub scan_conventional-none :
      (s : FrameAllocator B) (frames : List ℕ) (s' : FrameAllocator B)
      → scan_conventional B s frames ≡ returns (none, s')
      → s'.used_pages ≡ s.used_pages
  unfolding scan_conventional set_page
  scan_conventional-none s [] s' e = ground arith
  scan_conventional-none s (x ∷ xs) s' e = ground (arith, scan_conventional-none s xs s')

  -- The allocator with the pages that its clients hold.
  pub record Ledger : Type 0 where
    pub allocator : FrameAllocator B
    pub held : List ℕ

  abbrev pub HeldPage : Bits → ℕ → Type 0
  HeldPage used p = (p < len used) × (test used p ≡ true)

  -- Held pages are in use, and no page is held twice.
  pub record IsSound (l : Ledger) : Type 0 where
    pub in_use : All (HeldPage l.allocator.used_pages) l.held
    pub distinct : Distinct l.held

  HeldPage-assign :
      (used : Bits) (q : ℕ) (ps : List ℕ)
      → q < len used
      → All (HeldPage used) ps
      → All (HeldPage (assign used q true)) ps
  HeldPage-assign used q [] h a = tt
  HeldPage-assign used q (p ∷ ps) h a =
      ground
        (arith, len-assign used q true, test-assign used q p true, HeldPage-assign used q ps h a.1)

  HeldPage-release :
      (used : Bits) (q : ℕ) (ps : List ℕ)
      → q < len used
      → All (HeldPage used) ps
      → All (HeldPage (assign used q false)) (remove q ps)
  unfolding remove
  HeldPage-release used q [] h a = tt
  HeldPage-release used q (p ∷ ps) h a =
      ground (
        arith,
        len-assign used q false,
        test-assign used q p false,
        HeldPage-release used q ps h a.1,
      )

  not_held :
      (used : Bits) (q : ℕ) (ps : List ℕ)
      → All (HeldPage used) ps
      → test used q ≡ false
      → In q ps
      → ⊥
  not_held used q ps a clear m = cc (All-in (HeldPage used) q ps a m).1

  HeldPage-assign_self : (used : Bits) (q : ℕ) → q < len used → HeldPage (assign used q true) q
  HeldPage-assign_self used q h = ground (arith, len-assign used q true, test-assign used q q true)

  pub Takes-IsSound :
      (s s' : FrameAllocator B) (f : ℕ) (held : List ℕ)
      → Takes s f s'
      → IsSound (record { allocator = s; held = held })
      → IsSound (record { allocator = s'; held = get_page f ∷ held })
  Takes-IsSound s s' f held t v = record {
    in_use =
        subst (λ u. All (HeldPage u) (get_page f ∷ held)) (sym t.used)
          (
            HeldPage-assign_self s.used_pages (get_page f) t.addressable,
            HeldPage-assign s.used_pages (get_page f) held t.addressable v.in_use,
          );
    distinct = (not_held s.used_pages (get_page f) held v.in_use t.clear, v.distinct);
  }

  pub free-IsSound :
      (s s' : FrameAllocator B) (f : ℕ) (held : List ℕ)
      → free B s f ≡ returns s'
      → IsSound (record { allocator = s; held = held })
      → IsSound (record { allocator = s'; held = remove (get_page f) held })
  unfolding free set_page
  free-IsSound s s' f held e v = record {
    in_use = ground (arith, HeldPage-release s.used_pages (get_page f) held, v.in_use);
    distinct = remove-Distinct (get_page f) held v.distinct;
  }
