-- ===== src/Memory/Frames/Scan.antt =====
-- What one pass of `allocate_frame` over the usable frames finds.
use oxidized.Common.{ℕ, ◌+◌, ◌≤◌, ◌<◌, ◌≡◌, false, none, some, List, [], ◌∷◌, arith, inl, inr}
use oxidized.Common.Predicates.{All, In}
use oxidized.Crates.{BitStore}
use oxidized.Memory.Frames.{get_page, scan}

module _ (B : BitStore) where
  open B use {Bits, len, test}

  -- A frame that `scan` may hand out.
  pub record IsFree (used : Bits) (frame : ℕ) : Type 0 where
    pub high : 0x100000 ≤ frame
    pub addressable : get_page frame < len used
    pub clear : test used (get_page frame) ≡ false

  pub scan-some :
      (used : Bits) (frames : List ℕ) (c f n : ℕ)
      → scan B used frames c ≡ some (f, n)
      → In f frames × IsFree used f
  unfolding scan
  scan-some used [] c f n e = cc
  scan-some used (x ∷ xs) c f n e =
      ground (arith, scan-some used xs c f n, scan-some used xs (c + 1) f n)

  -- A pass that finds nothing passed over no free frame, if the bit array has every page.
  pub scan-none :
      (used : Bits) (frames : List ℕ) (c f : ℕ)
      → All (λ g. get_page g < len used) frames
      → In f frames
      → IsFree used f
      → scan B used frames c ≡ none
      → ⊥
  unfolding scan
  scan-none used [] c f a m v e = m
  scan-none used (x ∷ xs) c f a (inl p) v e = ground arith
  scan-none used (x ∷ xs) c f a (inr m) v e =
      ground (arith, scan-none used xs c f a.1 m v, scan-none used xs (c + 1) f a.1 m v)
