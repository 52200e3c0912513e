-- ===== src/Memory/Manager/Range.antt =====
-- allocate_contigious_address_range: what a call that succeeds has mapped and flushed.
use oxidized.Common.{
  ℕ, ap, ◌∙◌, zero, suc, ◌+◌, ◌*◌, ◌≤◌, ◌<◌, ◌≡◌, ◌≢◌, sym, subst, arith, Option, none, some, Bool,
  inl, inr, true, false, ◌||◌, ltb, ◌==◌, List, ◌∷◌, Outcome-cases, returns, Option-cases,
  if◌then◌else◌,
}
use oxidized.Crates.{BitStore, Paging, PageTables}
use oxidized.Memory.Frames.{FrameAllocator, allocate_frame, page_size}
use oxidized.Memory.Manager.{
  MemoryManager, Mapping, Flush, flush_page, flush_all, find_range, add_pages, first_page,
  map_pages, allocate_contigious_address_range,
}
use oxidized.Memory.Manager.Search.{
  IsHalf, add_pages-exact, IsRun, IsRun-zero, FindsRun, find_range_total,
}

-- Whether `q` is one of the `n` pages from `page` on.
unfoldable pub covers : ℕ → ℕ → ℕ → Bool
covers page zero q = false
covers page (suc n) q = page == q || covers (page + page_size) n q

module _ (B : BitStore) (G : Paging) (P : PageTables (FrameAllocator B)) where
  open P use {Tables, translate_page, map_to}

  map_pages-flushes :
      (n pages start i flags : ℕ) (s s' : Mapping B G P)
      → pages ≢ 1
      → map_pages B G P n pages start i flags s ≡ returns (true, s')
      → s'.flushes ≡ s.flushes
  unfolding map_pages
  map_pages-flushes zero pages start i flags s s' ne h = ground arith
  map_pages-flushes (suc n) pages start i flags s s' ne h =
      elim (Outcome-cases (allocate_frame B G s.frames)) [
        | inr (inl e) ↦ ground arith
        | inr (inr e) ↦ ground arith
        | inl ((none, f), e) ↦ ground arith
        | inl ((some frame, f), e) ↦ elim (Outcome-cases (add_pages B G P start i)) [
          | inr (inl y) ↦ ground arith
          | inr (inr y) ↦ ground arith
          | inl (page, y) ↦ elim (Option-cases (map_to s.tables page frame flags f)) [
            | inl x ↦ ground arith
            | inr ((t, g), x) ↦
                let s₁ : Mapping B G P = record { tables = t; frames = g; flushes = s.flushes } in
                ground (arith, map_pages-flushes n pages start (i + 1) flags s₁ s' ne)
          ]
        ]
      ]

  -- The mapping of pages that lie in one half.
  module _ (base top start : ℕ) (half : IsHalf base top) (above : base ≤ start) where
    map_pages-translate :
        (n pages i flags : ℕ) (s s' : Mapping B G P) (q : ℕ)
        → start + (i + n) * page_size < top
        → map_pages B G P n pages start i flags s ≡ returns (true, s')
        → translate_page s'.tables q
          ≡ (covers (start + i * page_size) n q || translate_page s.tables q)
    unfolding map_pages covers
    map_pages-translate zero pages i flags s s' q room h = ground arith
    map_pages-translate (suc n) pages i flags s s' q room h =
        let exact = add_pages-exact B G P base top start i half above (omega arith) in
        let page : ℕ = start + i * page_size in
        let further : start + (i + 1) * page_size ≡ page + page_size = omega arith in
        elim (Outcome-cases (allocate_frame B G s.frames)) [
          | inr (inl e) ↦ ground arith
          | inr (inr e) ↦ ground arith
          | inl ((none, f), e) ↦ ground arith
          | inl ((some frame, f), e) ↦ elim (Option-cases (map_to s.tables page frame flags f)) [
            | inl x ↦ ground arith
            | inr ((t, g), x) ↦
                let s₁ : Mapping B G P = record {
                  tables = t;
                  frames = g;
                  flushes = if pages == 1 then flush_page page ∷ s.flushes else s.flushes;
                } in
                ground (
                  arith,
                  ap (λ z. covers z n q) further,
                  map_pages-translate n pages (i + 1) flags s₁ s' q (omega arith),
                  P.translate-map s.tables page frame flags f t g x q,
                )
          ]
        ]

    map_one-flushes :
        (flags : ℕ) (s s' : Mapping B G P)
        → start + page_size < top
        → map_pages B G P 1 1 start 0 flags s ≡ returns (true, s')
        → s'.flushes ≡ flush_page start ∷ s.flushes
    unfolding map_pages
    map_one-flushes flags s s' room h =
        let at_start : start + 0 * page_size ≡ start = omega arith in
        let exact =
          add_pages-exact B G P base top start 0 half above (omega arith) ∙ ap returns at_start in
        elim (Outcome-cases (allocate_frame B G s.frames)) [
          | inr (inl e) ↦ ground arith
          | inr (inr e) ↦ ground arith
          | inl ((none, f), e) ↦ ground arith
          | inl ((some frame, f), e) ↦ elim (Option-cases (map_to s.tables start frame flags f)) [
            | inl x ↦ ground arith
            | inr ((t, g), x) ↦ ground arith
          ]
        ]

  -- The flushes that a mapping of so many pages needs.
  unfoldable pub flushed : ℕ → ℕ → List Flush → List Flush
  flushed pages a old =
      if pages == 1 then flush_page a ∷ old else if ltb 1 pages then flush_all ∷ old else old

  map_pages-flushed :
      (base top start : ℕ)
      → IsHalf base top
      → base ≤ start
      → (pages flags : ℕ) (s s' : Mapping B G P) → start + pages * page_size < top
      → map_pages B G P pages pages start 0 flags s ≡ returns (true, s')
      → (if ltb 1 pages then flush_all ∷ s'.flushes else s'.flushes) ≡ flushed pages start s.flushes
  unfolding flushed
  map_pages-flushed base top start half above zero flags s s' room h =
      map_pages-flushes 0 0 start 0 flags s s' (omega arith) h
  map_pages-flushed base top start half above (suc zero) flags s s' room h =
      map_one-flushes base top start half above flags s s' (omega arith) h
  map_pages-flushed base top start half above (suc (suc n)) flags s s' room h =
      ground (arith, map_pages-flushes (suc (suc n)) (suc (suc n)) start 0 flags s s')

  -- What a call that succeeds has done.
  pub record Ranged (s s' : MemoryManager B G P) (t : Tables) (earliest : Option ℕ) (pages a : ℕ)
      : Type 0 where
    pub run : IsRun B G P t earliest a pages
    pub start : G.containing_address (first_page B G P s earliest) ≤ a
    pub tables : Tables
    pub present : s'.page_table ≡ some tables
    pub mapped : (q : ℕ) → translate_page tables q ≡ (covers a pages q || translate_page t q)
    pub next : s'.next_free_page ≡ a + pages * page_size
    pub flushes : s'.flushes ≡ flushed pages a s.flushes

  -- If the search ends in one half of the address space, a call that returns an address `a` has found
  -- there as many free pages in a row as were asked for, none below the page of the earliest address,
  -- has mapped exactly these besides what was mapped, has set the next free page behind them, and has
  -- flushed the one page, or everything if there are more.
  pub allocate_contigious-Ranged :
      (fuel base top : ℕ) (s s' : MemoryManager B G P) (frames frames' : FrameAllocator B)
      (pages : ℕ) (earliest : Option ℕ) (flags : ℕ) (t : Tables) (a : ℕ)
      → IsHalf base top
      → base ≤ G.containing_address (first_page B G P s earliest)
      → s.page_table ≡ some t
      → FindsRun B G P t earliest pages top (G.containing_address (first_page B G P s earliest)) (
          find_range B G P fuel t earliest pages
            (G.containing_address (first_page B G P s earliest))
            0)
      → allocate_contigious_address_range B G P fuel s frames pages earliest flags
        ≡ returns (some a, s', frames')
      → Ranged s s' t earliest pages a
  unfolding allocate_contigious_address_range
  allocate_contigious-Ranged fuel base top s s' frames frames' pages earliest flags t a half above e
        (b, q, r, l, room) h =
      let m₀ : Mapping B G P = record { tables = t; frames = frames; flushes = s.flushes } in
      let high : base ≤ b = omega arith in
      let exact = add_pages-exact B G P base top b pages half high room in
      let at_start : b + 0 * page_size ≡ b = omega arith in
      elim (Outcome-cases (map_pages B G P pages pages b 0 flags m₀)) [
        | inr (inl x) ↦ ground arith
        | inr (inr x) ↦ ground arith
        | inl ((false, m), x) ↦ ground arith
        | inl ((true, m), x) ↦
            let same : a ≡ b = ground arith in
            record {
              run = subst (λ c. IsRun B G P t earliest c pages) (sym same) r;
              start = omega arith;
              tables = m.tables;
              present = ground arith;
              mapped = λ z. rw same (
                  subst (λ c. translate_page m.tables z ≡ (covers c pages z || translate_page t z))
                    at_start
                    (map_pages-translate base top b half high pages pages 0 flags m₀ m z
                      (omega arith) x));
              next = ground arith;
              flushes =
                  ground (arith, map_pages-flushed base top b half high pages flags m₀ m room x);
            }
      ]

  -- A call whose earliest address lies below some limit, from which on every page is free, whose loop may
  -- run once for each page up to the limit and once for each page asked for, and which by that stays
  -- in one half of the address space: if every frame and table that it needs is there, so that it
  -- returns an address, the address is as above.
  pub allocate_contigious_lem :
      (n fuel limit base top : ℕ) (s s' : MemoryManager B G P) (frames frames' : FrameAllocator B)
      (pages : ℕ) (earliest : Option ℕ) (flags : ℕ) (t : Tables) (a : ℕ)
      → IsHalf base top
      → base ≤ G.containing_address (first_page B G P s earliest)
      → G.containing_address (first_page B G P s earliest) + (n + pages + 1) * page_size < top
      → s.page_table ≡ some t
      → ((q : ℕ) → limit ≤ q → translate_page t q ≡ false)
      → ((x : ℕ) → earliest ≡ some x → x ≤ limit)
      → limit ≤ G.containing_address (first_page B G P s earliest) + n * page_size
      → n + pages < fuel
      → allocate_contigious_address_range B G P fuel s frames pages earliest flags
        ≡ returns (some a, s', frames')
      → Ranged s s' t earliest pages a
  allocate_contigious_lem n fuel limit base top s s' frames frames' pages earliest flags t a half
        above room e free below l f =
      allocate_contigious-Ranged fuel base top s s' frames frames' pages earliest flags t a half
        above e
        (find_range_total B G P t earliest pages limit base top half free below n fuel
          (G.containing_address (first_page B G P s earliest)) 0 f (omega arith) above (omega arith)
          (omega arith)
          (IsRun-zero B G P t earliest (G.containing_address (first_page B G P s earliest))))
