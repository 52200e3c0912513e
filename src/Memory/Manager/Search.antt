-- ===== src/Memory/Manager/Search.antt =====
-- The search for free pages: what it finds, and that it ends.
use oxidized.Common.{
  ℕ, ◌⊎◌, ◌-◌, ◌^◌, ◌%◌, ◌∙◌, ◌>>=◌, zero, suc, ◌+◌, ◌*◌, ◌≤◌, ◌<◌, ◌≡◌, refl, arith, ap, subst,
  le→ltb, lt→ltb, ltb→le, Option, none, some, Bool-cases, inl, inr, true, false, ltb, dec_lt,
  Outcome, returns,
}
use oxidized.Crates.{BitStore, Paging, PageTables}
use oxidized.Memory.Frames.{FrameAllocator, page_size}
use oxidized.Memory.Manager.{floor, find_range, add_pages}

-- The lower half of the address space, or the upper one.
abbrev pub IsHalf : ℕ → ℕ → Type 0
IsHalf base top = ((base ≡ 0) × (top ≡ 2 ^ 47)) ⊎ ((base ≡ 2 ^ 64 - 2 ^ 47) × (top ≡ 2 ^ 64))

module _ (B : BitStore) (G : Paging) (P : PageTables (FrameAllocator B)) where
  open P use {Tables, translate_page}

  -- Within one half, a sum of pages is the sum of the numbers.
  pub add_pages-exact :
      (base top page n : ℕ)
      → IsHalf base top
      → base ≤ page
      → page + n * page_size < top
      → add_pages B G P page n ≡ returns (page + n * page_size)
  unfolding add_pages
  add_pages-exact base top page n half l h =
      let small : page + n * page_size < 2 ^ 64 = elim half [
        | inl (_, t) ↦ omega arith
        | inr (_, t) ↦ omega arith
      ] in
      let same : (page + n * page_size) % 2 ^ 64 ≡ page + n * page_size = omega arith in
      ap G.virt_addr same ∙ elim half [
        | inl (_, t) ↦ G.virt_addr-low (page + n * page_size) (omega arith)
        | inr (b, _) ↦ G.virt_addr-high (page + n * page_size) (omega arith) small
      ]

  -- A run of `n` pages from `start` on that are free and not below the floor.
  pub record IsRun (t : Tables) (earliest : Option ℕ) (start n : ℕ) : Type 0 where
    pub free : (j : ℕ) → j < n → translate_page t (start + j * page_size) ≡ false
    pub high : (j : ℕ) → j < n → floor B G P earliest start ≤ start + j * page_size

  pub IsRun-zero : (t : Tables) (e : Option ℕ) (start : ℕ) → IsRun t e start 0
  IsRun-zero t e start = record {
    free = λ j h. absurd (omega arith);
    high = λ j h. absurd (omega arith);
  }

  IsRun-suc :
      (t : Tables) (e : Option ℕ) (start n : ℕ)
      → translate_page t (start + n * page_size) ≡ false
      → floor B G P e start ≤ start + n * page_size
      → IsRun t e start n
      → IsRun t e start (n + 1)
  IsRun-suc t e start n free high r = record {
    free = λ j h. elim (dec_lt j n) [
      | yes l ↦ r.free j l
      | no l ↦ let same : j ≡ n = omega arith in rw same free
    ];
    high = λ j h. elim (dec_lt j n) [
      | yes l ↦ r.high j l
      | no l ↦ let same : j ≡ n = omega arith in rw same high
    ];
  }

  -- What a search from `start` comes to when it ends well.
  abbrev pub FindsRun : Tables → Option ℕ → ℕ → ℕ → ℕ → Outcome (ℕ × ℕ) → Type 0
  FindsRun t e pages top start o =
      (a : ℕ) × (o ≡ returns (a, pages))
      × IsRun t e a pages
      × (start ≤ a)
      × (a + pages * page_size < top)

  FindsRun-here :
      (t : Tables) (e : Option ℕ) (pages top start index : ℕ)
      → start + pages * page_size < top
      → index ≡ pages
      → IsRun t e start index
      → FindsRun t e pages top start (returns (start, index))
  FindsRun-here t e pages top start index h q r = (
    start,
    ap (λ (i : ℕ). returns (start, i)) q,
    subst (λ i. IsRun t e start i) q r,
    omega arith,
    h,
  )

  FindsRun-later :
      (t : Tables) (e : Option ℕ) (pages top start later : ℕ) (o : Outcome (ℕ × ℕ))
      → start ≤ later
      → FindsRun t e pages top later o
      → FindsRun t e pages top start o
  FindsRun-later t e pages top start later o h (a, q, r, l, u) = (a, q, r, omega arith, u)

  floor-none : (start : ℕ) → floor B G P none start ≤ start
  unfolding floor
  floor-none start = omega (arith, G.containing_address-eq start)

  floor-some : (x start : ℕ) → floor B G P (some x) start ≤ x
  unfolding floor
  floor-some x start = omega (arith, G.containing_address-eq x)

  floor-le :
      (e : Option ℕ) (start current limit : ℕ)
      → ((x : ℕ) → e ≡ some x → x ≤ limit)
      → start ≤ current
      → limit ≤ current
      → floor B G P e start ≤ current
  floor-le none start current limit b h l = omega (arith, floor-none start)
  floor-le (some x) start current limit b h l = omega (arith, floor-some x start, b x refl)

  -- From `limit` on every page is free, and the earliest address lies below it; the search stays in one
  -- half.
  module _ (t : Tables) (e : Option ℕ) (pages limit base top : ℕ) (half : IsHalf base top)
      (free : (q : ℕ) → limit ≤ q → translate_page t q ≡ false)
      (below : (x : ℕ) → e ≡ some x → x ≤ limit) where
    past_limit :
        (fuel start index : ℕ)
        → pages < fuel + index
        → index ≤ pages
        → base ≤ start
        → start + pages * page_size < top
        → limit ≤ start + index * page_size
        → IsRun t e start index
        → FindsRun t e pages top start (find_range B G P fuel t e pages start index)
    unfolding find_range
    past_limit zero start index f h low high l r = absurd (omega arith)
    past_limit (suc fuel) start index f h above room l r = elim (dec_lt index pages) [
      | no done ↦
          let full : ltb index pages ≡ false = le→ltb index pages (omega arith) in
          rw full (FindsRun-here t e pages top start index room (omega arith) r)
      | yes more ↦
          let short : ltb index pages ≡ true = lt→ltb index pages more in
          let exact = add_pages-exact base top start index half above (omega arith) in
          let low : floor B G P e start ≤ start + index * page_size =
            floor-le e start (start + index * page_size) limit below (omega arith) l in
          let high : ltb (start + index * page_size) (floor B G P e start) ≡ false =
            le→ltb (start + index * page_size) (floor B G P e start) low in
          let unmapped : translate_page t (start + index * page_size) ≡ false =
            free (start + index * page_size) l in
          rw (short, exact, ◌>>=◌, high, unmapped)
            (past_limit fuel start (index + 1) (omega arith) (omega arith) above room (omega arith)
              (IsRun-suc t e start index unmapped low r))
    ]

    -- The search ends: one round for each page from the first one up to the limit, and one for each
    -- page asked for.
    pub find_range_total :
        (n fuel start index : ℕ)
        → n + pages < fuel
        → index ≤ pages
        → base ≤ start
        → start + index * page_size + (n + pages + 1) * page_size < top
        → limit ≤ start + index * page_size + n * page_size
        → IsRun t e start index
        → FindsRun t e pages top start (find_range B G P fuel t e pages start index)
    unfolding find_range
    find_range_total zero fuel start index f h above room l r =
        past_limit fuel start index (omega arith) h above (omega arith) (omega arith) r
    find_range_total (suc n) zero start index f h above room l r = absurd (omega arith)
    find_range_total (suc n) (suc fuel) start index f h above room l r =
        let current : ℕ = start + index * page_size in
        let exact = add_pages-exact base top start index half above (omega arith) in
        let after = add_pages-exact base top current 1 half (omega arith) (omega arith) in
        let restart : FindsRun t e pages top start
            (find_range B G P fuel t e pages (current + 1 * page_size) 0) =
          FindsRun-later t e pages top start (current + 1 * page_size) _ (omega arith) (
            find_range_total n fuel (current + 1 * page_size) 0 (omega arith) (omega arith)
              (omega arith) (omega arith) (omega arith)
              (IsRun-zero t e (current + 1 * page_size))) in
        elim (dec_lt index pages) [
          | no done ↦
              let full : ltb index pages ≡ false = le→ltb index pages (omega arith) in
              rw full (FindsRun-here t e pages top start index (omega arith) (omega arith) r)
          | yes more ↦
              let short : ltb index pages ≡ true = lt→ltb index pages more in
              elim (Bool-cases (ltb (start + index * page_size) (floor B G P e start))) [
                | inl low ↦ rw (short, exact, ◌>>=◌, low, after) restart
                | inr high ↦ elim (Bool-cases (translate_page t (start + index * page_size))) [
                  | inl mapped ↦ rw (short, exact, ◌>>=◌, high, mapped, after) restart
                  | inr unmapped ↦
                      rw (short, exact, ◌>>=◌, high, unmapped)
                        (find_range_total n fuel start (index + 1) (omega arith) (omega arith) above
                          (omega arith) (omega arith)
                          (IsRun-suc t e start index unmapped
                            (ltb→le (start + index * page_size) (floor B G P e start) high) r))
                ]
              ]
        ]
