-- ===== src/Framebuffer/Pixel.antt =====
-- set_pixel_raw, and the rectangles that draw_rect makes of it: which bytes change, and to what.
use native.Mathlib.Nat.{add-zero}
use oxidized.Common.{
  ℕ, ◌+◌, ◌-◌, ◌≤◌, ◌<◌, ◌≡◌, ◌≢◌, refl, ◌⊎◌, inl, inr, arith, dec_lt, ◌∙◌, min, some, returns,
  ℕ_discrete, ◌↔◌,
}
use oxidized.Shared.Memcpy.{copied_in, copied_out, Memory, CanCopy, copied, memcpy_lem}
use oxidized.Framebuffer.{
  FrameBufferInfo, KernelFramebuffer, get_buffer_start_offset, copy_range, set_pixel_raw,
}
use oxidized.Framebuffer.Geometry.{IsValidInfo, offset_in_bounds, offsets_apart}

-- The bytes of a colour that one pixel takes.
abbrev pub depth : FrameBufferInfo → ℕ
depth info = min info.bytes_per_pixel 3

-- The address of the bytes of a pixel on the surface.
abbrev pub pixel_at : KernelFramebuffer → FrameBufferInfo → ℕ → ℕ → ℕ
pixel_at fb info x y = fb.surface + get_buffer_start_offset x y info

-- A frame buffer with its info, and a colour that stands outside the surface.
pub record IsReady (fb : KernelFramebuffer) (info : FrameBufferInfo) (raw : ℕ) : Type 0 where
  pub present : fb.info ≡ some info
  pub valid : IsValidInfo info
  pub apart : (raw + 3 ≤ fb.surface) ⊎ (fb.surface + info.byte_len ≤ raw)

module _ (fb : KernelFramebuffer) (info : FrameBufferInfo) (raw : ℕ)
    (ready : IsReady fb info raw) where
  set_on_screen :
      (m : Memory) (x y : ℕ)
      → x < info.width
      → y < info.height
      → set_pixel_raw m fb x y raw 3 ≡ returns (copied m (pixel_at fb info x y) raw (depth info))
  unfolding set_pixel_raw copy_range
  set_on_screen m x y hx hy =
      let inside = offset_in_bounds info x y ready.valid hx hy in
      let safe : CanCopy (pixel_at fb info x y) raw (depth info) = elim ready.apart [
        | inl l ↦ inr (omega arith)
        | inr l ↦ inl (omega arith)
      ] in
      ground (
        arith,
        ready.present,
        ready.apart,
        add-zero raw,
        memcpy_lem m (pixel_at fb info x y) raw (depth info) safe,
      )

  set_off_screen :
      (m : Memory) (x y : ℕ)
      → (info.width ≤ x) ⊎ (info.height ≤ y)
      → set_pixel_raw m fb x y raw 3 ≡ returns m
  unfolding set_pixel_raw
  set_off_screen m x y h = ground (arith, ready.present)

  -- The memory after the pixels that `D` names have been given the colour, and nothing else.
  pub record Painted (D : ℕ → ℕ → Type 0) (m₀ m : Memory) : Type 0 where
    pub painted :
        (x y k : ℕ)
        → x < info.width
        → y < info.height
        → k < depth info
        → D x y
        → m (pixel_at fb info x y + k) ≡ m₀ (raw + k)
    pub kept :
        (q : ℕ)
        → ((x y k : ℕ)
            → x < info.width
            → y < info.height
            → k < depth info
            → D x y
            → q ≢ pixel_at fb info x y + k)
        → m q ≡ m₀ q

  pub Painted-empty : (D : ℕ → ℕ → Type 0) (m : Memory) → ((x y : ℕ) → D x y → ⊥) → Painted D m m
  Painted-empty D m no_pixel = record {
    painted = λ x y k hx hy hk d. absurd (no_pixel x y d);
    kept = λ q h. refl;
  }

  pub Painted-change :
      (D E : ℕ → ℕ → Type 0) (m₀ m : Memory)
      → ((x y : ℕ) → x < info.width → y < info.height → D x y ↔ E x y)
      → Painted D m₀ m
      → Painted E m₀ m
  Painted-change D E m₀ m same p = record {
    painted = λ x y k hx hy hk e. p.painted x y k hx hy hk ((same x y hx hy).1 e);
    kept = λ q h. p.kept q (λ x y k hx hy hk d. h x y k hx hy hk ((same x y hx hy).0 d));
  }

  -- The colour itself stands outside the surface, so painting does not change it.
  color_kept :
      (D : ℕ → ℕ → Type 0) (m₀ m : Memory) (k : ℕ)
      → k < 3
      → Painted D m₀ m
      → m (raw + k) ≡ m₀ (raw + k)
  color_kept D m₀ m k h p = p.kept (raw + k) λ x y j hx hy hj d e.
      let inside = offset_in_bounds info x y ready.valid hx hy in
      elim ready.apart [ inl l ↦ omega arith | inr l ↦ omega arith ]

  -- A copied block, read inside and outside.
  paint_other :
      (D : ℕ → ℕ → Type 0) (m₀ m : Memory) (a b x y k : ℕ)
      → a < info.width
      → b < info.height
      → x < info.width
      → y < info.height
      → k < depth info
      → (x ≢ a) ⊎ (y ≢ b)
      → D x y
      → Painted D m₀ m
      → copied m (pixel_at fb info a b) raw (depth info) (pixel_at fb info x y + k) ≡ m₀ (raw + k)
  paint_other D m₀ m a b x y k ha hb hx hy hk ne d p =
      let away = offsets_apart info x y a b ready.valid hx hy ha hb ne in
      copied_out m (pixel_at fb info a b) raw (depth info) (pixel_at fb info x y + k)
        (elim away [ inl l ↦ inl (omega arith) | inr l ↦ inr (omega arith) ])
      ∙ p.painted x y k hx hy hk d

  paint_same :
      (D : ℕ → ℕ → Type 0) (m₀ m : Memory) (a b x y k : ℕ)
      → k < depth info
      → x ≡ a
      → y ≡ b
      → Painted D m₀ m
      → copied m (pixel_at fb info a b) raw (depth info) (pixel_at fb info x y + k) ≡ m₀ (raw + k)
  paint_same D m₀ m a b x y k hk ex ey p =
      rw (ex, ey)
        (copied_in m (pixel_at fb info a b) raw (depth info) k hk
          ∙ color_kept D m₀ m k (omega arith) p)

  paint_kept :
      (D : ℕ → ℕ → Type 0) (m₀ m : Memory) (a b q : ℕ)
      → a < info.width
      → b < info.height
      → ((x y k : ℕ)
          → x < info.width
          → y < info.height
          → k < depth info
          → D x y ⊎ ((x ≡ a) × (y ≡ b))
          → q ≢ pixel_at fb info x y + k)
      → Painted D m₀ m
      → copied m (pixel_at fb info a b) raw (depth info) q ≡ m₀ q
  paint_kept D m₀ m a b q ha hb h p =
      copied_out m (pixel_at fb info a b) raw (depth info) q
        (elim (dec_lt q (pixel_at fb info a b)) [
          | yes below ↦ inl below
          | no nb ↦ elim (dec_lt q (pixel_at fb info a b + depth info)) [
            | yes inside ↦ absurd (
                h a b (q - pixel_at fb info a b) ha hb (omega arith) (inr (refl, refl))
                  (omega arith))
            | no beyond ↦ inr (omega arith)
          ]
        ])
      ∙ p.kept q (λ x y k hx hy hk d. h x y k hx hy hk (inl d))

  paint_one :
      (D : ℕ → ℕ → Type 0) (m₀ m : Memory) (a b : ℕ)
      → a < info.width
      → b < info.height
      → Painted D m₀ m
      → Painted
          (λ x y. D x y ⊎ ((x ≡ a) × (y ≡ b)))
          m₀
          (copied m (pixel_at fb info a b) raw (depth info))
  paint_one D m₀ m a b ha hb p = record {
    painted = λ x y k hx hy hk d. elim d [
      | inr (ex, ey) ↦ paint_same D m₀ m a b x y k hk ex ey p
      | inl old ↦ elim (ℕ_discrete x a) [
        | no nx ↦ paint_other D m₀ m a b x y k ha hb hx hy hk (inl nx) old p
        | yes ex ↦ elim (ℕ_discrete y b) [
          | no ny ↦ paint_other D m₀ m a b x y k ha hb hx hy hk (inr ny) old p
          | yes ey ↦ paint_same D m₀ m a b x y k hk ex ey p
        ]
      ]
    ];
    kept = λ q h. paint_kept D m₀ m a b q ha hb h p;
  }

  -- One call of `set_pixel_raw`, on the screen or off it.
  pub set_pixel_raw-Painted :
      (D : ℕ → ℕ → Type 0) (m₀ m : Memory) (a b : ℕ)
      → Painted D m₀ m
      → (m' : Memory) × (set_pixel_raw m fb a b raw 3 ≡ returns m')
        × Painted (λ x y. D x y ⊎ ((x ≡ a) × (y ≡ b))) m₀ m'
  set_pixel_raw-Painted D m₀ m a b p = elim (dec_lt a info.width) [
    | no off ↦ (
      m,
      set_off_screen m a b (inl (omega arith)),
      Painted-change D _ m₀ m
          (λ x y hx hy. (inl, λ e. elim e [ inl d ↦ d | inr (ex, ey) ↦ absurd (omega arith) ])) p,
    )
    | yes ha ↦ elim (dec_lt b info.height) [
      | no off ↦ (
        m,
        set_off_screen m a b (inr (omega arith)),
        Painted-change D _ m₀ m
            (λ x y hx hy. (inl, λ e. elim e [ inl d ↦ d | inr (ex, ey) ↦ absurd (omega arith) ])) p,
      )
      | yes hb ↦ (
        copied m (pixel_at fb info a b) raw (depth info),
        set_on_screen m a b ha hb,
        paint_one D m₀ m a b ha hb p,
      )
    ]
  ]
