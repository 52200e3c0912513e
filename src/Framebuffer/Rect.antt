-- ===== src/Framebuffer/Rect.antt =====
-- set_pixel, draw_rect and clear: exactly the pixels that lie in the rectangle and on the screen
-- take the colour.
use oxidized.Common.{
  ℕ, ap, ◌∙◌, ◌%◌, ◌^◌, zero, suc, ◌+◌, ◌≤◌, ◌<◌, ◌≡◌, ◌⊎◌, inl, inr, arith, true, returns, ◌>>=◌,
  ◌↔◌, ℕ_discrete, refl,
}
use oxidized.Shared.Memcpy.{Memory}
use oxidized.Framebuffer.{
  FrameBufferInfo, KernelFramebuffer, Color, is_supported, set_pixel_raw, draw_row, draw_rows,
  store_color, set_pixel, draw_rect, clear,
}
use oxidized.Framebuffer.Pixel.{
  IsReady, Painted, Painted-empty, Painted-change, set_pixel_raw-Painted,
}

abbrev pub InRect : ℕ → ℕ → ℕ → ℕ → ℕ → ℕ → Type 0
InRect a b width height x y = (a ≤ x) × (x < a + width) × (b ≤ y) × (y < b + height)

-- A pixel and the row to its right make a row that is one longer.
grow_row :
    (P : Type 0) (a b n x y : ℕ)
    → ((P ⊎ ((x ≡ a) × (y ≡ b))) ⊎ InRect (a + 1) b n 1 x y) ↔ (P ⊎ InRect a b (suc n) 1 x y)
grow_row P a b n x y = (there, back)
  where
    there : (P ⊎ ((x ≡ a) × (y ≡ b))) ⊎ InRect (a + 1) b n 1 x y → P ⊎ InRect a b (suc n) 1 x y
    there (inl (inl p)) = inl p
    there (inl (inr (ex, ey))) = inr (omega arith)
    there (inr r) = inr (omega arith)

    back : P ⊎ InRect a b (suc n) 1 x y → (P ⊎ ((x ≡ a) × (y ≡ b))) ⊎ InRect (a + 1) b n 1 x y
    back (inl p) = inl (inl p)
    back (inr r) = elim (ℕ_discrete x a) [
      | yes e ↦ inl (inr (e, omega arith))
      | no n ↦ inr (omega arith)
    ]

-- A row and the rectangle below it make a rectangle that is one higher.
grow_rect :
    (P : Type 0) (a b w n x y : ℕ)
    → ((P ⊎ InRect a b w 1 x y) ⊎ InRect a (b + 1) w n x y) ↔ (P ⊎ InRect a b w (suc n) x y)
grow_rect P a b w n x y = (there, back)
  where
    there : (P ⊎ InRect a b w 1 x y) ⊎ InRect a (b + 1) w n x y → P ⊎ InRect a b w (suc n) x y
    there (inl (inl p)) = inl p
    there (inl (inr r)) = inr (omega arith)
    there (inr r) = inr (omega arith)

    back : P ⊎ InRect a b w (suc n) x y → (P ⊎ InRect a b w 1 x y) ⊎ InRect a (b + 1) w n x y
    back (inl p) = inl (inl p)
    back (inr r) = elim (ℕ_discrete y b) [
      | yes e ↦ inl (inr (omega arith))
      | no n ↦ inr (omega arith)
    ]

module _ (fb : KernelFramebuffer) (info : FrameBufferInfo) (raw : ℕ)
    (ready : IsReady fb info raw) where
  draw_row-Painted :
      (n : ℕ) (D : ℕ → ℕ → Type 0) (m₀ m : Memory) (a b : ℕ)
      → a + n ≤ 2 ^ 64
      → Painted fb info raw ready D m₀ m
      → (m' : Memory) × (draw_row n m fb a b raw ≡ returns m')
        × Painted fb info raw ready (λ x y. D x y ⊎ InRect a b n 1 x y) m₀ m'
  unfolding draw_row
  draw_row-Painted zero D m₀ m a b fits p = (
    m,
    refl,
    Painted-change fb info raw ready D _ m₀ m
        (λ x y hx hy. (inl, λ e. elim e [ inl d ↦ d | inr r ↦ absurd (omega arith) ])) p,
  )
  draw_row-Painted (suc n) D m₀ m a b fits p =
      let same : a % 2 ^ 64 ≡ a = omega arith in
      let (m₁, e₁, p₁) = set_pixel_raw-Painted fb info raw ready D m₀ m a b p in
      let (m₂, e₂, p₂) = draw_row-Painted n _ m₀ m₁ (a + 1) b (omega arith) p₁ in
      (
        m₂,
        rw (ap (λ x. set_pixel_raw m fb x b raw 3) same ∙ e₁, ◌>>=◌) e₂,
        Painted-change fb info raw ready _ _ m₀ m₂ (λ x y hx hy. grow_row (D x y) a b n x y) p₂,
      )

  draw_rows-Painted :
      (n : ℕ) (D : ℕ → ℕ → Type 0) (m₀ m : Memory) (a b w : ℕ)
      → a + w ≤ 2 ^ 64
      → b + n ≤ 2 ^ 64
      → Painted fb info raw ready D m₀ m
      → (m' : Memory) × (draw_rows n m fb a b w raw ≡ returns m')
        × Painted fb info raw ready (λ x y. D x y ⊎ InRect a b w n x y) m₀ m'
  unfolding draw_rows
  draw_rows-Painted zero D m₀ m a b w wide fits p = (
    m,
    refl,
    Painted-change fb info raw ready D _ m₀ m
        (λ x y hx hy. (inl, λ e. elim e [ inl d ↦ d | inr r ↦ absurd (omega arith) ])) p,
  )
  draw_rows-Painted (suc n) D m₀ m a b w wide fits p =
      let same : b % 2 ^ 64 ≡ b = omega arith in
      let (m₁, e₁, p₁) = draw_row-Painted w D m₀ m a b wide p in
      let (m₂, e₂, p₂) = draw_rows-Painted n _ m₀ m₁ a (b + 1) w wide (omega arith) p₁ in
      (
        m₂,
        rw (ap (λ y. draw_row w m fb a y raw) same ∙ e₁, ◌>>=◌) e₂,
        Painted-change fb info raw ready _ _ m₀ m₂ (λ x y hx hy. grow_rect (D x y) a b w n x y) p₂,
      )

  rows_from_nothing :
      (m : Memory) (a b w h : ℕ)
      → a + w ≤ 2 ^ 64
      → b + h ≤ 2 ^ 64
      → (m' : Memory) × (draw_rows h m fb a b w raw ≡ returns m')
        × Painted fb info raw ready (InRect a b w h) m m'
  rows_from_nothing m a b w h wide fits =
      let (m', e, p) =
        draw_rows-Painted h (λ x y. ⊥) m m a b w wide fits
          (Painted-empty fb info raw ready (λ x y. ⊥) m (λ x y z. z)) in
      (
        m',
        e,
        Painted-change fb info raw ready _ (InRect a b w h) m m'
            (λ x y hx hy. (λ z. elim z [ inl n ↦ absurd n | inr r ↦ r ], inr)) p,
      )

  module _ (grey : Color → ℕ) (c : Color) (supported : is_supported info.pixel_format ≡ true) where
    -- On a valid frame buffer of a supported format, with the colour's bytes outside the surface,
    -- `draw_rect` returns for any rectangle whose right and lower ends do not overflow: every pixel
    -- that lies in it and on the screen takes the bytes of the colour, as many as a pixel has and at
    -- most three, and no other byte of the memory changes but the colour's own three.
    pub draw_rect-Painted :
        (m : Memory) (x y width height : ℕ)
        → x + width ≤ 2 ^ 64
        → y + height ≤ 2 ^ 64
        → (m' : Memory) × (draw_rect grey m fb raw x y width height c ≡ returns m')
          × Painted fb info raw ready
              (InRect x y width height)
              (store_color grey m raw info.pixel_format c)
              m'
    unfolding draw_rect
    draw_rect-Painted m x y width height wide fits =
        let (m', e, p) =
          rows_from_nothing (store_color grey m raw info.pixel_format c) x y width height wide
            fits in
        (m', ground (arith, ready.present, e, supported), p)

    -- On a valid frame buffer of a supported format, with the colour's bytes outside the surface,
    -- `clear` returns, gives every pixel of the screen the colour, and changes no other byte but the
    -- colour's own three.
    pub clear-Painted :
        (m : Memory)
        → (m' : Memory) × (clear grey m fb raw c ≡ returns m')
          × Painted fb info raw ready
              (λ x y. Unit {0})
              (store_color grey m raw info.pixel_format c)
              m'
    unfolding clear
    clear-Painted m =
        let bounds : (0 + info.width ≤ 2 ^ 64) × (0 + info.height ≤ 2 ^ 64) =
          omega (arith, ready.valid.columns, ready.valid.rows) in
        let (m', e, p) = draw_rect-Painted m 0 0 info.width info.height (bounds.0) (bounds.1) in
        (
          m',
          ground (arith, ready.present, e),
          Painted-change fb info raw ready (InRect 0 0 info.width info.height) (λ x y. Unit) _ m'
              (λ x y hx hy. (λ r. tt, λ t. omega arith)) p,
        )

    -- On a valid frame buffer of a supported format, with the colour's bytes outside the surface,
    -- `set_pixel` returns, gives its pixel the colour if it is on the screen, and changes no other
    -- byte but the colour's own three.
    pub set_pixel-Painted :
        (m : Memory) (a b : ℕ)
        → (m' : Memory) × (set_pixel grey m fb raw a b c ≡ returns m')
          × Painted fb info raw ready
              (λ x y. (x ≡ a) × (y ≡ b))
              (store_color grey m raw info.pixel_format c)
              m'
    unfolding set_pixel
    set_pixel-Painted m a b =
        let m₀ : Memory = store_color grey m raw info.pixel_format c in
        let (m', e, p) =
          set_pixel_raw-Painted fb info raw ready (λ x y. ⊥) m₀ m₀ a b
            (Painted-empty fb info raw ready (λ x y. ⊥) m₀ (λ x y z. z)) in
        (
          m',
          ground (arith, ready.present, e, supported),
          Painted-change fb info raw ready _ (λ x y. (x ≡ a) × (y ≡ b)) m₀ m'
              (λ x y hx hy. (λ z. elim z [ inl n ↦ absurd n | inr r ↦ r ], inr)) p,
        )
