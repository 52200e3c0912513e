-- ===== src/Framebuffer/Scroll.antt =====
-- shift_up: the picture moves up by some lines and the lines below turn black, all but one pixel.
use native.Mathlib.Nat.{add-zero}
use oxidized.Common.{
  ℕ, suc, ◌+◌, ◌-◌, ◌*◌, ◌≤◌, ◌<◌, ◌≡◌, ◌≢◌, ◌⊎◌, inl, inr, arith, true, returns, ◌∙◌, dec_lt, ap,
}
use oxidized.Shared.Memcpy.{Memory, copied, memcpy_lem, store_byte}
use oxidized.Framebuffer.{
  FrameBufferInfo, KernelFramebuffer, Color, black, is_supported, get_buffer_start_offset,
  copy_range, copy_range_self, sub_usize, store_three, store_color, draw_rect, shift_up,
}
use oxidized.Framebuffer.Geometry.{
  index, offset-index, offset_in_bounds, offsets_apart, times_bound, index_lt,
}
use oxidized.Framebuffer.Pixel.{IsReady, Painted, pixel_at, depth}
use oxidized.Framebuffer.Rect.{InRect, draw_rect-Painted}

-- A colour that is stored changes its own three bytes only.
store_color-elsewhere :
    (grey : Color → ℕ) (m : Memory) (raw : ℕ) (info : FrameBufferInfo) (c : Color) (q : ℕ)
    → (q < raw) ⊎ (raw + 3 ≤ q)
    → store_color grey m raw info.pixel_format c q ≡ m q
unfolding store_color store_three store_byte
store_color-elsewhere grey m raw info c q h = ground arith

module _ (fb : KernelFramebuffer) (info : FrameBufferInfo) (raw : ℕ) (ready : IsReady fb info raw)
    (lines : ℕ) (wide : 0 < info.width) (some_left : lines < info.height) where
  abbrev start : ℕ
  start = get_buffer_start_offset 0 lines info

  abbrev end : ℕ
  end = get_buffer_start_offset (info.width - 1) (info.height - 1) info

  -- The memory when the lines have moved and the last ones are not black yet.
  abbrev pub moved : Memory → Memory
  moved m = copied m fb.surface (fb.surface + start) (end - start)

  start-le-end : start ≤ end
  start-le-end = omega (
    arith,
    offset-index info 0 lines wide some_left,
    offset-index info (info.width - 1) (info.height - 1) (omega arith) (omega arith),
    rows lines (info.height - 1) info.stride info.bytes_per_pixel (info.width - 1) (omega arith),
  )
    where
      rows : (a b s k x : ℕ) → a ≤ b → (0 + a * s) * k ≤ (x + b * s) * k
      rows a b s k x h = grind arith

  shift_up-draws :
      (grey : Color → ℕ) (m : Memory)
      → shift_up grey m fb raw lines
        ≡ draw_rect grey (moved m) fb raw 0 (info.height - lines) info.width lines black
  unfolding shift_up copy_range_self copy_range sub_usize
  shift_up-draws grey m =
      let inside = offset_in_bounds info 0 lines ready.valid wide some_left in
      let up : fb.surface ≤ fb.surface + start = omega arith in
      ground (
        arith,
        ready.present,
        start-le-end,
        add-zero fb.surface,
        memcpy_lem m fb.surface (fb.surface + start) (end - start) (inl up),
      )

  offset-lines :
      (x y : ℕ)
      → x < info.width
      → y + lines < info.height
      → get_buffer_start_offset x y info + start ≡ get_buffer_start_offset x (y + lines) info
  offset-lines x y hx hy = omega (
    arith,
    offset-index info x y hx (omega arith),
    offset-index info x (y + lines) hx hy,
    offset-index info 0 lines wide some_left,
  )

  before_last :
      (x y : ℕ)
      → x < info.width
      → y < info.height
      → (suc x ≢ info.width) ⊎ (suc y ≢ info.height)
      → index info x y + 1 ≤ index info (info.width - 1) (info.height - 1)
  before_last x y hx hy ne =
      let line = ready.valid.line in
      elim (dec_lt y (info.height - 1)) [
        | yes l ↦ omega (
          arith,
          index_lt info.stride x y (info.width - 1) (info.height - 1) (omega arith) (omega arith) l,
        )
        | no same ↦
            let row : y * info.stride ≡ (info.height - 1) * info.stride =
              ap (λ (t : ℕ). t * info.stride) (omega arith) in
            omega arith
      ]

  -- A pixel that is not the last one of the screen ends before the last one starts.
  before_end :
      (x y : ℕ)
      → x < info.width
      → y < info.height
      → (suc x ≢ info.width) ⊎ (suc y ≢ info.height)
      → get_buffer_start_offset x y info + info.bytes_per_pixel ≤ end
  before_end x y hx hy ne = omega (
    arith,
    offset-index info x y hx hy,
    offset-index info (info.width - 1) (info.height - 1) (omega arith) (omega arith),
    times_bound (index info x y) (index info (info.width - 1) (info.height - 1))
        info.bytes_per_pixel (before_last x y hx hy ne),
  )

  moved_pixel :
      (m : Memory) (x y k : ℕ)
      → x < info.width
      → y + lines < info.height
      → k < info.bytes_per_pixel
      → (suc x ≢ info.width) ⊎ (suc (y + lines) ≢ info.height)
      → moved m (pixel_at fb info x y + k) ≡ m (pixel_at fb info x (y + lines) + k)
  unfolding copied
  moved_pixel m x y k hx hy hk ne =
      let e = offset-lines x y hx hy in let l = before_end x (y + lines) hx hy ne in ground arith

  last_pixel :
      (m : Memory) (y k : ℕ)
      → suc (y + lines) ≡ info.height
      → moved m (pixel_at fb info (info.width - 1) y + k)
        ≡ m (pixel_at fb info (info.width - 1) y + k)
  unfolding copied
  last_pixel m y k e =
      let at = offset-lines (info.width - 1) y (omega arith) (omega arith) in
      let row : y + lines ≡ info.height - 1 = omega arith in ground arith

  -- Once black lines are drawn, a pixel above them holds what it held when the lines had moved.
  above_black :
      (grey : Color → ℕ) (m m' : Memory) (x y k : ℕ)
      → x < info.width
      → y + lines < info.height
      → k < info.bytes_per_pixel
      → Painted fb info raw ready
          (InRect 0 (info.height - lines) info.width lines)
          (store_color grey m raw info.pixel_format black)
          m'
      → m' (pixel_at fb info x y + k) ≡ m (pixel_at fb info x y + k)
  above_black grey m m' x y k hx hy hk p =
      let inside = offset_in_bounds info x y ready.valid hx (omega arith) in
      p.kept (pixel_at fb info x y + k) (λ a b j ha hb hj r e.
        let lower : y ≢ b = omega arith in
        elim (offsets_apart info x y a b ready.valid hx (omega arith) ha hb (inr lower)) [
          | inl l ↦ omega arith
          | inr l ↦ omega arith
        ])
      ∙ store_color-elsewhere grey m raw info black (pixel_at fb info x y + k)
          (elim ready.apart [ inl l ↦ inr (omega arith) | inr l ↦ inl (omega arith) ])

  -- On a valid frame buffer of a supported format, at least a pixel wide, with the colour's bytes
  -- outside the surface and fewer lines than the screen is high, `shift_up` returns. Then every pixel of the screen
  -- `lines` above the bottom or higher holds what stood `lines` below it, but for the last pixel of
  -- the lowest such line, which keeps what it had; and the pixels further down are black.
  pub shift_up_lem :
      (grey : Color → ℕ) (m : Memory)
      → is_supported info.pixel_format ≡ true
      → (m' : Memory) × (shift_up grey m fb raw lines ≡ returns m')
        × ((x y k : ℕ)
            → x < info.width
            → y + lines < info.height
            → k < info.bytes_per_pixel
            → (suc x ≢ info.width) ⊎ (suc (y + lines) ≢ info.height)
            → m' (pixel_at fb info x y + k) ≡ m (pixel_at fb info x (y + lines) + k))
        × ((y k : ℕ)
            → suc (y + lines) ≡ info.height
            → k < info.bytes_per_pixel
            → m' (pixel_at fb info (info.width - 1) y + k)
              ≡ m (pixel_at fb info (info.width - 1) y + k))
        × ((x y k : ℕ)
            → x < info.width
            → y < info.height
            → info.height ≤ y + lines
            → k < depth info
            → m' (pixel_at fb info x y + k)
              ≡ store_color grey (moved m) raw info.pixel_format black (raw + k))
  shift_up_lem grey m supported =
      let (m', e, p) =
        draw_rect-Painted fb info raw ready grey black supported (moved m) 0 (info.height - lines)
          info.width lines (omega (arith, ready.valid.columns)) (omega (arith, ready.valid.rows)) in
      (
        m',
        shift_up-draws grey m ∙ e,
        λ x y k hx hy hk ne.
            above_black grey (moved m) m' x y k hx hy hk p ∙ moved_pixel m x y k hx hy hk ne,
        λ y k last hk.
            above_black grey (moved m) m' (info.width - 1) y k (omega arith) (omega arith) hk p
            ∙ last_pixel m y k last,
        λ x y k hx hy low hk. p.painted x y k hx hy hk (omega arith),
      )
