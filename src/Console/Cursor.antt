-- ===== src/Console/Cursor.antt =====
-- Printing text: it returns, and the cursor stays on the screen.
use native.Mathlib.Nat.{mod-lt}
use oxidized.Common.{
  ℕ, zero, suc, ◌+◌, ◌-◌, ◌%◌, ◌/◌, ◌^◌, ◌≤◌, ◌<◌, ◌≡◌, ◌==◌, not, bit_and, refl, arith, leb,
  if◌then◌else◌, Bool, Bool-cases, true, inl, inr, some, List, [], ◌∷◌, get_elem?, get_elem?_total,
  length, returns,
}
use oxidized.Shared.Memcpy.{Memory}
use oxidized.Framebuffer.{
  FrameBufferInfo, KernelFramebuffer, Color, green, black, is_supported, sub_usize,
}
use oxidized.Framebuffer.Pixel.{IsReady}
use oxidized.Framebuffer.Rect.{set_pixel-Painted}
use oxidized.Framebuffer.Scroll.{shift_up_lem}
use oxidized.Console.{
  Glyph, glyph_width, pixel, glyph_of, Screen, draw_columns, draw_lines, draw, new_line_internal,
  put_glyph, new_line, put_char, print_chars,
}

-- A glyph that has a line, a byte for each line, and less height than the screen.
pub record IsGlyph (info : FrameBufferInfo) (glyph : Glyph) : Type 0 where
  pub some_line : 0 < glyph.height
  pub bytes : glyph.height ≤ length glyph.bytes
  pub low : glyph.height < info.height

pixel_total :
    (info : FrameBufferInfo) (glyph : Glyph) (x y : ℕ)
    → IsGlyph info glyph
    → (lit : Bool) × (pixel glyph x y ≡ returns lit)
unfolding pixel
pixel_total info glyph x y g =
    let bound : y % glyph.height < glyph.height = mod-lt y g.some_line in
    let (byte, e) = get_elem?_total glyph.bytes (y % glyph.height) (omega (arith, g.bytes)) in
    (not (bit_and byte (128 / 2 ^ (x % glyph_width)) == 0), ground (arith, e, g.some_line))

module _ (fb : KernelFramebuffer) (info : FrameBufferInfo) (raw : ℕ) (ready : IsReady fb info raw)
    (grey : Color → ℕ) (supported : is_supported info.pixel_format ≡ true)
    (wide : glyph_width ≤ info.width) where
  draw_columns_total :
      (n : ℕ) (glyph : Glyph) (m : Memory) (a b x y : ℕ)
      → IsGlyph info glyph
      → (m' : Memory) × (draw_columns grey fb raw n glyph m a b x y green black ≡ returns m')
  unfolding draw_columns
  draw_columns_total zero glyph m a b x y g = (m, refl)
  draw_columns_total (suc n) glyph m a b x y g =
      let (lit, e) = pixel_total info glyph x y g in
      let (m₁, e₁, p) =
        set_pixel-Painted fb info raw ready grey (if lit then green else black) supported m (a + x)
          (b + y) in
      let (m₂, e₂) = draw_columns_total n glyph m₁ a b (x + 1) y g in (m₂, rw (e, e₁) e₂)

  draw_lines_total :
      (n : ℕ) (glyph : Glyph) (m : Memory) (a b y : ℕ)
      → IsGlyph info glyph
      → (m' : Memory) × (draw_lines grey fb raw n glyph m a b y green black ≡ returns m')
  unfolding draw_lines
  draw_lines_total zero glyph m a b y g = (m, refl)
  draw_lines_total (suc n) glyph m a b y g =
      let (m₁, e₁) = draw_columns_total glyph_width glyph m a b 0 y g in
      let (m₂, e₂) = draw_lines_total n glyph m₁ a b (y + 1) g in (m₂, rw e₁ e₂)

  new_line_internal_total :
      (s : Screen) (glyph : Glyph)
      → IsGlyph info glyph
      → (m : Memory) × (new_line_internal grey fb raw s glyph
          ≡ returns (record { memory = m; x_position = 0 }))
  unfolding new_line_internal
  new_line_internal_total s glyph g =
      let (m, e, _, _, _) =
        shift_up_lem fb info raw ready glyph.height (omega arith) g.low grey s.memory supported in
      (m, rw e refl)

  -- Where the cursor stands after a glyph.
  abbrev pub cursor_after : ℕ → ℕ
  cursor_after x = if leb (info.width - glyph_width) x then 8 else x + 8

  put_glyph_lem :
      (s : Screen) (glyph : Glyph)
      → IsGlyph info glyph
      → (m : Memory) × (put_glyph grey fb raw s glyph
          ≡ returns (record { memory = m; x_position = cursor_after s.x_position }))
  unfolding put_glyph sub_usize draw
  put_glyph_lem s glyph g = elim (Bool-cases (leb (info.width - glyph_width) s.x_position)) [
    | inl full ↦
        let (m₁, e₁) = new_line_internal_total s glyph g in
        let (m₂, e₂) = draw_lines_total glyph.height glyph m₁ 0 (info.height - glyph.height) 0 g in
        (m₂, ground (arith, ready.present, g.low, e₁, e₂))
    | inr room ↦
        let (m₂, e₂) =
          draw_lines_total glyph.height glyph s.memory s.x_position (info.height - glyph.height) 0
            g in
        (m₂, ground (arith, ready.present, g.low, e₂))
  ]

  -- The font has a glyph for each ASCII code.
  abbrev pub IsFont : List Glyph → Type 0
  IsFont font =
      (c : ℕ) → c < 128 → (glyph : Glyph) × (get_elem? font c ≡ some glyph) × IsGlyph info glyph

  char_total :
      (font : List Glyph) (s : Screen) (c : ℕ)
      → IsFont font
      → c < 128
      → s.x_position ≤ info.width
      → (s' : Screen) × ((if c == 10
            then new_line grey raw font (some fb) s
            else put_char grey raw font (some fb) s c)
          ≡ returns s')
        × (s'.x_position ≤ info.width)
  unfolding new_line put_char glyph_of
  char_total font s c f h inside =
      let (space, at_space, good_space) = f 32 (omega arith) in
      let (glyph, at, good) = f c h in
      let (m₁, e₁) = new_line_internal_total s space good_space in
      let (m₂, e₂) = put_glyph_lem s glyph good in
      elim (Bool-cases (c == 10)) [
        | inl newline ↦
            (record { memory = m₁; x_position = 0 }, ground (arith, at_space, e₁), omega arith)
        | inr other ↦ (
          record { memory = m₂; x_position = cursor_after s.x_position },
          ground (arith, at, e₂),
          ground arith,
        )
      ]

  -- On a valid frame buffer of a supported format and at least a glyph wide, with the colour's bytes
  -- outside the surface and the cursor on the screen, and with a font that has for each
  -- ASCII code a glyph that is lower than the screen, printing any text returns, and leaves the cursor
  -- on the screen.
  pub print_chars-IsInside :
      (font : List Glyph) (s : Screen) (text : List ℕ)
      → IsFont font
      → s.x_position ≤ info.width
      → (s' : Screen) × (print_chars grey raw font (some fb) s text ≡ returns s')
        × (s'.x_position ≤ info.width)
  unfolding print_chars
  print_chars-IsInside font s [] f inside = (s, refl, inside)
  print_chars-IsInside font s (c ∷ cs) f inside = elim (Bool-cases (leb 128 c)) [
    | inl above ↦ let (s', e, i) = print_chars-IsInside font s cs f inside in (s', rw above e, i)
    | inr ascii ↦
        let (s₁, e₁, i₁) = char_total font s c f (ground arith) inside in
        let (s', e, i) = print_chars-IsInside font s₁ cs f i₁ in (s', rw (ascii, e₁) e, i)
  ]
