-- ===== src/Console.antt =====
-- kernel/src/console/mod.rs: the font, and text on the frame buffer.
pub mod Cursor
pub mod Font
mod Tests
use oxidized.Common.{
  ℕ, zero, suc, ◌+◌, ◌*◌, ◌/◌, ◌%◌, ◌^◌, ◌==◌, leb, ltb, if◌then◌else◌, ◌||◌, Bool, not, bit_and,
  Option, none, some, List, [], ◌∷◌, get_elem?, set, length, replicate, Outcome, returns, panics,
  ◌>>=◌, ◌>>◌, unwrap, assert,
}
use oxidized.Shared.Memcpy.{Memory}
use oxidized.Framebuffer.{KernelFramebuffer, Color, green, black, sub_usize, set_pixel, shift_up}

pub record Glyph : Type 0 where
  pub height : ℕ
  pub bytes : List ℕ

abbrev pub glyph_width : ℕ
glyph_width = 8

-- `Glyph::pixel`: a remainder by 0 and an index out of range panic.
pub pixel : Glyph → ℕ → ℕ → Outcome Bool
pixel glyph x y = if glyph.height == 0 then panics else (do
  byte ← unwrap (get_elem? glyph.bytes (y % glyph.height))
  returns (not (bit_and byte (128 / 2 ^ (x % glyph_width)) == 0)))

pub record FontHeader : Type 0 where
  pub magic : ℕ × ℕ
  pub mode : ℕ
  pub charsize : ℕ

-- `FontHeader::create`
pub create : List ℕ → Outcome FontHeader
create font_bytes = do
  assert (leb 4 (length font_bytes))
  magic_0 ← unwrap (get_elem? font_bytes 0)
  magic_1 ← unwrap (get_elem? font_bytes 1)
  mode ← unwrap (get_elem? font_bytes 2)
  charsize ← unwrap (get_elem? font_bytes 3)
  returns (record { magic = (magic_0, magic_1); mode = mode; charsize = charsize })

-- The inner loop of `Font::new`, with the bytes of the glyph that are left, from `x` on.
pub fill_glyph : ℕ → List ℕ → ℕ → ℕ → List ℕ → Outcome (List ℕ)
fill_glyph zero font_bytes base_index x glyph_bytes = returns glyph_bytes
fill_glyph (suc n) font_bytes base_index x glyph_bytes = do
  byte ← unwrap (get_elem? font_bytes (base_index + x))
  assert (ltb x (length glyph_bytes))
  fill_glyph n font_bytes base_index (x + 1) (set glyph_bytes x byte)

-- The outer one, with the glyphs that are left, from the one of code `i` on.
pub read_glyphs : ℕ → List ℕ → ℕ → ℕ → Outcome (List Glyph)
read_glyphs zero font_bytes charsize i = returns []
read_glyphs (suc n) font_bytes charsize i = do
  bytes ← fill_glyph charsize font_bytes (4 + i * charsize) 0 (replicate 32 0)
  rest ← read_glyphs n font_bytes charsize (i + 1)
  returns (record { height = charsize; bytes = bytes } ∷ rest)

-- `Font::new`, of the bytes of the font file: the glyphs by code.
pub new_font : List ℕ → Outcome (List Glyph)
new_font bytes = do
  first ← unwrap (get_elem? bytes 0)
  assert (first == 0x36)
  second ← unwrap (get_elem? bytes 1)
  assert (second == 0x04)
  header ← create bytes
  read_glyphs 256 bytes header.charsize 0

-- `Font::glyph`
pub glyph_of : List Glyph → ℕ → Outcome Glyph
glyph_of font c = unwrap (get_elem? font c)

-- The memory, and `CONSOLE_X_POSITION`.
pub record Screen : Type 0 where
  pub memory : Memory
  pub x_position : ℕ

module _ (grey : Color → ℕ) (fb : KernelFramebuffer) (raw : ℕ) where
  -- The inner loop of `Glyph::draw`, with the columns that are left, from `x` on.
  pub draw_columns : ℕ → Glyph → Memory → ℕ → ℕ → ℕ → ℕ → Color → Color → Outcome Memory
  draw_columns zero glyph m x_offset y_offset x y foreground background = returns m
  draw_columns (suc n) glyph m x_offset y_offset x y foreground background = do
    lit ← pixel glyph x y
    m' ←
        set_pixel grey m fb raw (x_offset + x) (y_offset + y)
          (if lit then foreground else background)
    draw_columns n glyph m' x_offset y_offset (x + 1) y foreground background

  -- The outer one, with the lines that are left, from `y` on.
  pub draw_lines : ℕ → Glyph → Memory → ℕ → ℕ → ℕ → Color → Color → Outcome Memory
  draw_lines zero glyph m x_offset y_offset y foreground background = returns m
  draw_lines (suc n) glyph m x_offset y_offset y foreground background = do
    m' ← draw_columns glyph_width glyph m x_offset y_offset 0 y foreground background
    draw_lines n glyph m' x_offset y_offset (y + 1) foreground background

  -- `Glyph::draw`
  pub draw : Glyph → Memory → ℕ → ℕ → Color → Color → Outcome Memory
  draw glyph m x_offset y_offset foreground background =
      draw_lines glyph.height glyph m x_offset y_offset 0 foreground background

  pub new_line_internal : Screen → Glyph → Outcome Screen
  new_line_internal s glyph = do
    m ← shift_up grey s.memory fb raw glyph.height
    returns (record { memory = m; x_position = 0 })

  -- `put_char` of a glyph, once there is a frame buffer.
  pub put_glyph : Screen → Glyph → Outcome Screen
  put_glyph s glyph = elim fb.info [
    | none ↦ returns s
    | some info ↦ do
      y_offset ← sub_usize info.height glyph.height
      limit ← sub_usize info.width glyph_width
      s₁ ← if leb limit s.x_position then new_line_internal s glyph else returns s
      m ← draw glyph s₁.memory s₁.x_position y_offset green black
      returns (record { memory = m; x_position = s₁.x_position + 8 })
  ]

-- `new_line` and `put_char`: without a frame buffer nothing happens.
module _ (grey : Color → ℕ) (raw : ℕ) where
  pub new_line : List Glyph → Option KernelFramebuffer → Screen → Outcome Screen
  new_line font frame_buffer s = elim frame_buffer [
    | none ↦ returns s
    | some fb ↦ do glyph ← glyph_of font b' '; new_line_internal grey fb raw s glyph
  ]

  pub put_char : List Glyph → Option KernelFramebuffer → Screen → ℕ → Outcome Screen
  put_char font frame_buffer s c = do
    glyph ← glyph_of font c
    elim frame_buffer [ none ↦ returns s | some fb ↦ put_glyph grey fb raw s glyph ]

  -- The loop of `_print`, over the code points of the text. Those above ASCII are passed over.
  pub print_chars : List Glyph → Option KernelFramebuffer → Screen → List ℕ → Outcome Screen
  print_chars font frame_buffer s [] = returns s
  print_chars font frame_buffer s (c ∷ cs) = do
    s' ←
        if leb 128 c
        then returns s
        else if c == 10
        then new_line font frame_buffer s
        else put_char font frame_buffer s c
    print_chars font frame_buffer s' cs
