-- ===== src/Console/Tests.antt =====
-- A font of one-line glyphs, and a text on a screen of two glyphs by three lines.
use oxidized.Common.{
  ℕ, zero, suc, ◌<◌, ◌≤◌, ◌≡◌, refl, inl, arith, some, List, [], ◌∷◌, get_elem?, replicate, true,
  returns,
}
use oxidized.Framebuffer.{FrameBufferInfo, KernelFramebuffer, rgb, Color, is_supported}
use oxidized.Framebuffer.Pixel.{IsReady}
use oxidized.Console.{Glyph, Screen, new_font, print_chars}
use oxidized.Console.Font.{IsGlyphOf, new_font_lem}
use oxidized.Console.Cursor.{IsFont, print_chars-IsInside}

abbrev font_bytes : List ℕ
font_bytes = 0x36 ∷ 0x04 ∷ 0 ∷ 1 ∷ replicate 256 129

new_font_lem_example :
    (font : List Glyph) × (new_font font_bytes ≡ returns font)
    × ((c : ℕ)
        → c < 256
        → (glyph : Glyph) × (get_elem? font c ≡ some glyph) × IsGlyphOf font_bytes 1 c glyph)
new_font_lem_example = new_font_lem font_bytes 0 1 refl refl refl refl (omega arith) (omega arith)

abbrev info : FrameBufferInfo
info = record {
  byte_len = 192;
  width = 16;
  height = 3;
  pixel_format = rgb;
  bytes_per_pixel = 4;
  stride = 16;
}

abbrev fb : KernelFramebuffer
fb = record { info = some info; buffer = 1000; shadow_buffer = 2000; surface = 3000 }

abbrev ready : IsReady fb info 100
ready = record {
  present = refl;
  valid = record {
    line = omega arith;
    whole = omega arith;
    columns = omega arith;
    rows = omega arith;
  };
  apart = inl (omega arith);
}

abbrev grey : Color → ℕ
grey c = 0

rgb_is_supported : is_supported rgb ≡ true
unfolding is_supported
rgb_is_supported = refl

abbrev glyph : Glyph
glyph = record { height = 1; bytes = 129 ∷ [] }

get_elem?-replicate : (n : ℕ) (g : Glyph) (c : ℕ) → c < n → get_elem? (replicate n g) c ≡ some g
get_elem?-replicate zero g c h = absurd (omega arith)
get_elem?-replicate (suc n) g zero h = refl
get_elem?-replicate (suc n) g (suc c) h = get_elem?-replicate n g c (omega arith)

font : IsFont fb info 100 ready grey rgb_is_supported (omega arith) (replicate 128 glyph)
font c h = (
  glyph,
  get_elem?-replicate 128 glyph c h,
  record { some_line = omega arith; bytes = omega arith; low = omega arith },
)

abbrev start : Screen
start = record { memory = λ a. 0; x_position = 8 }

print_chars-IsInside_example :
    (s' : Screen) × (print_chars grey 100
        (replicate 128 glyph)
        (some fb)
        start
        (b'o' ∷ b'k' ∷ 10 ∷ 955 ∷ [])
      ≡ returns s')
    × (s'.x_position ≤ 16)
print_chars-IsInside_example =
    print_chars-IsInside fb info 100 ready grey rgb_is_supported (omega arith) (replicate 128 glyph)
      start (b'o' ∷ b'k' ∷ 10 ∷ 955 ∷ []) font (omega arith)
