-- ===== src/Framebuffer.antt =====
-- kernel/src/framebuffer/mod.rs: pixels in the surface, and the copy of the surface to the screen.
pub mod Geometry
pub mod Pixel
pub mod Rect
pub mod Scroll
pub mod Swap
pub mod Setup
mod Tests
use oxidized.Common.{
  ℕ, ◌^◌, zero, suc, ◌+◌, ◌-◌, ◌*◌, ◌/◌, ◌%◌, ◌==◌, leb, ltb, if◌then◌else◌, Bool, true, false,
  ◌||◌, ◌&&◌, min, Option, none, some, List, [], ◌∷◌, length, Outcome, returns, panics, ◌>>=◌,
  unwrap,
}
use oxidized.Shared.Memcpy.{Memory, memcpy, copied, store_byte}

-- The pixel formats of the boot loader that the source tells apart; `other` is any further one.
pub data PixelFormat : Type 0 where
  rgb bgr u8 other : PixelFormat

-- What the source reads of the boot loader's `FrameBufferInfo`.
pub record FrameBufferInfo : Type 0 where
  pub byte_len : ℕ
  pub width : ℕ
  pub height : ℕ
  pub pixel_format : PixelFormat
  pub bytes_per_pixel : ℕ
  pub stride : ℕ

-- `KernelFramebuffer`: three buffers of `byte_len` bytes, by address.
pub record KernelFramebuffer : Type 0 where
  pub info : Option FrameBufferInfo
  pub buffer : ℕ
  pub shadow_buffer : ℕ
  pub surface : ℕ

pub record Color : Type 0 where
  pub r : ℕ
  pub g : ℕ
  pub b : ℕ

-- The named colours.
pub red : Color
red = record { r = 255; g = 0; b = 0 }

pub green : Color
green = record { r = 0; g = 255; b = 0 }

pub blue : Color
blue = record { r = 0; g = 0; b = 0 }

pub white : Color
white = record { r = 255; g = 255; b = 255 }

pub black : Color
black = record { r = 0; g = 0; b = 0 }

unfoldable pub is_supported : PixelFormat → Bool
is_supported rgb = true
is_supported bgr = true
is_supported u8 = true
is_supported other = false

-- `a - b` on usize, with overflow checks.
unfoldable pub sub_usize : ℕ → ℕ → Outcome ℕ
sub_usize a b = if leb b a then returns (a - b) else panics

pub get_buffer_start_offset : ℕ → ℕ → FrameBufferInfo → ℕ
get_buffer_start_offset x y info =
    (x % info.width + y % info.height * info.stride) * info.bytes_per_pixel

-- `dst[dst_offset..]` and `src[src_offset..]` of two slices, given by address and length, and the
-- copy between them. `memcpy` itself checks no bound.
pub copy_range : Memory → ℕ → ℕ → ℕ → ℕ → ℕ → ℕ → ℕ → Outcome Memory
copy_range m dst dst_len src src_len src_offset dst_offset count =
    if ltb dst_len dst_offset || ltb src_len src_offset
    then panics
    else returns (memcpy m (dst + dst_offset) (src + src_offset) count)

-- `copy_range_self`
pub copy_range_self : Memory → ℕ → ℕ → ℕ → ℕ → ℕ → Outcome Memory
copy_range_self m dst dst_len src_offset dst_offset count =
    copy_range m dst dst_len dst dst_len src_offset dst_offset count

-- Three bytes at an address.
pub store_three : Memory → ℕ → ℕ → ℕ → ℕ → Memory
store_three m a x y z = store_byte (store_byte (store_byte m a x) (a + 1) y) (a + 2) z

pub set_pixel_raw : Memory → KernelFramebuffer → ℕ → ℕ → ℕ → ℕ → Outcome Memory
set_pixel_raw m fb x y color color_len = elim fb.info [
  | none ↦ returns m
  | some fbi ↦
      if leb fbi.width x || leb fbi.height y
      then returns m
      else copy_range m fb.surface fbi.byte_len color color_len 0 (get_buffer_start_offset x y fbi)
          (min fbi.bytes_per_pixel color_len)
]

-- The inner loop of `draw_rect`, with the columns that are left. `x` is `x + x_offset` before the
-- addition wraps.
pub draw_row : ℕ → Memory → KernelFramebuffer → ℕ → ℕ → ℕ → Outcome Memory
draw_row zero m fb x y color = returns m
draw_row (suc n) m fb x y color = do
  m' ← set_pixel_raw m fb (x % 2 ^ 64) y color 3
  draw_row n m' fb (x + 1) y color

-- The outer one, with the rows that are left, and `y` in the same way.
pub draw_rows : ℕ → Memory → KernelFramebuffer → ℕ → ℕ → ℕ → ℕ → Outcome Memory
draw_rows zero m fb x y width color = returns m
draw_rows (suc n) m fb x y width color = do
  m' ← draw_row width m fb x (y % 2 ^ 64) color
  draw_rows n m' fb x (y + 1) width color

-- Whether two words of `size` bytes are equal.
pub same_word : ℕ → Memory → ℕ → ℕ → Bool
same_word zero m a b = true
same_word (suc size) m a b = m a == m b && same_word size m (a + 1) (b + 1)

-- One round of a loop of `swap_buffer`, at the word `offset` bytes in. An assignment of a word reads
-- it whole before it writes.
pub swap_word : ℕ → Memory → KernelFramebuffer → ℕ → Memory
swap_word size m fb offset =
    if same_word size m (fb.shadow_buffer + offset) (fb.surface + offset)
    then m
    else copied (copied m (fb.buffer + offset) (fb.surface + offset) size)
        (fb.shadow_buffer + offset) (fb.surface + offset) size

-- The loop, with the rounds that are left.
pub swap_words : ℕ → ℕ → Memory → KernelFramebuffer → ℕ → Memory
swap_words zero size m fb offset = m
swap_words (suc rounds) size m fb offset =
    swap_words rounds size (swap_word size m fb offset) fb (offset + size)

pub swap_buffer : Memory → KernelFramebuffer → Outcome Memory
swap_buffer m fb = do
  info ← unwrap fb.info
  returns (
      if info.byte_len % 8 == 0
      then swap_words (info.byte_len / 8) 8 m fb 0
      else if info.byte_len % 4 == 0
      then swap_words (info.byte_len / 4) 4 m fb 0
      else swap_words info.byte_len 1 m fb 0)

-- `grey` is the greyscale byte that the f32 arithmetic of `Color::to_framebuffer_color` comes to.
-- `raw` is where the three bytes of the colour stand: an array on the stack, or a box.
module _ (grey : Color → ℕ) where
  -- `Color::to_framebuffer_color`, into a zeroed array of three bytes.
  pub color_bytes : Color → PixelFormat → ℕ × ℕ × ℕ
  color_bytes c bgr = (c.b, c.g, c.r)
  color_bytes c rgb = (c.r, c.g, c.b)
  color_bytes c u8 = (grey c, 0, 0)
  color_bytes c other = (0, 0, 0)

  pub store_color : Memory → ℕ → PixelFormat → Color → Memory
  store_color m raw format c = let (x, y, z) = color_bytes c format in store_three m raw x y z

  pub set_pixel : Memory → KernelFramebuffer → ℕ → ℕ → ℕ → Color → Outcome Memory
  set_pixel m fb raw x y c = elim fb.info [
    | none ↦ returns m
    | some fbi ↦
        if is_supported fbi.pixel_format
        then set_pixel_raw (store_color m raw fbi.pixel_format c) fb x y raw 3
        else returns m
  ]

  pub draw_rect : Memory → KernelFramebuffer → ℕ → ℕ → ℕ → ℕ → ℕ → Color → Outcome Memory
  draw_rect m fb raw x y width height c = elim fb.info [
    | none ↦ returns m
    | some fbi ↦
        if is_supported fbi.pixel_format
        then draw_rows height (store_color m raw fbi.pixel_format c) fb x y width raw
        else returns m
  ]

  pub clear : Memory → KernelFramebuffer → ℕ → Color → Outcome Memory
  clear m fb raw c = elim fb.info [
    | none ↦ returns m
    | some info ↦ draw_rect m fb raw 0 0 info.width info.height c
  ]

  pub shift_up : Memory → KernelFramebuffer → ℕ → ℕ → Outcome Memory
  shift_up m fb raw lines = elim fb.info [
    | none ↦ returns m
    | some info ↦ do
      let start_offset = get_buffer_start_offset 0 lines info
      last_x ← sub_usize info.width 1
      last_y ← sub_usize info.height 1
      let end_offset = get_buffer_start_offset last_x last_y info
      copy_length ← sub_usize end_offset start_offset
      m' ← copy_range_self m fb.surface info.byte_len start_offset 0 copy_length
      first_line ← sub_usize info.height lines
      draw_rect m' fb raw 0 first_line info.width lines black
  ]
