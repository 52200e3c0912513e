-- ===== src/Framebuffer/Tests.antt =====
-- Runs on a screen of four pixels by three, in lines of five pixels of four bytes.
use oxidized.Common.{
  ℕ, ◌+◌, ◌<◌, ◌≤◌, ◌≡◌, ◌≢◌, ◌⊎◌, inl, refl, arith, suc, ltb, if◌then◌else◌, some, true, returns,
}
use oxidized.Shared.Memcpy.{Memory}
use oxidized.Framebuffer.{
  FrameBufferInfo, KernelFramebuffer, rgb, Color, black, green, is_supported, store_color,
  draw_rect, shift_up, swap_buffer,
}
use oxidized.Framebuffer.Geometry.{IsValidInfo}
use oxidized.Framebuffer.Pixel.{IsReady, Painted, pixel_at, depth}
use oxidized.Framebuffer.Rect.{InRect, draw_rect-Painted}
use oxidized.Framebuffer.Scroll.{moved, shift_up_lem}
use oxidized.Framebuffer.Swap.{swap_buffer_lem}

abbrev info : FrameBufferInfo
info = record {
  byte_len = 60;
  width = 4;
  height = 3;
  pixel_format = rgb;
  bytes_per_pixel = 4;
  stride = 5;
}

abbrev fb : KernelFramebuffer
fb = record { info = some info; buffer = 1000; shadow_buffer = 2000; surface = 3000 }

abbrev info_IsValid : IsValidInfo info
info_IsValid = record {
  line = omega arith;
  whole = omega arith;
  columns = omega arith;
  rows = omega arith;
}

abbrev ready : IsReady fb info 100
ready = record { present = refl; valid = info_IsValid; apart = inl (omega arith) }

abbrev grey : Color → ℕ
grey c = 0

-- Every address holds its own number.
abbrev numbered : Memory
numbered a = a

rgb_is_supported : is_supported rgb ≡ true
unfolding is_supported
rgb_is_supported = refl

draw_rect-Painted_example :
    (m' : Memory) × (draw_rect grey numbered fb 100 2 1 7 9 green ≡ returns m')
    × Painted fb info 100 ready (InRect 2 1 7 9) (store_color grey numbered 100 rgb green) m'
draw_rect-Painted_example =
    draw_rect-Painted fb info 100 ready grey green rgb_is_supported numbered 2 1 7 9 (omega arith)
      (omega arith)

shift_up_lem_example :
    (m' : Memory) × (shift_up grey numbered fb 100 1 ≡ returns m')
    × ((x y k : ℕ)
        → x < 4
        → y + 1 < 3
        → k < 4
        → (suc x ≢ 4) ⊎ (suc (y + 1) ≢ 3)
        → m' (pixel_at fb info x y + k) ≡ numbered (pixel_at fb info x (y + 1) + k))
    × ((y k : ℕ)
        → suc (y + 1) ≡ 3
        → k < 4
        → m' (pixel_at fb info 3 y + k) ≡ numbered (pixel_at fb info 3 y + k))
    × ((x y k : ℕ)
        → x < 4
        → y < 3
        → 3 ≤ y + 1
        → k < depth info
        → m' (pixel_at fb info x y + k)
          ≡ store_color grey
              (moved fb info 100 ready 1 (omega arith) (omega arith) numbered)
              100
              rgb
              black
              (100 + k))
shift_up_lem_example =
    shift_up_lem fb info 100 ready 1 (omega arith) (omega arith) grey numbered rgb_is_supported

-- The screen and the shadow are all zero.
abbrev drawn : Memory
drawn a = if ltb a 3000 then 0 else 7

swap_buffer_lem_example :
    (m' : Memory) × (swap_buffer drawn fb ≡ returns m')
    × ((k : ℕ) → k < 60 → (m' (1000 + k) ≡ drawn (3000 + k)) × (m' (2000 + k) ≡ drawn (3000 + k)))
    × ((q : ℕ) → (q < 1000) ⊎ (1060 ≤ q) → (q < 2000) ⊎ (2060 ≤ q) → m' q ≡ drawn q)
swap_buffer_lem_example =
    swap_buffer_lem fb info drawn refl
      (record {
        buffer_shadow = inl (omega arith);
        buffer_surface = inl (omega arith);
        shadow_surface = inl (omega arith);
      })
      (λ k h. ground arith)
