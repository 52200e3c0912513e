-- ===== src/Framebuffer/Setup/Tests.antt =====
-- A screen of four pixels by four, taken over with an empty heap.
use oxidized.Common.{ℕ, ◌+◌, ◌≤◌, ◌<◌, ◌≡◌, ◌⊎◌, inl, inr, refl, arith, none, some, returns}
use oxidized.Crates.Concrete.{blocks}
use oxidized.Shared.Memcpy.{Memory}
use oxidized.Framebuffer.{rgb}
use oxidized.Framebuffer.Swap.{AreSeparate}
use oxidized.Framebuffer.Setup.{
  FrameBuffer, Screen, set_framebuffer, set_framebuffer_lem, swap_framebuffer,
}

abbrev boot_buffer : FrameBuffer
boot_buffer = record {
  info = record {
    byte_len = 64;
    width = 4;
    height = 4;
    pixel_format = rgb;
    bytes_per_pixel = 4;
    stride = 4;
  };
  address = 0xfd000000;
}

abbrev fresh : Screen blocks
fresh = record {
  memory = λ q. q;
  heap = 65536;
  framebuffer = record { info = none; buffer = 0; shadow_buffer = 0; surface = 0 };
}

apart :
    AreSeparate
      (record {
        info = some boot_buffer.info;
        buffer = 0xfd000000;
        shadow_buffer = 1048576;
        surface = 1049600;
      })
      64
apart = record {
  buffer_shadow = inr (omega arith);
  buffer_surface = inr (omega arith);
  shadow_surface = inl (omega arith);
}

set_framebuffer_lem_example :
    (s' : Screen blocks) × (set_framebuffer blocks fresh (some boot_buffer) ≡ returns s')
    × ((k : ℕ)
        → k < 64
        → (s'.memory (0xfd000000 + k) ≡ 0xfd000000 + k)
          × (s'.memory (1048576 + k) ≡ 0xfd000000 + k)
          × (s'.memory (1049600 + k) ≡ 0xfd000000 + k))
    × ((q : ℕ)
        → (q < 1048576) ⊎ (1048576 + 64 ≤ q)
        → (q < 1049600) ⊎ (1049600 + 64 ≤ q)
        → s'.memory q ≡ q)
    × (m : Memory) × (swap_framebuffer s'.memory s'.framebuffer ≡ returns m)
    × ((q : ℕ) → m q ≡ s'.memory q)
set_framebuffer_lem_example =
    set_framebuffer_lem blocks fresh boot_buffer 1048576 1049600 65600 65664 (omega arith) refl refl
      apart
