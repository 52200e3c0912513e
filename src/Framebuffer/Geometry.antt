-- ===== src/Framebuffer/Geometry.antt =====
-- Where pixels lie in a buffer: inside it, and apart from one another.
use native.Mathlib.Nat.{mod-eq_of_lt}
use oxidized.Common.{ℕ, ◌^◌, ◌+◌, ◌*◌, ◌≤◌, ◌<◌, ◌≡◌, ◌≢◌, ◌⊎◌, inl, inr, arith, dec_lt, ap, ap₂}
use oxidized.Framebuffer.{FrameBufferInfo, get_buffer_start_offset}

-- A line is as long as its pixels, the buffer holds every line, and the width and the height are
-- numbers of 64 bits.
pub record IsValidInfo (info : FrameBufferInfo) : Type 0 where
  pub line : info.width ≤ info.stride
  pub whole : info.stride * info.height * info.bytes_per_pixel ≤ info.byte_len
  pub columns : info.width < 2 ^ 64
  pub rows : info.height < 2 ^ 64

-- The number of a pixel in the buffer.
abbrev pub index : FrameBufferInfo → ℕ → ℕ → ℕ
index info x y = x + y * info.stride

pub index_bound :
    (stride height x y : ℕ) → x < stride → y < height → x + y * stride + 1 ≤ stride * height
index_bound stride height x y hx hy = grind arith

pub times_bound : (a b k : ℕ) → a + 1 ≤ b → a * k + k ≤ b * k
times_bound a b k h = grind arith

pub offset-index :
    (info : FrameBufferInfo) (x y : ℕ)
    → x < info.width
    → y < info.height
    → get_buffer_start_offset x y info ≡ index info x y * info.bytes_per_pixel
unfolding get_buffer_start_offset
offset-index info x y hx hy =
    ap (λ (t : ℕ). t * info.bytes_per_pixel)
      (ap₂ (λ (a b : ℕ). a + b * info.stride) (mod-eq_of_lt hx) (mod-eq_of_lt hy))

-- The bytes of a pixel on the screen lie inside the buffer.
pub offset_in_bounds :
    (info : FrameBufferInfo) (x y : ℕ)
    → IsValidInfo info
    → x < info.width
    → y < info.height
    → get_buffer_start_offset x y info + info.bytes_per_pixel ≤ info.byte_len
offset_in_bounds info x y v hx hy =
    let hs : x < info.stride = omega (arith, v.line) in
    omega (
      arith,
      offset-index info x y hx hy,
      times_bound (index info x y) (info.stride * info.height) info.bytes_per_pixel
          (index_bound info.stride info.height x y hs hy),
      v.whole,
    )

pub index_lt :
    (stride x y x' y' : ℕ) → x < stride → x' < stride → y < y' → x + y * stride < x' + y' * stride
index_lt stride x y x' y' h h' l = grind arith

index_apart :
    (stride x y x' y' : ℕ)
    → x < stride
    → x' < stride
    → (x ≢ x') ⊎ (y ≢ y')
    → (x + y * stride < x' + y' * stride) ⊎ (x' + y' * stride < x + y * stride)
index_apart stride x y x' y' h h' ne = elim (dec_lt y y') [
  | yes l ↦ inl (index_lt stride x y x' y' h h' l)
  | no nl ↦ elim (dec_lt y' y) [
    | yes l ↦ inr (index_lt stride x' y' x y h' h l)
    | no nr ↦
        let same : y ≡ y' = omega arith in
        let row : y * stride ≡ y' * stride = ap (λ (t : ℕ). t * stride) same in omega arith
  ]
]

-- The bytes of two different pixels on the screen do not overlap.
pub offsets_apart :
    (info : FrameBufferInfo) (x y x' y' : ℕ)
    → IsValidInfo info
    → x < info.width
    → y < info.height
    → x' < info.width
    → y' < info.height
    → (x ≢ x') ⊎ (y ≢ y')
    → (get_buffer_start_offset x y info + info.bytes_per_pixel ≤ get_buffer_start_offset x' y' info)
      ⊎ (get_buffer_start_offset x' y' info + info.bytes_per_pixel
          ≤ get_buffer_start_offset x y info)
offsets_apart info x y x' y' v hx hy hx' hy' ne =
    let s : x < info.stride = omega (arith, v.line) in
    let s' : x' < info.stride = omega (arith, v.line) in
    let at : get_buffer_start_offset x y info ≡ index info x y * info.bytes_per_pixel =
      offset-index info x y hx hy in
    let at' : get_buffer_start_offset x' y' info ≡ index info x' y' * info.bytes_per_pixel =
      offset-index info x' y' hx' hy' in
    elim (index_apart info.stride x y x' y' s s' ne) [
      | inl l ↦ omega (
        arith,
        at,
        at',
        times_bound (index info x y) (index info x' y') info.bytes_per_pixel (omega arith),
      )
      | inr l ↦ omega (
        arith,
        at,
        at',
        times_bound (index info x' y') (index info x y) info.bytes_per_pixel (omega arith),
      )
    ]
