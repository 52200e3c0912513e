-- ===== src/Framebuffer/Setup.antt =====
-- framebuffer/mod.rs, FrameBufferWrapper, init_framebuffer and swap_framebuffer: how the kernel takes
-- over the boot loader's frame buffer.
mod Tests
use oxidized.Common.{
  ℕ, ◌+◌, ◌-◌, ◌*◌, ◌^◌, ◌≤◌, ◌<◌, ◌≡◌, refl, sym, ◌∙◌, ap, subst, arith, ◌⊎◌, inl, inr, ltb, leb,
  lt→ltb, le→leb, le→ltb, dec_lt, if◌then◌else◌, ◌&&◌, Option, none, some, Outcome, returns, panics,
  ◌>>=◌, List,
}
use oxidized.Common.TreeMap.{TreeMap}
use oxidized.Shared.Memcpy.{Memory, memcpy, memcpy_lem, copied, copied_in, copied_out, CanCopy}
use oxidized.Memory.Kmalloc.{Kmalloc}
use oxidized.Devices.{Device, register, framebuffer_device}
use oxidized.Framebuffer.{FrameBufferInfo, KernelFramebuffer, swap_buffer}
use oxidized.Framebuffer.Swap.{AreApart, AreSeparate, swap_buffer_lem}

-- The boot loader's `FrameBuffer`: what it says of itself, and where its bytes stand.
pub record FrameBuffer : Type 0 where
  pub info : FrameBufferInfo
  pub address : ℕ

-- `FrameBufferWrapper::get_framebuffer`, of `FRAME_BUFFER_INTERNAL`
pub get_framebuffer : KernelFramebuffer → Option KernelFramebuffer
get_framebuffer fb = elim fb.info [ some _ ↦ some fb | none ↦ none ]

pub swap_framebuffer : Memory → KernelFramebuffer → Outcome Memory
swap_framebuffer m fb = elim (get_framebuffer fb) [
  | some kfb ↦ swap_buffer m kfb
  | none ↦ returns m
]

-- `Layout::from_size_align(size, 16).unwrap()`: the size, rounded up, is at most `isize::MAX`.
pub layout_size : ℕ → Outcome ℕ
layout_size size = if leb size (2 ^ 63 - 16) then returns size else panics

module _ (K : Kmalloc) where
  open K use {Heap, kmalloc}

  -- What `set_framebuffer` changes.
  pub record Screen : Type 0 where
    pub memory : Memory
    pub heap : Heap
    pub framebuffer : KernelFramebuffer

  pub set_framebuffer : Screen → Option FrameBuffer → Outcome Screen
  set_framebuffer s none = returns s
  set_framebuffer s (some fb) = do
    size ← layout_size fb.info.byte_len
    shadow ← kmalloc s.heap size 16
    surface ← kmalloc shadow.1 size 16
    let m₁ = memcpy s.memory shadow.0 fb.address size
    let m₂ = memcpy m₁ surface.0 shadow.0 size
    returns (record {
      memory = m₂;
      heap = surface.1;
      framebuffer = record {
        info = some fb.info;
        buffer = fb.address;
        shadow_buffer = shadow.0;
        surface = surface.0;
      };
    })

  -- The search for the device's id is on fuel.
  pub init_framebuffer :
      ℕ → Screen → TreeMap Device → Option FrameBuffer → Outcome (Screen × TreeMap Device)
  init_framebuffer fuel s tree frame_buffer = do
    s' ← set_framebuffer s frame_buffer
    r ← register fuel tree framebuffer_device
    returns (s', r.1)

  -- The two copies of `set_framebuffer`.
  module _ (m : Memory) (a b c n : ℕ) (ab : AreApart a b n) (ac : AreApart a c n)
      (bc : AreApart b c n) where
    abbrev both : Memory
    both = copied (copied m b a n) c b n

    off : {x y : ℕ} (k : ℕ) → AreApart x y n → k < n → (x + k < y) ⊎ (y + n ≤ x + k)
    off k h l = elim h [ inl p ↦ inl (omega arith) | inr p ↦ inr (omega arith) ]

    both_buffer : (k : ℕ) → k < n → both (a + k) ≡ m (a + k)
    both_buffer k l =
        copied_out (copied m b a n) c b n (a + k) (off k ac l)
        ∙ copied_out m b a n (a + k) (off k ab l)

    both_shadow : (k : ℕ) → k < n → both (b + k) ≡ m (a + k)
    both_shadow k l = copied_out (copied m b a n) c b n (b + k) (off k bc l) ∙ copied_in m b a n k l

    both_surface : (k : ℕ) → k < n → both (c + k) ≡ m (a + k)
    both_surface k l = copied_in (copied m b a n) c b n k l ∙ copied_in m b a n k l

    both_elsewhere : (q : ℕ) → (q < b) ⊎ (b + n ≤ q) → (q < c) ⊎ (c + n ≤ q) → both q ≡ m q
    both_elsewhere q hb hc = copied_out (copied m b a n) c b n q hc ∙ copied_out m b a n q hb

    can : {x y : ℕ} → AreApart x y n → CanCopy y x n
    can h = elim h [ inl p ↦ inr (omega arith) | inr p ↦ inl (omega arith) ]

    both-memcpy : memcpy (memcpy m b a n) c b n ≡ both
    both-memcpy =
        memcpy_lem _ c b n (can bc) ∙ ap (λ r. copied r c b n) (memcpy_lem m b a n (can ab))

    -- Two memories that agree on the screen and the shadow, and off them, agree.
    agree :
        {m₁ m₂ : Memory}
        → ((k : ℕ) → k < n → (m₁ (a + k) ≡ m₂ (a + k)) × (m₁ (b + k) ≡ m₂ (b + k)))
        → ((q : ℕ) → (q < a) ⊎ (a + n ≤ q) → (q < b) ⊎ (b + n ≤ q) → m₁ q ≡ m₂ q)
        → (q : ℕ) → m₁ q ≡ m₂ q
    agree {m₁} {m₂} same rest q = elim (within a) [
      | inl (k, l, e) ↦ subst (λ p. m₁ p ≡ m₂ p) e (same k l).0
      | inr out_a ↦ elim (within b) [
        | inl (k, l, e) ↦ subst (λ p. m₁ p ≡ m₂ p) e (same k l).1
        | inr out_b ↦ rest q out_a out_b
      ]
    ]
      where
        within : (x : ℕ) → ((k : ℕ) × (k < n) × (x + k ≡ q)) ⊎ ((q < x) ⊎ (x + n ≤ q))
        within x = elim (dec_lt q x) [
          | yes below ↦ inr (inl below)
          | no above ↦ elim (dec_lt q (x + n)) [
            | yes inside ↦ inl (q - x, omega arith, omega arith)
            | no beyond ↦ inr (inr (omega arith))
          ]
        ]

  -- Where a buffer has at most 2^63 - 16 bytes and the heap gives two blocks that do not overlap
  -- each other or the screen, set_framebuffer returns with both of them holding what is on the
  -- screen, and with no byte changed outside them; and a swap right after it changes no byte at
  -- all.
  pub set_framebuffer_lem :
      (s : Screen) (fb : FrameBuffer) (shadow surface : ℕ) (h₁ h₂ : Heap)
      → fb.info.byte_len ≤ 2 ^ 63 - 16
      → kmalloc s.heap fb.info.byte_len 16 ≡ returns (shadow, h₁)
      → kmalloc h₁ fb.info.byte_len 16 ≡ returns (surface, h₂)
      → AreSeparate
          (record {
            info = some fb.info;
            buffer = fb.address;
            shadow_buffer = shadow;
            surface = surface;
          })
          fb.info.byte_len
      → (s' : Screen) × (set_framebuffer s (some fb) ≡ returns s')
        × ((k : ℕ)
            → k < fb.info.byte_len
            → (s'.memory (fb.address + k) ≡ s.memory (fb.address + k))
              × (s'.memory (shadow + k) ≡ s.memory (fb.address + k))
              × (s'.memory (surface + k) ≡ s.memory (fb.address + k)))
        × ((q : ℕ)
            → (q < shadow) ⊎ (shadow + fb.info.byte_len ≤ q)
            → (q < surface) ⊎ (surface + fb.info.byte_len ≤ q)
            → s'.memory q ≡ s.memory q)
        × (m : Memory) × (swap_framebuffer s'.memory s'.framebuffer ≡ returns m)
        × ((q : ℕ) → m q ≡ s'.memory q)
  unfolding set_framebuffer layout_size swap_framebuffer get_framebuffer
  set_framebuffer_lem s fb shadow surface h₁ h₂ small e₁ e₂ apart =
      let n = fb.info.byte_len in
      let m = s.memory in
      let a = fb.address in
      let ab = apart.buffer_shadow in
      let ac = apart.buffer_surface in
      let bc = apart.shadow_surface in
      let fb' : KernelFramebuffer = record {
        info = some fb.info;
        buffer = a;
        shadow_buffer = shadow;
        surface = surface;
      } in
      let m₂ = both m a shadow surface n ab ac bc in
      let (m₃, swapped, same, rest) = swap_buffer_lem fb' fb.info m₂ refl apart (λ k l.
        both_buffer m a shadow surface n ab ac bc k l
        ∙ sym (both_shadow m a shadow surface n ab ac bc k l)) in
      (
        record { memory = m₂; heap = h₂; framebuffer = fb' },
        rw (le→leb n (2 ^ 63 - 16) small, e₁, e₂, both-memcpy m a shadow surface n ab ac bc) refl,
        λ k l. (
          both_buffer m a shadow surface n ab ac bc k l,
          both_shadow m a shadow surface n ab ac bc k l,
          both_surface m a shadow surface n ab ac bc k l,
        ),
        both_elsewhere m a shadow surface n ab ac bc,
        m₃,
        swapped,
        agree m a shadow surface n ab ac bc
            (λ k l.
              (let on = both_surface m a shadow surface n ab ac bc k l in
                (
                  (same k l).0 ∙ on ∙ sym (both_buffer m a shadow surface n ab ac bc k l),
                  (same k l).1 ∙ on ∙ sym (both_shadow m a shadow surface n ab ac bc k l),
                )))
            rest,
      )
