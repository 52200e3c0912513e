-- ===== src/Framebuffer/Swap.antt =====
-- swap_buffer: afterwards the screen and its shadow hold the surface.
use oxidized.Common.{
  ℕ, zero, suc, ◌+◌, ◌-◌, ◌*◌, ◌/◌, ◌%◌, ◌≤◌, ◌<◌, ◌≡◌, ◌⊎◌, inl, inr, arith, some, refl, true,
  Bool-cases, returns, ◌==◌, if◌then◌else◌, ◌∙◌, sym, subst, leb, ltb, ◌&&◌,
}
use oxidized.Shared.Memcpy.{Memory, copied}
use oxidized.Framebuffer.{
  FrameBufferInfo, KernelFramebuffer, same_word, swap_word, swap_words, swap_buffer,
}

-- Two ranges of `n` bytes that do not overlap.
abbrev pub AreApart : ℕ → ℕ → ℕ → Type 0
AreApart a b n = (a + n ≤ b) ⊎ (b + n ≤ a)

-- The three buffers do not overlap.
pub record AreSeparate (fb : KernelFramebuffer) (n : ℕ) : Type 0 where
  pub buffer_shadow : AreApart fb.buffer fb.shadow_buffer n
  pub buffer_surface : AreApart fb.buffer fb.surface n
  pub shadow_surface : AreApart fb.shadow_buffer fb.surface n

same_word-eq :
    (size : ℕ) (m : Memory) (a b k : ℕ)
    → same_word size m a b ≡ true
    → k < size
    → m (a + k) ≡ m (b + k)
unfolding same_word
same_word-eq zero m a b k e h = absurd (omega arith)
same_word-eq (suc size) m a b zero e h = ground (arith)
same_word-eq (suc size) m a b (suc k) e h = ground (arith, same_word-eq size m (a + 1) (b + 1) k)

module _ (fb : KernelFramebuffer) (n : ℕ) (apart : AreSeparate fb n) (m₀ : Memory) where
  -- The shadow holds what is on the screen.
  abbrev InSync : Type 0
  InSync = (k : ℕ) → k < n → m₀ (fb.buffer + k) ≡ m₀ (fb.shadow_buffer + k)

  -- The state of the loop when the first `i` bytes are done.
  record IsSwapped (i : ℕ) (m : Memory) : Type 0 where
    done_buffer : (k : ℕ) → k < i → m (fb.buffer + k) ≡ m₀ (fb.surface + k)
    done_shadow : (k : ℕ) → k < i → m (fb.shadow_buffer + k) ≡ m₀ (fb.surface + k)
    todo_buffer : (k : ℕ) → i ≤ k → k < n → m (fb.buffer + k) ≡ m₀ (fb.buffer + k)
    todo_shadow : (k : ℕ) → i ≤ k → k < n → m (fb.shadow_buffer + k) ≡ m₀ (fb.shadow_buffer + k)
    surface : (k : ℕ) → k < n → m (fb.surface + k) ≡ m₀ (fb.surface + k)
    elsewhere :
        (q : ℕ)
        → (q < fb.buffer) ⊎ (fb.buffer + n ≤ q)
        → (q < fb.shadow_buffer) ⊎ (fb.shadow_buffer + n ≤ q)
        → m q ≡ m₀ q

  -- The word at `i`, where it is equal already.
  equal_word :
      (size : ℕ) (m : Memory) (i k : ℕ)
      → same_word size m (fb.shadow_buffer + i) (fb.surface + i) ≡ true
      → i ≤ k
      → k < i + size
      → m (fb.shadow_buffer + k) ≡ m (fb.surface + k)
  equal_word size m i k e l h =
      let same : m (fb.shadow_buffer + i + (k - i)) ≡ m (fb.surface + i + (k - i)) =
        same_word-eq size m (fb.shadow_buffer + i) (fb.surface + i) (k - i) e (omega arith) in
      ground arith

  -- What one round leaves in each buffer, by the memory before it.
  swap_word-shadow :
      (size : ℕ) (m : Memory) (i k : ℕ)
      → i + size ≤ n
      → k < n
      → swap_word size m fb i (fb.shadow_buffer + k)
        ≡ (if leb i k && ltb k (i + size) then m (fb.surface + k) else m (fb.shadow_buffer + k))
  unfolding swap_word copied
  swap_word-shadow size m i k h hk = ground (
    arith,
    apart.buffer_shadow,
    apart.buffer_surface,
    apart.shadow_surface,
    equal_word size m i k,
  )

  swap_word-surface :
      (size : ℕ) (m : Memory) (i k : ℕ)
      → i + size ≤ n
      → k < n
      → swap_word size m fb i (fb.surface + k) ≡ m (fb.surface + k)
  unfolding swap_word copied
  swap_word-surface size m i k h hk = ground (arith, apart.buffer_surface, apart.shadow_surface)

  swap_word-buffer :
      (size : ℕ) (m : Memory) (i k : ℕ)
      → i + size ≤ n
      → k < n
      → (i ≤ k → m (fb.buffer + k) ≡ m (fb.shadow_buffer + k))
      → swap_word size m fb i (fb.buffer + k)
        ≡ (if leb i k && ltb k (i + size) then m (fb.surface + k) else m (fb.buffer + k))
  unfolding swap_word copied
  swap_word-buffer size m i k h hk sync =
      ground (arith, apart.buffer_shadow, apart.buffer_surface, equal_word size m i k)

  swap_word-elsewhere :
      (size : ℕ) (m : Memory) (i q : ℕ)
      → i + size ≤ n
      → (q < fb.buffer) ⊎ (fb.buffer + n ≤ q)
      → (q < fb.shadow_buffer) ⊎ (fb.shadow_buffer + n ≤ q)
      → swap_word size m fb i q ≡ m q
  unfolding swap_word copied
  swap_word-elsewhere size m i q h a b = ground arith

  swap_word-IsSwapped :
      (size : ℕ) (m : Memory) (i : ℕ)
      → i + size ≤ n
      → InSync
      → IsSwapped i m
      → IsSwapped (i + size) (swap_word size m fb i)
  swap_word-IsSwapped size m i h sync s = record {
    done_buffer = λ k l.
        let hk : k < n = omega arith in
        ground
          (arith, swap_word-buffer size m i k h hk (in_step k hk), s.done_buffer k, s.surface k);
    done_shadow =
        λ k l. ground (arith, swap_word-shadow size m i k h, s.done_shadow k, s.surface k);
    todo_buffer =
        λ k l hk. ground (arith, swap_word-buffer size m i k h hk (in_step k hk), s.todo_buffer k);
    todo_shadow = λ k l hk. ground (arith, swap_word-shadow size m i k h, s.todo_shadow k);
    surface = λ k hk. swap_word-surface size m i k h hk ∙ s.surface k hk;
    elsewhere = λ q a b. swap_word-elsewhere size m i q h a b ∙ s.elsewhere q a b;
  }
    where
      in_step : (k : ℕ) → k < n → i ≤ k → m (fb.buffer + k) ≡ m (fb.shadow_buffer + k)
      in_step k hk l = s.todo_buffer k l hk ∙ sync k hk ∙ sym (s.todo_shadow k l hk)

  swap_words-IsSwapped :
      (rounds size i : ℕ) (m : Memory)
      → i + rounds * size ≡ n
      → InSync
      → IsSwapped i m
      → IsSwapped n (swap_words rounds size m fb i)
  unfolding swap_words
  swap_words-IsSwapped zero size i m e sync s =
      let at : i ≡ n = omega arith in subst (λ j. IsSwapped j m) at s
  swap_words-IsSwapped (suc rounds) size i m e sync s =
      swap_words-IsSwapped rounds size (i + size) (swap_word size m fb i) (grind arith) sync
        (swap_word-IsSwapped size m i (grind arith) sync s)

  start-IsSwapped : IsSwapped 0 m₀
  start-IsSwapped = record {
    done_buffer = λ k l. absurd (omega arith);
    done_shadow = λ k l. absurd (omega arith);
    todo_buffer = λ k l h. refl;
    todo_shadow = λ k l h. refl;
    surface = λ k h. refl;
    elsewhere = λ q a b. refl;
  }

  all-IsSwapped :
      (rounds size : ℕ) → rounds * size ≡ n → InSync → IsSwapped n (swap_words rounds size m₀ fb 0)
  all-IsSwapped rounds size e sync =
      swap_words-IsSwapped rounds size 0 m₀ (omega (arith, e)) sync start-IsSwapped

-- Where the three buffers do not overlap and the shadow holds what is on the screen, `swap_buffer`
-- leaves the bytes of the surface in the screen's buffer and in the shadow, so that the shadow
-- holds what is on the screen again, and changes no other byte: in words of 8, 4 or 1 bytes alike.
pub swap_buffer_lem :
    (fb : KernelFramebuffer) (info : FrameBufferInfo) (m : Memory)
    → fb.info ≡ some info
    → AreSeparate fb info.byte_len
    → ((k : ℕ) → k < info.byte_len → m (fb.buffer + k) ≡ m (fb.shadow_buffer + k))
    → (m' : Memory) × (swap_buffer m fb ≡ returns m')
      × ((k : ℕ)
          → k < info.byte_len
          → (m' (fb.buffer + k) ≡ m (fb.surface + k))
            × (m' (fb.shadow_buffer + k) ≡ m (fb.surface + k)))
      × ((q : ℕ)
          → (q < fb.buffer) ⊎ (fb.buffer + info.byte_len ≤ q)
          → (q < fb.shadow_buffer) ⊎ (fb.shadow_buffer + info.byte_len ≤ q)
          → m' q ≡ m q)
unfolding swap_buffer
swap_buffer_lem fb info m e apart sync = elim (Bool-cases (info.byte_len % 8 == 0)) [
  | inl by_8 ↦
      let s : IsSwapped fb info.byte_len apart m info.byte_len _ =
        all-IsSwapped fb info.byte_len apart m (info.byte_len / 8) 8 (ground arith) sync in
      (_, ground arith, λ k h. (s.done_buffer k h, s.done_shadow k h), s.elsewhere)
  | inr not_8 ↦ elim (Bool-cases (info.byte_len % 4 == 0)) [
    | inl by_4 ↦
        let s = all-IsSwapped fb info.byte_len apart m (info.byte_len / 4) 4 (ground arith) sync in
        (_, ground arith, λ k h. (s.done_buffer k h, s.done_shadow k h), s.elsewhere)
    | inr not_4 ↦
        let s = all-IsSwapped fb info.byte_len apart m info.byte_len 1 (omega arith) sync in
        (_, ground arith, λ k h. (s.done_buffer k h, s.done_shadow k h), s.elsewhere)
  ]
]
