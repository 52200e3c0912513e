-- ===== src/Shared/Memcpy.antt =====
-- kernel_shared/src/memory.rs: memcpy by words and then by bytes, over one byte-addressed memory.
mod Tests
use oxidized.Common.{
  ℕ, zero, suc, ◌+◌, ◌-◌, ◌*◌, ◌/◌, ◌%◌, ◌<◌, ◌≤◌, ◌≡◌, refl, ◌⊎◌, inl, inr, Bool, ◌&&◌, leb, ltb,
  ◌==◌, if◌then◌else◌, arith, fun_ext, ap, ◌∙◌, sym,
}

-- What each address holds.
abbrev pub Memory : Type 0
Memory = ℕ → ℕ

abbrev pub arch_word_size : ℕ
arch_word_size = 8

-- The bytes of the word at an address, and a write of such a word.
pub load_word : Memory → ℕ → ℕ → ℕ
load_word m a k = m (a + k)

unfoldable pub store_word : Memory → ℕ → (ℕ → ℕ) → Memory
store_word m a word q = if leb a q && ltb q (a + arch_word_size) then word (q - a) else m q

unfoldable pub store_byte : Memory → ℕ → ℕ → Memory
store_byte m a byte q = if a == q then byte else m q

-- The first loop of `memcpy`, with the rounds that are left.
pub copy_words : ℕ → Memory → ℕ → ℕ → ℕ → Memory
copy_words zero m dest src i = m
copy_words (suc rounds) m dest src i =
    copy_words rounds (store_word m (dest + i) (load_word m (src + i))) dest src
      (i + arch_word_size)

-- The second one.
pub copy_bytes : ℕ → Memory → ℕ → ℕ → ℕ → Memory
copy_bytes zero m dest src i = m
copy_bytes (suc rounds) m dest src i =
    copy_bytes rounds (store_byte m (dest + i) (m (src + i))) dest src (i + 1)

pub memcpy : Memory → ℕ → ℕ → ℕ → Memory
memcpy m dest src n =
    let n_usize = n / arch_word_size in
    let n_fast = n_usize * arch_word_size in
    copy_bytes (n - n_fast) (copy_words n_usize m dest src 0) dest src n_fast

-- The memory with the `n` bytes from `src` on put at `dest`, all read before any is written.
unfoldable pub copied : Memory → ℕ → ℕ → ℕ → Memory
copied m dest src n q = if leb dest q && ltb q (dest + n) then m (src + (q - dest)) else m q

pub copied_in :
    (m : Memory) (dest src n k : ℕ) → k < n → copied m dest src n (dest + k) ≡ m (src + k)
unfolding copied
copied_in m dest src n k h = ground arith

pub copied_out :
    (m : Memory) (dest src n q : ℕ) → (q < dest) ⊎ (dest + n ≤ q) → copied m dest src n q ≡ m q
unfolding copied
copied_out m dest src n q h = ground arith

-- Copying upwards is safe if the target starts below the source, or the two do not overlap.
abbrev pub CanCopy : ℕ → ℕ → ℕ → Type 0
CanCopy dest src n = (dest ≤ src) ⊎ (src + n ≤ dest)

module _ (m : Memory) (dest src n : ℕ) (safe : CanCopy dest src n) where
  copied_word :
      (i : ℕ)
      → i + 8 ≤ n
      → store_word (copied m dest src i) (dest + i) (load_word (copied m dest src i) (src + i))
        ≡ copied m dest src (i + 8)
  unfolding store_word load_word copied
  copied_word i h = fun_ext λ q. ground arith

  copied_byte :
      (i : ℕ)
      → i + 1 ≤ n
      → store_byte (copied m dest src i) (dest + i) (copied m dest src i (src + i))
        ≡ copied m dest src (i + 1)
  unfolding store_byte copied
  copied_byte i h = fun_ext λ q. ground arith

  copy_words-copied :
      (rounds i j : ℕ)
      → i + rounds * 8 ≡ j
      → j ≤ n
      → copy_words rounds (copied m dest src i) dest src i ≡ copied m dest src j
  unfolding copy_words
  copy_words-copied zero i j e h = ap (copied m dest src) (omega arith)
  copy_words-copied (suc rounds) i j e h =
      rw (copied_word i (omega arith)) (copy_words-copied rounds (i + 8) j (omega arith) h)

  copy_bytes-copied :
      (rounds i j : ℕ)
      → i + rounds ≡ j
      → j ≤ n
      → copy_bytes rounds (copied m dest src i) dest src i ≡ copied m dest src j
  unfolding copy_bytes
  copy_bytes-copied zero i j e h = ap (copied m dest src) (omega arith)
  copy_bytes-copied (suc rounds) i j e h =
      rw (copied_byte i (omega arith)) (copy_bytes-copied rounds (i + 1) j (omega arith) h)

  copied-zero : copied m dest src 0 ≡ m
  unfolding copied
  copied-zero = fun_ext λ q. ground arith

  -- `memcpy` of `n` bytes leaves at `dest`, in order, the `n` bytes that stood at `src` before the
  -- call, and every other address as it was, provided that `dest` is not above `src` or the two
  -- ranges do not overlap.
  pub memcpy_lem : memcpy m dest src n ≡ copied m dest src n
  unfolding memcpy
  memcpy_lem =
      let fast : ℕ = n / 8 * 8 in
      ap (λ k. copy_bytes (n - fast) (copy_words (n / 8) k dest src 0) dest src fast)
        (sym copied-zero)
      ∙ ap (λ k. copy_bytes (n - fast) k dest src fast)
          (copy_words-copied (n / 8) 0 fast (omega arith) (omega arith))
      ∙ copy_bytes-copied (n - fast) fast n (omega arith) (omega arith)
