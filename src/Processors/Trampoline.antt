-- ===== src/Processors/Trampoline.antt =====
-- The values at the end of the start-up code: what is written there is what a processor reads.
use oxidized.Common.{
  ℕ, ◌+◌, ◌-◌, ◌*◌, ◌/◌, ◌%◌, ◌^◌, ◌≤◌, ◌<◌, ◌≡◌, refl, arith, le→leb, lt→ltb, ap, ℕ_discrete,
  subst, Outcome-cases, ◌∙◌, ◌⊎◌, inl, inr, returns,
}
use oxidized.Shared.Memcpy.{Memory, store_word}
use oxidized.Memory.Kmalloc.{Kmalloc}
use oxidized.Memory.Frames.{page_size}
use oxidized.Processors.{
  Payload, Control, byte_of, target, set_value, set_page_table, set_entry_point, set_stack,
  setup_trampoline_common_parameters, create_ap_stack, setup_trampoline, cpu_stack_pages,
  page_table_offset, stack_end_offset, entry_address_offset,
}

-- The 64-bit value at an address, as the processor loads it.
unfoldable pub read_u64 : Memory → ℕ → ℕ
read_u64 m a =
    m a
    + 256
      * (m (a + 1)
          + 256
            * (m (a + 2)
                + 256
                  * (m (a + 3)
                      + 256
                        * (m (a + 4) + 256 * (m (a + 5) + 256 * (m (a + 6) + 256 * m (a + 7)))))))

-- Its low half, which is all that a 32-bit load takes.
unfoldable pub read_u32 : Memory → ℕ → ℕ
read_u32 m a = m a + 256 * (m (a + 1) + 256 * (m (a + 2) + 256 * m (a + 3)))

half_digits :
    (v : ℕ)
    → v % 256 + 256 * (v / 256 % 256 + 256 * (v / 65536 % 256 + 256 * (v / 16777216 % 256)))
      ≡ v % 4294967296
half_digits v = omega arith

digits :
    (v : ℕ)
    → v < 2 ^ 64
    → v % 256
        + 256
          * (v / 256 % 256
              + 256
                * (v / 65536 % 256
                    + 256
                      * (v / 16777216 % 256
                          + 256
                            * (v / 4294967296 % 256
                                + 256
                                  * (v / 1099511627776 % 256
                                      + 256
                                        * (v / 281474976710656 % 256
                                            + 256 * (v / 72057594037927936 % 256)))))))
      ≡ v
digits v h = omega arith

store_word-elsewhere :
    (m : Memory) (b v q : ℕ) → (q < b) ⊎ (b + 8 ≤ q) → store_word m b (byte_of v) q ≡ m q
unfolding store_word
store_word-elsewhere m b v q h = ground arith

stored : (m : Memory) (a v k : ℕ) → k < 8 → store_word m a (byte_of v) (a + k) ≡ byte_of v k
unfolding store_word
stored m a v k h =
    let off : a + k - a ≡ k = omega arith in
    rw (le→leb a (a + k) (omega arith), lt→ltb (a + k) (a + 8) (omega arith), off) refl

pub read_u64-store_word :
    (m : Memory) (a v : ℕ) → v < 2 ^ 64 → read_u64 (store_word m a (byte_of v)) a ≡ v
unfolding read_u64 byte_of
read_u64-store_word m a v h =
    let first : store_word m a (byte_of v) a ≡ v % 256 =
      ap (λ q. store_word m a (byte_of v) q) (omega arith)
      ∙ stored m a v 0 (omega arith)
      ∙ omega arith in
    omega (
      arith,
      first,
      stored m a v 1 (omega arith),
      stored m a v 2 (omega arith),
      stored m a v 3 (omega arith),
      stored m a v 4 (omega arith),
      stored m a v 5 (omega arith),
      stored m a v 6 (omega arith),
      stored m a v 7 (omega arith),
      digits v h,
    )

pub read_u32-store_word :
    (m : Memory) (a v : ℕ) → read_u32 (store_word m a (byte_of v)) a ≡ v % 2 ^ 32
unfolding read_u32 byte_of
read_u32-store_word m a v =
    let first : store_word m a (byte_of v) a ≡ v % 256 =
      ap (λ q. store_word m a (byte_of v) q) (omega arith)
      ∙ stored m a v 0 (omega arith)
      ∙ omega arith in
    omega (
      arith,
      first,
      stored m a v 1 (omega arith),
      stored m a v 2 (omega arith),
      stored m a v 3 (omega arith),
      half_digits v,
    )

pub read_u32_apart :
    (m : Memory) (a b v : ℕ)
    → (a + 8 ≤ b) ⊎ (b + 8 ≤ a)
    → read_u32 (store_word m b (byte_of v)) a ≡ read_u32 m a
unfolding read_u32
read_u32_apart m a b v h = omega (
  arith,
  away 0 (omega arith),
  away 1 (omega arith),
  away 2 (omega arith),
  away 3 (omega arith),
  ap (λ q. store_word m b (byte_of v) q) zero,
  ap m zero,
)
  where
    zero : a + 0 ≡ a
    zero = omega arith

    away : (k : ℕ) → k < 8 → store_word m b (byte_of v) (a + k) ≡ m (a + k)
    away k l =
        store_word-elsewhere m b v (a + k)
          (elim h [ inl x ↦ inl (omega arith) | inr x ↦ inr (omega arith) ])

-- A value that another one does not overlap.
pub read_u64_apart :
    (m : Memory) (a b v : ℕ)
    → (a + 8 ≤ b) ⊎ (b + 8 ≤ a)
    → read_u64 (store_word m b (byte_of v)) a ≡ read_u64 m a
unfolding read_u64
read_u64_apart m a b v h = omega (
  arith,
  away 0 (omega arith),
  away 1 (omega arith),
  away 2 (omega arith),
  away 3 (omega arith),
  away 4 (omega arith),
  away 5 (omega arith),
  away 6 (omega arith),
  away 7 (omega arith),
  ap (λ q. store_word m b (byte_of v) q) zero,
  ap m zero,
)
  where
    zero : a + 0 ≡ a
    zero = omega arith

    away : (k : ℕ) → k < 8 → store_word m b (byte_of v) (a + k) ≡ m (a + k)
    away k l =
        store_word-elsewhere m b v (a + k)
          (elim h [ inl x ↦ inl (omega arith) | inr x ↦ inr (omega arith) ])

-- What a processor finds behind the start-up code. It loads the page table into a 32-bit register.
pub record Holds (code code_len : ℕ) (p : Payload) (cr3 stack_top code_start : ℕ) (m : Memory)
    : Type 0 where
  pub page_table : read_u32 m (target code code_len p page_table_offset) ≡ cr3 % 2 ^ 32
  pub stack_end : read_u64 m (target code code_len p stack_end_offset) ≡ stack_top
  pub entry : read_u64 m (target code code_len p entry_address_offset) ≡ code_start

module _ (code code_len : ℕ) (p : Payload) (long : 32 ≤ code_len) where
  abbrev put : Memory → ℕ → ℕ → Memory
  put m k value = store_word m (target code code_len p k) (byte_of value)

  -- The three values, put in the order of the source.
  Holds-put :
      (m : Memory) (page_table stack_end entry : ℕ)
      → stack_end < 2 ^ 64
      → entry < 2 ^ 64
      → Holds code code_len p page_table stack_end entry
          (put (put (put m 2 stack_end) 3 page_table) 1 entry)
  unfolding target
  Holds-put m page_table stack_end entry hs he =
      let m₁ : Memory = put m 2 stack_end in
      let m₂ : Memory = put m₁ 3 page_table in
      record {
        page_table =
            read_u32_apart m₂ (target code code_len p 3) (target code code_len p 1) entry
              (inl (omega arith))
            ∙ read_u32-store_word m₁ (target code code_len p 3) page_table;
        stack_end =
            read_u64_apart m₂ (target code code_len p 2) (target code code_len p 1) entry
              (inl (omega arith))
            ∙ read_u64_apart m₁ (target code code_len p 2) (target code code_len p 3) page_table
                (inr (omega arith))
            ∙ read_u64-store_word m (target code code_len p 2) stack_end hs;
        entry = read_u64-store_word m₂ (target code code_len p 1) entry he;
      }

  put-elsewhere :
      (m : Memory) (page_table stack_end entry q : ℕ)
      → (q < p.payload + code_len - 32) ⊎ (p.payload + code_len - 8 ≤ q)
      → put (put (put m 2 stack_end) 3 page_table) 1 entry q ≡ m q
  unfolding target
  put-elsewhere m page_table stack_end entry q h =
      let away = λ (k : ℕ) (small : k ≤ 3) (some_k : 1 ≤ k). apart k small some_k in
      store_word-elsewhere _ _ entry q (away 1 (omega arith) (omega arith))
      ∙ store_word-elsewhere _ _ page_table q (away 3 (omega arith) (omega arith))
      ∙ store_word-elsewhere m _ stack_end q (away 2 (omega arith) (omega arith))
    where
      apart :
          (k : ℕ)
          → k ≤ 3
          → 1 ≤ k
          → (q < target code code_len p k) ⊎ (target code code_len p k + 8 ≤ q)
      apart k l o = elim h [ inl x ↦ inl (omega arith) | inr x ↦ inr (omega arith) ]

  -- With start-up code of at least 32 bytes, an entry point of 64 bits, and a heap that returns a
  -- stack, setup_trampoline returns too, without the panic of an unaligned stack: of the three
  -- values behind the start-up code, as a processor loads them, the page table's is the low 32
  -- bits of the page table's address, and the two others are the end of the stack and the entry
  -- point; no byte but theirs has changed.
  pub setup_trampoline_lem :
      (K : Kmalloc) (cr3 ap_entry : ℕ) (registers : Control) (m : Memory) (h h' : K.Heap)
      (stack : ℕ)
      → K.kmalloc h (cpu_stack_pages * page_size) 16 ≡ returns (stack, h')
      → ap_entry < 2 ^ 64
      → (m' : Memory) × (setup_trampoline code code_len K cr3 ap_entry registers m h p
          ≡ returns (m', h', registers, stack))
        × Holds code code_len p cr3 (stack + cpu_stack_pages * page_size) ap_entry m'
        × ((q : ℕ) → (q < p.payload + code_len - 32) ⊎ (p.payload + code_len - 8 ≤ q) → m' q ≡ m q)
  unfolding setup_trampoline create_ap_stack set_stack setup_trampoline_common_parameters
      set_page_table set_entry_point set_value
  setup_trampoline_lem K cr3 ap_entry registers m h h' stack given he =
      let hs : stack + cpu_stack_pages * page_size < 2 ^ 64 = elim (ℕ_discrete stack 0) [
        | yes null ↦ omega arith
        | no some_block ↦
            K.kmalloc-fits h h' (cpu_stack_pages * page_size) 16 stack given some_block
      ] in
      let aligned = K.kmalloc-aligned h h' (cpu_stack_pages * page_size) stack given in
      let far : (stack + cpu_stack_pages * page_size) % 16 ≡ 0 = omega arith in
      (
        put (put (put m 2 (stack + cpu_stack_pages * page_size)) 3 cr3) 1 ap_entry,
        ground (arith, given, aligned, far),
        Holds-put m cr3 (stack + cpu_stack_pages * page_size) ap_entry hs he,
        put-elsewhere m cr3 (stack + cpu_stack_pages * page_size) ap_entry,
      )

  setup_trampoline-given :
      (K : Kmalloc) (cr3 ap_entry : ℕ) (registers saved : Control) (m m' : Memory) (h h' : K.Heap)
      (stack : ℕ)
      → setup_trampoline code code_len K cr3 ap_entry registers m h p
        ≡ returns (m', h', saved, stack)
      → K.kmalloc h (cpu_stack_pages * page_size) 16 ≡ returns (stack, h')
  unfolding setup_trampoline create_ap_stack set_stack setup_trampoline_common_parameters
  setup_trampoline-given K cr3 ap_entry registers saved m m' h h' stack e =
      elim (Outcome-cases (K.kmalloc h (cpu_stack_pages * page_size) 16)) [
        | inl ((a, g), q) ↦ ground arith
        | inr (inl q) ↦ ground arith
        | inr (inr q) ↦ ground arith
      ]

  -- A call of `setup_trampoline` that returns has put the parameters in place.
  pub setup_trampoline-Holds :
      (K : Kmalloc) (cr3 ap_entry : ℕ) (registers saved : Control) (m m' : Memory) (h h' : K.Heap)
      (stack : ℕ)
      → ap_entry < 2 ^ 64
      → setup_trampoline code code_len K cr3 ap_entry registers m h p
        ≡ returns (m', h', saved, stack)
      → Holds code code_len p cr3 (stack + cpu_stack_pages * page_size) ap_entry m'
        × (saved ≡ registers)
  setup_trampoline-Holds K cr3 ap_entry registers saved m m' h h' stack he e =
      let given = setup_trampoline-given K cr3 ap_entry registers saved m m' h h' stack e in
      let (m₁, q, holds, _) = setup_trampoline_lem K cr3 ap_entry registers m h h' stack given he in
      let same : m₁ ≡ m' = cc in
      (
        subst (λ k. Holds code code_len p cr3 (stack + cpu_stack_pages * page_size) ap_entry k) same
            holds,
        cc,
      )
