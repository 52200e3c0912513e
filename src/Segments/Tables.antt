-- ===== src/Segments/Tables.antt =====
-- The descriptor tables: what the selectors of each processor name.
use oxidized.Common.{
  ℕ, zero, suc, get_elem?_beyond, ◌+◌, ◌/◌, ◌≤◌, ◌<◌, ◌≡◌, refl, sym, ◌∙◌, ap, arith, some, List,
  [], ◌∷◌, length, get_elem?, returns, panics,
}
use oxidized.Crates.Descriptors.{DescriptorTables}
use oxidized.Context.{RegisterState}
use oxidized.Segments.{
  max_cpu_count, GdtInformation, new_gdt, push_gdts, all_gdts, Loaded, init_gdt, get_gdt, load_gdt,
  new_context, new_registers,
}

module _ (D : DescriptorTables) where
  open D use {
    Table, Descriptor, kernel_code_segment, user_data_segment, user_code_segment, user_segment,
    tss_segment, new_table, used, size, entry, add_entry, add_entry-room,
  }

  -- The selector is that of an entry, and the entry is the descriptor.
  pub record Names (t : Table) (selector i : ℕ) (d : Descriptor) : Type 0 where
    pub index : selector / 8 ≡ i
    pub descriptor : entry t i ≡ some d

  -- The five entries of a table, for a task state segment at `tss`.
  pub record IsComplete (flags tss : ℕ) (g : GdtInformation D) : Type 0 where
    pub kernel_code : Names g.gdt g.kernel_code_selector 1 kernel_code_segment
    pub kernel_data : Names g.gdt g.kernel_data_selector 2 (user_segment flags)
    pub task_state : Names g.gdt g.task_state_segment_selector 3 (tss_segment tss)
    pub user_data : Names g.gdt g.user_data_selector 5 user_data_segment
    pub user_code : Names g.gdt g.user_code_selector 6 user_code_segment

  -- An entry that is added where the number of entries is known.
  added :
      (t : Table) (d : Descriptor) (n k : ℕ)
      → used t ≡ n
      → size d ≡ k
      → n + k ≤ 8
      → (selector : ℕ) × (t' : Table) × (add_entry t d ≡ returns (selector, t'))
        × Names t' selector n d
        × (used t' ≡ n + k)
        × ((i : ℕ) → i < n → entry t' i ≡ entry t i)
  added t d n k un sz room =
      let (selector, t', e, at, more, here, old) =
        add_entry-room t d (omega (arith, un, sz, room)) in
      (
        selector,
        t',
        e,
        record { index = at ∙ un; descriptor = ap (entry t') (sym un) ∙ here },
        omega (arith, more, un, sz),
        λ i l. old i (omega (arith, l, un)),
      )

  kept :
      {t t' : Table} {selector i n : ℕ} {d : Descriptor}
      → ((j : ℕ) → j < n → entry t' j ≡ entry t j)
      → i < n
      → Names t selector i d
      → Names t' selector i d
  kept {i = i} old l v = record { index = v.index; descriptor = old i l ∙ v.descriptor }

  pub new_gdt-IsComplete :
      (flags tss : ℕ)
      → (g : GdtInformation D) × (new_gdt D flags tss ≡ returns g) × IsComplete flags tss g
  unfolding new_gdt
  new_gdt-IsComplete flags tss =
      let (s₁, t₁, e₁, n₁, u₁, _) =
        added new_table kernel_code_segment 1 1 D.used-new D.size-kernel_code (omega arith) in
      let (s₂, t₂, e₂, n₂, u₂, o₂) =
        added t₁ (user_segment flags) 2 1 u₁ (D.size-user flags) (omega arith) in
      let (s₃, t₃, e₃, n₃, u₃, o₃) =
        added t₂ (tss_segment tss) 3 2 u₂ (D.size-tss tss) (omega arith) in
      let (s₄, t₄, e₄, n₄, u₄, o₄) =
        added t₃ user_data_segment 5 1 u₃ D.size-user_data (omega arith) in
      let (s₅, t₅, e₅, n₅, u₅, o₅) =
        added t₄ user_code_segment 6 1 u₄ D.size-user_code (omega arith) in
      (
        _,
        rw (e₁, e₂, e₃, e₄, e₅) refl,
        record {
          kernel_code =
              kept o₅ (omega arith)
                (kept o₄ (omega arith) (kept o₃ (omega arith) (kept o₂ (omega arith) n₁)));
          kernel_data = kept o₅ (omega arith) (kept o₄ (omega arith) (kept o₃ (omega arith) n₂));
          task_state = kept o₅ (omega arith) (kept o₄ (omega arith) n₃);
          user_data = kept o₅ (omega arith) n₄;
          user_code = n₅;
        },
      )

  push_gdts-IsComplete :
      (flags : ℕ) (tss_at : ℕ → ℕ) (count i : ℕ)
      → (gs : List (GdtInformation D)) × (push_gdts D flags tss_at count i ≡ returns gs)
        × (length gs ≡ count)
        × ((j : ℕ)
            → j < count
            → (g : GdtInformation D) × (get_elem? gs j ≡ some g)
              × IsComplete flags (tss_at (i + j)) g)
  unfolding push_gdts
  push_gdts-IsComplete flags tss_at zero i = ([], refl, refl, λ j l. absurd (omega arith))
  push_gdts-IsComplete flags tss_at (suc count) i =
      let (g, e, v) = new_gdt-IsComplete flags (tss_at i) in
      let (gs, e', n, at) = push_gdts-IsComplete flags tss_at count (i + 1) in
      (g ∷ gs, rw (e, e') refl, ap suc n, λ j l. first_or_later j l g v gs at)
    where
      first_or_later :
          (j : ℕ)
          → j < suc count
          → (g : GdtInformation D) → IsComplete flags (tss_at i) g
          → (gs : List (GdtInformation D))
          → ((j : ℕ)
              → j < count
              → (g' : GdtInformation D) × (get_elem? gs j ≡ some g')
                × IsComplete flags (tss_at (i + 1 + j)) g')
          → (g' : GdtInformation D) × (get_elem? (g ∷ gs) j ≡ some g')
            × IsComplete flags (tss_at (i + j)) g'
      first_or_later zero l g v gs at = let same : i + 0 ≡ i = omega arith in (g, refl, rw same v)
      first_or_later (suc j) l g v gs at =
          let same : i + suc j ≡ i + 1 + j = omega arith in rw same (at j (omega arith))

  -- The tables are all built without a panic, and then every processor below 256 loads a table in
  -- which its code, data and stack segment registers and its task register name the kernel's code
  -- segment, the data segment and the processor's own task state segment; any other number panics.
  pub load_gdt_lem :
      (flags : ℕ) (tss_at : ℕ → ℕ)
      → (gs : List (GdtInformation D)) × (all_gdts D flags tss_at ≡ returns gs)
        × ((cpu : ℕ)
            → cpu < 256
            → (l : Loaded D) × (load_gdt D gs cpu ≡ returns l)
              × (entry l.table (l.cs / 8) ≡ some kernel_code_segment)
              × (entry l.table (l.ds / 8) ≡ some (user_segment flags))
              × (l.ss ≡ l.ds)
              × (entry l.table (l.task / 8) ≡ some (tss_segment (tss_at cpu))))
        × ((cpu : ℕ) → 256 ≤ cpu → load_gdt D gs cpu ≡ panics)
  unfolding all_gdts load_gdt get_gdt init_gdt
  load_gdt_lem flags tss_at =
      let (gs, e, n, at) = push_gdts-IsComplete flags tss_at max_cpu_count 0 in
      (
        gs,
        e,
        λ cpu l.
            (let (g, e', v) = at cpu l in
              (
                init_gdt D g,
                rw e' refl,
                rw v.kernel_code.index v.kernel_code.descriptor,
                rw v.kernel_data.index v.kernel_data.descriptor,
                refl,
                ap (entry g.gdt) v.task_state.index
                    ∙ v.task_state.descriptor
                    ∙ ap (λ k. some (tss_segment (tss_at k))) (omega arith),
              )),
        λ cpu l. rw (get_elem?_beyond gs cpu (omega (arith, n, l))) refl,
      )

  -- A new context is made for every processor below 256, and the numbers of its code and of its
  -- stack segment are 6 and 5, the indices of the user's segments in the processor's table; the
  -- selectors of these, which are at least 48 and 40, are not what it holds.
  pub new_context_lem :
      (flags : ℕ) (tss_at : ℕ → ℕ) (cpu : ℕ)
      → cpu < 256
      → (gs : List (GdtInformation D)) × (g : GdtInformation D) × (c : RegisterState) × (all_gdts D
            flags tss_at
          ≡ returns gs)
        × (get_gdt D gs cpu ≡ returns g)
        × (new_context D gs cpu ≡ returns c)
        × (c.cs ≡ 6)
        × (c.ss ≡ 5)
        × (48 ≤ g.user_code_selector)
        × (40 ≤ g.user_data_selector)
        × (entry g.gdt (g.user_code_selector / 8) ≡ some user_code_segment)
        × (entry g.gdt (g.user_data_selector / 8) ≡ some user_data_segment)
  unfolding all_gdts get_gdt new_context new_registers
  new_context_lem flags tss_at cpu l =
      let (gs, e, n, at) = push_gdts-IsComplete flags tss_at max_cpu_count 0 in
      let (g, e', v) = at cpu l in
      let code = v.user_code.index in
      let stack = v.user_data.index in
      (
        gs,
        g,
        new_registers D g,
        e,
        rw e' refl,
        rw e' refl,
        code,
        stack,
        omega (arith, code),
        omega (arith, stack),
        rw code v.user_code.descriptor,
        rw stack v.user_data.descriptor,
      )
