-- ===== src/Segments.antt =====
-- kernel/src/arch/arch_x86_64/gdt/mod.rs: the descriptor tables of the processors and the stacks that
-- interrupts run on; and the new contexts of idt/contextswitch.rs, which use them.
pub mod Tables
pub mod Stacks
mod Tests
use oxidized.Common.{
  ℕ, zero, suc, get_elem?, ◌+◌, ◌-◌, ◌*◌, ◌/◌, ◌==◌, leb, ltb, if◌then◌else◌, ◌&&◌, Bool, true,
  false, Option, none, some, List, [], ◌∷◌, Outcome, returns, panics, ◌>>=◌, unwrap,
}
use oxidized.Crates.Descriptors.{DescriptorTables}
use oxidized.Memory.Frames.{page_size}
use oxidized.Context.{RegisterState}

abbrev pub interrupt_stack_size_pages : ℕ
interrupt_stack_size_pages = 4

abbrev pub interrupt_stack_size : ℕ
interrupt_stack_size = page_size * interrupt_stack_size_pages

abbrev pub max_cpu_count : ℕ
max_cpu_count = 256

-- The two tables of a `TaskStateSegment`, of 7 and of 3 entries.
pub record TaskStateSegment : Type 0 where
  pub interrupt_stack_table : ℕ → ℕ
  pub privilege_stack_table : ℕ → ℕ

-- A `Vec` that a loop from `i` on pushes `count` values to.
pub push_all {ℓ} : {A : Type ℓ} → (ℕ → A) → ℕ → ℕ → List A
push_all f zero i = []
push_all f (suc count) i = f i ∷ push_all f count (i + 1)

module _ (D : DescriptorTables) where
  open D use {
    Table, kernel_code_segment, user_data_segment, user_code_segment, user_segment, tss_segment,
    new_table, add_entry, align_down,
  }

  pub record GdtInformation : Type 0 where
    pub gdt : Table
    pub kernel_code_selector : ℕ
    pub kernel_data_selector : ℕ
    pub task_state_segment_selector : ℕ
    pub user_data_selector : ℕ
    pub user_code_selector : ℕ

  -- `GdtInformation::new`, for a task state segment at the address `tss`; `kernel_data_flags` are
  -- USER_SEGMENT | PRESENT | WRITABLE.
  pub new_gdt : ℕ → ℕ → Outcome GdtInformation
  new_gdt kernel_data_flags tss = do
    code_sel ← add_entry new_table kernel_code_segment
    data_sel ← add_entry code_sel.1 (user_segment kernel_data_flags)
    tss_sel ← add_entry data_sel.1 (tss_segment tss)
    user_data_sel ← add_entry tss_sel.1 user_data_segment
    user_code_sel ← add_entry user_data_sel.1 user_code_segment
    returns (record {
      gdt = user_code_sel.1;
      kernel_code_selector = code_sel.0;
      kernel_data_selector = data_sel.0;
      task_state_segment_selector = tss_sel.0;
      user_data_selector = user_data_sel.0;
      user_code_selector = user_code_sel.0;
    })

  -- `GDTS`: the loop from processor `i` on, with `count` rounds to go; the task state segments stand
  -- at `tss_at`.
  pub push_gdts : ℕ → (ℕ → ℕ) → ℕ → ℕ → Outcome (List GdtInformation)
  push_gdts kernel_data_flags tss_at zero i = returns []
  push_gdts kernel_data_flags tss_at (suc count) i = do
    g ← new_gdt kernel_data_flags (tss_at i)
    rest ← push_gdts kernel_data_flags tss_at count (i + 1)
    returns (g ∷ rest)

  pub all_gdts : ℕ → (ℕ → ℕ) → Outcome (List GdtInformation)
  all_gdts kernel_data_flags tss_at = push_gdts kernel_data_flags tss_at max_cpu_count 0

  -- What `GdtInformation::init` loads: CS, DS, SS and the task register.
  pub record Loaded : Type 0 where
    pub table : Table
    pub cs : ℕ
    pub ds : ℕ
    pub ss : ℕ
    pub task : ℕ

  pub init_gdt : GdtInformation → Loaded
  init_gdt g = record {
    table = g.gdt;
    cs = g.kernel_code_selector;
    ds = g.kernel_data_selector;
    ss = g.kernel_data_selector;
    task = g.task_state_segment_selector;
  }

  -- `get_gdt`, on the `Vec` of all tables.
  pub get_gdt : List GdtInformation → ℕ → Outcome GdtInformation
  get_gdt gdts cpu = unwrap (get_elem? gdts cpu)

  pub load_gdt : List GdtInformation → ℕ → Outcome Loaded
  load_gdt gdts cpu = do g ← get_gdt gdts cpu; returns (init_gdt g)

  -- The registers of `PlatformContextState::new`: the index of a selector is its value from bit 3 on.
  pub new_registers : GdtInformation → RegisterState
  new_registers gdt = record {
    cr2 = 0;
    cr3 = 0;
    rax = 0;
    rbx = 0;
    rcx = 0;
    rdx = 0;
    rsi = 0;
    rdi = 0;
    rbp = 0;
    r8 = 0;
    r9 = 0;
    r10 = 0;
    r11 = 0;
    r12 = 0;
    r13 = 0;
    r14 = 0;
    r15 = 0;
    rip = 0;
    cs = gdt.user_code_selector / 8;
    rflags = 0;
    rsp = 0;
    ss = gdt.user_data_selector / 8;
  }

  -- `PlatformContextState::new`; its states of the coprocessor and of the stack are `None`.
  pub new_context : List GdtInformation → ℕ → Outcome RegisterState
  new_context gdts cpu = do gdt ← get_gdt gdts cpu; returns (new_registers gdt)

  -- `TSS_STACKS` stands at `base`: ten stacks for each processor.
  module _ (base : ℕ) where
    pub stack_start : ℕ → ℕ → ℕ
    stack_start cpu x = base + (cpu * 10 + x) * interrupt_stack_size

    pub stack_address : ℕ → ℕ → ℕ
    stack_address cpu x = align_down (stack_start cpu x + (interrupt_stack_size - 256)) 16

    abbrev put : ℕ → ℕ → (ℕ → ℕ) → ℕ → ℕ
    put i a table j = if i == j then a else table j

    -- The loop over the stacks, from `x` on, with `count` rounds to go.
    pub fill_stacks : ℕ → ℕ → ℕ → TaskStateSegment → TaskStateSegment
    fill_stacks cpu zero x tss = tss
    fill_stacks cpu (suc count) x tss =
        let address = stack_address cpu x in
        let tss₁ : TaskStateSegment =
          (if ltb x 7
            then record tss { interrupt_stack_table = put x address tss.interrupt_stack_table }
            else tss) in
        let tss₂ : TaskStateSegment =
          (if leb 7 x && ltb x 10
            then record tss₁ {
              privilege_stack_table = put (x - 7) address tss₁.privilege_stack_table;
            }
            else tss₁) in
        fill_stacks cpu count (x + 1) tss₂

    -- `TaskStateSegment::new` has zeros.
    pub task_state_segment : ℕ → TaskStateSegment
    task_state_segment cpu =
        fill_stacks cpu 10 0
          (record { interrupt_stack_table = λ i. 0; privilege_stack_table = λ i. 0 })

    pub task_state_segments : List TaskStateSegment
    task_state_segments = push_all task_state_segment max_cpu_count 0
