-- ===== src/Processors/Boot.antt =====
-- The boot processor starts the others one by one, while those that are started run on their own:
-- start_additional_cpus, start_cpu and boot against ap_entry, ap_main and kernel_cpu_main.
pub mod Invariant
pub mod Safety
pub mod Completion
mod Tests
use oxidized.Common.{
  ℕ, ◌≡◌, ◌≢◌, ◌==◌, if◌then◌else◌, Bool, true, false, List, [], ◌∷◌, Outcome, returns,
}
use oxidized.Crates.{BitStore}
use oxidized.Shared.Memcpy.{Memory}
use oxidized.Memory.Kmalloc.{Kmalloc}
use oxidized.Processors.{
  Payload, Control, target, setup_trampoline, is_ready, mark_cpu, set_control_regs,
  page_table_offset, stack_end_offset, entry_address_offset,
}
use oxidized.Processors.Trampoline.{read_u32, read_u64}

-- What a processor has taken from behind the start-up code.
pub record Parameters : Type 0 where
  pub page_table : ℕ
  pub stack_end : ℕ
  pub entry : ℕ

-- How far an application processor has come: it has the start-up command; it has read the
-- parameters; it has marked itself booting; its control registers are set; it has marked itself
-- online; it is in the last loop of kernel_cpu_main.
pub data Ap : Type 0 where
  stopped signalled : Ap
  started booting : Parameters → Ap
  configured online entered : Parameters → Control → Ap

-- The boot processor: with those that it has yet to start; in the loop of `boot` for one; past
-- set_kernel_ready.
pub data Bsp : Type 0 where
  starting : List ℕ → Bsp
  waiting : ℕ → List ℕ → Bsp
  main : Bsp

abbrev pub update {ℓ} : {A : Type ℓ} → (ℕ → A) → ℕ → A → ℕ → A
update f i a j = if i == j then a else f j

module _ (B : BitStore) (K : Kmalloc) where
  -- `stacks` is what each processor was given.
  pub record System : Type 0 where
    pub memory : Memory
    pub heap : K.Heap
    pub saved : Control
    pub online_bits : B.Bits
    pub booting_bits : B.Bits
    pub bsp : Bsp
    pub kernel_ready : Bool
    pub aps : ℕ → Ap
    pub stacks : ℕ → ℕ

-- The machine: the start-up code and the page that it is copied to, what the boot processor's
-- registers hold, the address of `ap_entry`, and the boot processor's number.
pub record Machine : Type 0 where
  pub code : ℕ
  pub code_len : ℕ
  pub page : Payload
  pub cr3 : ℕ
  pub ap_entry : ℕ
  pub registers : Control
  pub known : Control → Control
  pub own : ℕ

-- The trampoline's loads: 32 bits for the page table, which goes through eax, and 64 for the others.
pub parameters_at : Machine → Memory → Parameters
parameters_at c m = record {
  page_table = read_u32 m (target c.code c.code_len c.page page_table_offset);
  stack_end = read_u64 m (target c.code c.code_len c.page stack_end_offset);
  entry = read_u64 m (target c.code c.code_len c.page entry_address_offset);
}

module _ (B : BitStore) (K : Kmalloc) (c : Machine) where
  -- A step of one processor.
  pub data Step : System B K → System B K → Type 0 where
    start :
        {s : System B K} (cpu : ℕ) (rest : List ℕ) {m : Memory} {h : K.Heap} {saved : Control}
        {stack : ℕ}
        → s.bsp ≡ starting (cpu ∷ rest)
        → cpu ≢ c.own
        → setup_trampoline c.code c.code_len K c.cr3 c.ap_entry c.registers s.memory s.heap c.page
          ≡ returns (m, h, saved, stack)
        → Step s (record s {
          memory = m;
          heap = h;
          saved = saved;
          bsp = waiting cpu rest;
          aps = update s.aps cpu signalled;
          stacks = update s.stacks cpu stack;
        })
    wake :
        {s : System B K} (cpu : ℕ)
        → s.aps cpu ≡ signalled
        → Step s (record s { aps = update s.aps cpu (started (parameters_at c s.memory)) })
    mark_booting :
        {s : System B K} (cpu : ℕ) (q : Parameters) {bits : B.Bits}
        → s.aps cpu ≡ started q
        → q.entry ≡ c.ap_entry
        → mark_cpu B s.booting_bits cpu ≡ returns bits
        → Step s (record s { booting_bits = bits; aps = update s.aps cpu (booting q) })
    configure :
        {s : System B K} (cpu : ℕ) (q : Parameters)
        → s.aps cpu ≡ booting q
        → Step s
            (record s { aps = update s.aps cpu (configured q (set_control_regs c.known s.saved)) })
    mark_online :
        {s : System B K} (cpu : ℕ) (q : Parameters) (r : Control) {bits : B.Bits}
        → s.aps cpu ≡ configured q r
        → mark_cpu B s.online_bits cpu ≡ returns bits
        → Step s (record s { online_bits = bits; aps = update s.aps cpu (online q r) })
    see_ready :
        {s : System B K} (cpu : ℕ) (rest : List ℕ)
        → s.bsp ≡ waiting cpu rest
        → is_ready B s.online_bits cpu ≡ true
        → Step s (record s { bsp = starting rest })
    set_ready :
        {s : System B K}
        → s.bsp ≡ starting []
        → Step s (record s { bsp = main; kernel_ready = true })
    enter :
        {s : System B K} (cpu : ℕ) (q : Parameters) (r : Control)
        → s.aps cpu ≡ online q r
        → s.kernel_ready ≡ true
        → Step s (record s { aps = update s.aps cpu (entered q r) })

  pub data Reach (s : System B K) : System B K → Type 0 where
    here : Reach s s
    next : {t u : System B K} → Reach s t → Step t u → Reach s u
