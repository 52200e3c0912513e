-- ===== src/Processors/Boot/Invariant/Defs.antt =====
-- What holds of the processors while they boot.
use oxidized.Common.{ℕ, ◌+◌, ◌*◌, ◌^◌, ◌<◌, ◌≤◌, ◌≡◌, ◌≢◌, Bool, true, false, List, [], ◌∷◌, ◌⊎◌}
use oxidized.Common.Predicates.{In, Distinct}
use oxidized.Crates.{BitStore}
use oxidized.Memory.Kmalloc.{Kmalloc}
use oxidized.Memory.Frames.{page_size}
use oxidized.Processors.{Control, is_ready, new_status_bits, cpu_stack_pages}
use oxidized.Processors.Trampoline.{Holds}
use oxidized.Processors.Boot.{
  Parameters, Ap, stopped, signalled, started, booting, configured, online, entered, Bsp, starting,
  waiting, main, System, Machine,
}

abbrev pub stack_length : ℕ
stack_length = cpu_stack_pages * page_size

-- On the way from the start-up command to the online bit.
abbrev pub is_busy : Ap → Bool
is_busy signalled = true
is_busy (started q) = true
is_busy (booting q) = true
is_busy (configured q r) = true
is_busy _ = false

abbrev pub is_online : Ap → Bool
is_online (online q r) = true
is_online (entered q r) = true
is_online _ = false

-- Those that the boot processor has yet to see ready, and those that it has yet to start.
abbrev pub pending : Bsp → List ℕ
pending (starting rest) = rest
pending (waiting cpu rest) = cpu ∷ rest
pending main = []

abbrev pub queue : Bsp → List ℕ
queue (starting rest) = rest
queue (waiting cpu rest) = rest
queue main = []

-- The parameters that a processor has are the boot processor's page table, the end of the
-- processor's own stack, and the entry point; its control registers are the boot processor's.
abbrev pub IsGiven : Machine → ℕ → Ap → Type 0
IsGiven c stack stopped = Unit
IsGiven c stack signalled = Unit
IsGiven c stack (started q) =
    (q.page_table ≡ c.cr3) × (q.stack_end ≡ stack + stack_length) × (q.entry ≡ c.ap_entry)
IsGiven c stack (booting q) =
    (q.page_table ≡ c.cr3) × (q.stack_end ≡ stack + stack_length) × (q.entry ≡ c.ap_entry)
IsGiven c stack (configured q r) =
    (q.page_table ≡ c.cr3)
    × (q.stack_end ≡ stack + stack_length)
    × (q.entry ≡ c.ap_entry)
    × (r ≡ c.known c.registers)
IsGiven c stack (online q r) =
    (q.page_table ≡ c.cr3)
    × (q.stack_end ≡ stack + stack_length)
    × (q.entry ≡ c.ap_entry)
    × (r ≡ c.known c.registers)
IsGiven c stack (entered q r) =
    (q.page_table ≡ c.cr3)
    × (q.stack_end ≡ stack + stack_length)
    × (q.entry ≡ c.ap_entry)
    × (r ≡ c.known c.registers)

module _ (B : BitStore) (K : Kmalloc) (c : Machine) where
  open B use {len, test, assign, len-assign, test-assign}

  -- `b` is the state of the boot processor.
  pub record IsSound (apps : List ℕ) (b : Bsp) (s : System B K) : Type 0 where
    pub slots :
        (cpu : ℕ) (rest : List ℕ)
        → b ≡ waiting cpu rest
        → Holds c.code c.code_len c.page c.cr3 (s.stacks cpu + stack_length) c.ap_entry s.memory
          × (s.saved ≡ c.registers)
    pub busy : (i : ℕ) → is_busy (s.aps i) ≡ true → b ≡ waiting i (queue b)
    pub given : (i : ℕ) → IsGiven c (s.stacks i) (s.aps i)
    pub bits : (i : ℕ) → i ≢ c.own → is_ready B s.online_bits i ≡ true → is_online (s.aps i) ≡ true
    pub done : (i : ℕ) → In i apps → In i (pending b) ⊎ (is_online (s.aps i) ≡ true)
    pub apart : Distinct (pending b)
    pub other : In c.own (pending b) → ⊥
    pub unstarted : (i : ℕ) → In i (queue b) → s.aps i ≡ stopped
    pub entered_ready :
        (i : ℕ) (q : Parameters) (r : Control) → s.aps i ≡ entered q r → s.kernel_ready ≡ true
    pub ready_main : s.kernel_ready ≡ true → b ≡ main

-- Before the first processor is started: the list names each once and not the boot processor, and the
-- bits of the online processors are as they are made.
pub record IsInitial (B : BitStore) (K : Kmalloc) (c : Machine) (apps : List ℕ) (s : System B K)
    : Type 0 where
  pub phase : s.bsp ≡ starting apps
  pub apart : Distinct apps
  pub other : In c.own apps → ⊥
  pub stopped_all : (i : ℕ) → s.aps i ≡ stopped
  pub bits : s.online_bits ≡ new_status_bits B
  pub not_ready : s.kernel_ready ≡ false

-- The start-up code has room for the parameters, the page table lies below 4 GiB, as the load of 32
-- bits wants it, the entry point has 64 bits, and the boot processor's number is 0.
pub record IsMachine (c : Machine) : Type 0 where
  pub long : 32 ≤ c.code_len
  pub table : c.cr3 < 2 ^ 32
  pub entry : c.ap_entry < 2 ^ 64
  pub first : c.own ≡ 0
