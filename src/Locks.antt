-- ===== src/Locks.antt =====
-- The locks of the kernel's statics (spin::Mutex, and spin::RwLock for writing), as the processors
-- take them: kernel threads on every processor, and interrupts between any two of their steps.
mod Tests
pub mod Code
pub mod Startup
pub mod Main
pub mod Nesting
pub mod Waits
pub mod Work
pub mod Progress
pub mod Stuck
pub mod Order
pub mod Sound
use oxidized.Common.{
  ℕ, ◌≡◌, ◌==◌, if◌then◌else◌, Bool, true, false, Option, none, some, List, ◌∷◌, ◌++◌,
}

-- A lock, by a number: the order in which the code nests them.
abbrev pub Lock : Type 0
Lock = ℕ

abbrev pub device_tree : Lock
device_tree = 0

abbrev pub syscall_tables : Lock
syscall_tables = 1

abbrev pub console : Lock
console = 2

abbrev pub frame_buffer : Lock
frame_buffer = 3

abbrev pub allocator : Lock
allocator = 4

abbrev pub memory_manager : Lock
memory_manager = 5

abbrev pub serial : Lock
serial = 6

abbrev pub status_bits : Lock
status_bits = 7

abbrev pub ready_signal : Lock
ready_signal = 8

abbrev pub software_handlers : Lock
software_handlers = 9

-- What code does with locks: `lock()`, the end of the guard's scope, and the return from an interrupt,
-- or `interrupts::enable`, after which interrupts are taken again.
pub data Action : Type 0 where
  acquire release : Lock → Action
  unmask : Action

-- For each lock the processor that has it; for each processor the actions that are left, the guards in
-- scope, the innermost first, and whether it takes interrupts.
pub record State : Type 0 where
  pub owner : Lock → Option ℕ
  pub code : ℕ → List Action
  pub guards : ℕ → List Lock
  pub enabled : ℕ → Bool

abbrev pub update {ℓ} : {A : Type ℓ} → (ℕ → A) → ℕ → A → ℕ → A
update f i a j = if i == j then a else f j

-- A step of processor `i`. One that asks for a lock that is taken spins, and has no step.
pub data Advance (i : ℕ) : State → State → Type 0 where
  take :
      {s : State} (l : Lock) (rest : List Action)
      → s.code i ≡ acquire l ∷ rest
      → s.owner l ≡ none
      → Advance i s (record s {
        owner = update s.owner l (some i);
        code = update s.code i rest;
        guards = update s.guards i (l ∷ s.guards i);
      })
  give :
      {s : State} (l : Lock) (rest : List Action) (outer : List Lock)
      → s.code i ≡ release l ∷ rest
      → s.guards i ≡ l ∷ outer
      → Advance i s (record s {
        owner = update s.owner l none;
        code = update s.code i rest;
        guards = update s.guards i outer;
      })
  enable :
      {s : State} (rest : List Action)
      → s.code i ≡ unmask ∷ rest
      → Advance i s (record s { code = update s.code i rest; enabled = update s.enabled i true })

-- `Handler` are the codes of the interrupts that may arrive. The gates are interrupt gates: a handler
-- runs with interrupts off, until it returns.
pub data Step (Handler : List Action → Type 0) : State → State → Type 0 where
  advance : {s t : State} (i : ℕ) → Advance i s t → Step Handler s t
  interrupt :
      {s : State} (i : ℕ) (h : List Action)
      → s.enabled i ≡ true
      → Handler h
      → Step Handler s (record s {
        code = update s.code i (h ++ (unmask ∷ s.code i));
        enabled = update s.enabled i false;
      })

pub data Reach (Handler : List Action → Type 0) (s : State) : State → Type 0 where
  here : Reach Handler s s
  next : {t u : State} → Reach Handler s t → Step Handler t u → Reach Handler s u
