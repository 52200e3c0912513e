-- ===== src/Processors/Boot/Tests.antt =====
-- A machine with two application processors, in two bit arrays of 64 bits.
use oxidized.Common.{
  ℕ, ◌*◌, ◌≤◌, ◌≡◌, refl, ap, arith, true, false, [], ◌∷◌, inl, inr, ◌⊎◌, returns,
}
use oxidized.Common.Predicates.{In, All}
use oxidized.Crates.Concrete.{bit_function, blocks}
use oxidized.Processors.{Control, new_status_bits}
use oxidized.Processors.Trampoline.{setup_trampoline_lem}
use oxidized.Processors.Boot.{
  Parameters, Ap, stopped, signalled, started, booting, configured, online, entered, starting,
  waiting, System, Machine, Step, start, wake, enter, Reach, here, next, update, parameters_at,
}
use oxidized.Processors.Boot.Invariant.{is_busy, is_online, IsGiven, IsInitial, IsMachine}
use oxidized.Processors.Boot.Safety.{one_at_a_time, Reach-IsGiven, entered-online, waits_for_ever}
use oxidized.Processors.Boot.Completion.{CanStart, boot_completes}

abbrev control : Control
control = record { efer = 0x500; cr0 = 0x80010033; cr4 = 0x668 }

abbrev machine : Machine
machine = record {
  code = 0x5000;
  code_len = 512;
  page = record { payload = 0 };
  cr3 = 0x1000;
  ap_entry = 0x2000;
  registers = control;
  known = λ r. r;
  own = 0;
}

abbrev is_machine : IsMachine machine
is_machine = record { long = omega arith; table = omega arith; entry = omega arith; first = refl }

abbrev Small : Type 0
Small = System bit_function blocks

abbrev before : Small
before = record {
  memory = λ a. 0;
  heap = 65536;
  saved = record { efer = 0; cr0 = 0; cr4 = 0 };
  online_bits = new_status_bits bit_function;
  booting_bits = new_status_bits bit_function;
  bsp = starting (1 ∷ 2 ∷ []);
  kernel_ready = false;
  aps = λ i. stopped;
  stacks = λ i. 0;
}

before-IsInitial : IsInitial bit_function blocks machine (1 ∷ 2 ∷ []) before
before-IsInitial = record {
  phase = refl;
  apart = (λ m. omega arith, (λ m. m, tt));
  other = λ m. omega arith;
  stopped_all = λ i. refl;
  bits = refl;
  not_ready = refl;
}

can_start : All (CanStart bit_function blocks machine 64 64) (1 ∷ 2 ∷ [])
can_start = omega arith

gives : (h : ℕ) → (ptr : ℕ) × (h' : ℕ) × (blocks.kmalloc h (256 * 4096) 16 ≡ returns (ptr, h'))
gives h = (_, _, refl)

boot_completes_example :
    (t : Small) × Reach bit_function blocks machine before t
    × (t.kernel_ready ≡ true)
    × ((i : ℕ) → In i (1 ∷ 2 ∷ []) → is_online (t.aps i) ≡ true)
boot_completes_example =
    boot_completes bit_function blocks machine is_machine gives (1 ∷ 2 ∷ []) before before-IsInitial
      can_start

-- The state after the first start, in which processor 1 has the start-up command.
first_started :
    (t : Small) × Reach bit_function blocks machine before t
    × (t.bsp ≡ waiting 1 (2 ∷ []))
    × (t.aps 1 ≡ signalled)
    × (t.online_bits ≡ before.online_bits)
first_started =
    let (m, q, _, _) =
      setup_trampoline_lem 0x5000 512 machine.page (omega arith) blocks 0x1000 0x2000 control
        before.memory 65536 1114112 1048576 refl (omega arith) in
    (_, next here (start {s = before} 1 (2 ∷ []) {m = m} refl (omega arith) q), refl, refl, refl)

one_at_a_time_example : ◌≡◌ {A = ℕ} 1 1
one_at_a_time_example =
    one_at_a_time bit_function blocks machine (1 ∷ 2 ∷ []) is_machine before-IsInitial
      first_started.1 1 1 (ap is_busy first_started.3) (ap is_busy first_started.3)

-- A processor that is online goes into the kernel once the kernel is ready.
goes_in :
    (i : ℕ) (s : Small)
    → Reach bit_function blocks machine before s
    → s.kernel_ready ≡ true
    → is_online (s.aps i) ≡ true
    → (t : Small) × (q : Parameters) × (r : Control) × Reach bit_function blocks machine before t
      × (t.aps i ≡ entered q r)
goes_in i s reached ready on = elim (online-cases (s.aps i) on) [
  | inl (q, r, e) ↦
      (_, q, r, next reached (enter {s = s} i q r e ready), update_here s.aps i (entered q r))
  | inr (q, r, e) ↦ (s, q, r, reached, e)
]
  where
    online-cases :
        (a : Ap)
        → is_online a ≡ true
        → ((q : Parameters) × (r : Control) × (a ≡ online q r))
          ⊎ ((q : Parameters) × (r : Control) × (a ≡ entered q r))
    online-cases (online q r) h = inl (q, r, refl)
    online-cases (entered q r) h = inr (q, r, refl)
    online-cases stopped h = cc
    online-cases signalled h = cc
    online-cases (started q) h = cc
    online-cases (booting q) h = cc
    online-cases (configured q r) h = cc

    update_here : (aps : ℕ → Ap) (j : ℕ) (a : Ap) → update aps j a j ≡ a
    update_here aps j a = ground arith

inside :
    (t : Small) × (q : Parameters) × (r : Control) × Reach bit_function blocks machine before t
    × (t.aps 1 ≡ entered q r)
inside =
    let (s, reached, ready, on) = boot_completes_example in
    goes_in 1 s reached ready (on 1 (inl refl))

Reach-IsGiven_example : IsGiven machine (inside.0.stacks 1) (inside.0.aps 1)
Reach-IsGiven_example =
    Reach-IsGiven bit_function blocks machine (1 ∷ 2 ∷ []) is_machine before-IsInitial inside.3 1

entered-online_example : is_online (inside.0.aps 2) ≡ true
entered-online_example =
    entered-online bit_function blocks machine (1 ∷ 2 ∷ []) is_machine before-IsInitial inside.3 1 2
      inside.1 inside.2 inside.4 (inr (inl refl))

-- A processor beyond the array that `bitarr!` makes of one value, and its start.
abbrev short : Small
short = record before { bsp = starting (64 ∷ 2 ∷ []) }

stuck :
    (t : Small) × Step bit_function blocks machine short t
    × (t.bsp ≡ waiting 64 (2 ∷ []))
    × (t.aps 64 ≡ signalled)
    × (t.online_bits ≡ short.online_bits)
stuck =
    let (m, q, _, _) =
      setup_trampoline_lem 0x5000 512 machine.page (omega arith) blocks 0x1000 0x2000 control
        short.memory 65536 1114112 1048576 refl (omega arith) in
    (_, start {s = short} 64 (2 ∷ []) {m = m} refl (omega arith) q, refl, refl, refl)

no_bit : bit_function.len stuck.0.online_bits ≤ 64
no_bit = rw stuck.4 (omega arith)

abbrev woken : Small
woken = record stuck.0 {
  aps = update stuck.0.aps 64 (started (parameters_at machine stuck.0.memory));
}

waits_for_ever_example : woken.bsp ≡ waiting 64 (2 ∷ [])
waits_for_ever_example =
    waits_for_ever bit_function blocks machine {s = stuck.0} {t = woken} 64 (2 ∷ []) stuck.2 no_bit
      (next here (wake {s = stuck.0} 64 stuck.3))
