-- ===== src/Processors/Boot/Completion.antt =====
-- The boot can run to its end: the interleaving in which each processor goes straight on.
use oxidized.Common.{
  ℕ, ◌<◌, ◌≡◌, ◌≢◌, refl, arith, ==_refl, lt→ltb, true, List, [], ◌∷◌, inl, inr, returns,
}
use oxidized.Common.Predicates.{In, All}
use oxidized.Crates.{BitStore}
use oxidized.Memory.Kmalloc.{Kmalloc}
use oxidized.Processors.{is_ready, mark_cpu, set_control_regs}
use oxidized.Processors.Trampoline.{setup_trampoline_lem}
use oxidized.Processors.Boot.{
  Parameters, Ap, signalled, started, booting, configured, online, starting, waiting, main, update,
  System, Machine, parameters_at, start, wake, mark_booting, configure, mark_online, see_ready,
  set_ready, Reach, here, next,
}
use oxidized.Processors.Boot.Invariant.{
  stack_length, is_online, IsInitial, IsMachine, Reach-IsSound_of_initial,
}

module _ (B : BitStore) (K : Kmalloc) (c : Machine) where
  open B use {len, test, assign, len-assign, test-assign}

  Reach-trans : {s t u : System B K} → Reach B K c s t → Reach B K c t u → Reach B K c s u
  Reach-trans r here = r
  Reach-trans r (next q st) = next (Reach-trans r q) st

  update_self : (aps : ℕ → Ap) (i : ℕ) (a : Ap) → update aps i a i ≡ a
  update_self aps i a = rw (==_refl i) refl

  -- A processor that may be started: not the boot processor, and in both bit arrays.
  abbrev pub CanStart : ℕ → ℕ → ℕ → Type 0
  CanStart on boot i = (i ≢ c.own) × (i < on) × (i < boot)

  module _ (machine : IsMachine c)
      (gives : (h : K.Heap)
        → (ptr : ℕ) × (h' : K.Heap) × (K.kmalloc h stack_length 16 ≡ returns (ptr, h'))) where
    one_boots :
        (s : System B K) (cpu : ℕ) (rest : List ℕ)
        → s.bsp ≡ starting (cpu ∷ rest)
        → CanStart (len s.online_bits) (len s.booting_bits) cpu
        → (t : System B K) × Reach B K c s t
          × (t.bsp ≡ starting rest)
          × (len t.online_bits ≡ len s.online_bits)
          × (len t.booting_bits ≡ len s.booting_bits)
    unfolding mark_cpu is_ready parameters_at
    one_boots s cpu rest e (ne, on, boot) =
        let (stack, h', given) = gives s.heap in
        let (m, q, holds, _) =
          setup_trampoline_lem c.code c.code_len c.page machine.long K c.cr3 c.ap_entry c.registers
            s.memory s.heap h' stack given machine.entry in
        let s₁ : System B K = record s {
          memory = m;
          heap = h';
          saved = c.registers;
          bsp = waiting cpu rest;
          aps = update s.aps cpu signalled;
          stacks = update s.stacks cpu stack;
        } in
        let p : Parameters = parameters_at c m in
        let r = set_control_regs c.known c.registers in
        let s₂ : System B K = record s₁ { aps = update s₁.aps cpu (started p) } in
        let s₃ : System B K = record s₂ {
          booting_bits = assign s.booting_bits cpu true;
          aps = update s₂.aps cpu (booting p);
        } in
        let s₄ : System B K = record s₃ { aps = update s₃.aps cpu (configured p r) } in
        let s₅ : System B K = record s₄ {
          online_bits = assign s.online_bits cpu true;
          aps = update s₄.aps cpu (online p r);
        } in
        (
          record s₅ { bsp = starting rest },
          next
              (next
                (next
                  (next
                    (next (next here (start cpu rest e ne q))
                      (wake {s = s₁} cpu (update_self s.aps cpu signalled)))
                    (mark_booting {s = s₂} cpu p (update_self s₁.aps cpu (started p)) holds.entry
                      (rw (lt→ltb cpu (len s.booting_bits) boot) refl)))
                  (configure {s = s₃} cpu p (update_self s₂.aps cpu (booting p))))
                (mark_online {s = s₄} cpu p r (update_self s₃.aps cpu (configured p r))
                  (rw (lt→ltb cpu (len s.online_bits) on) refl)))
              (see_ready {s = s₅} cpu rest refl (
                ground (
                  arith,
                  on,
                  len-assign s.online_bits cpu true,
                  test-assign s.online_bits cpu cpu true,
                ))),
          refl,
          len-assign s.online_bits cpu true,
          len-assign s.booting_bits cpu true,
        )

    boots_each :
        (apps : List ℕ) (s : System B K)
        → s.bsp ≡ starting apps
        → All (CanStart (len s.online_bits) (len s.booting_bits)) apps
        → (t : System B K) × Reach B K c s t × (t.bsp ≡ starting [])
    boots_each [] s e a = (s, here, e)
    boots_each (cpu ∷ rest) s e (first, others) =
        let (t, r, e', on, boot) = one_boots s cpu rest e first in
        let (u, r', e'') = boots_each rest t e' (rw (on, boot) others) in (u, Reach-trans r r', e'')

    -- On a machine with room for the parameters behind the start-up code, a page table below 4 GiB,
    -- an entry point of 64 bits, and 0 as the boot processor's number, if the heap can give every
    -- stack, and both bit arrays have every processor of the list, none of which is the boot
    -- processor, then from before the first start, with the online bits as bitarr!(512) makes
    -- them, the system can reach a state in which the boot processor has marked the kernel ready
    -- and every processor of the list is online.
    pub boot_completes :
        (apps : List ℕ) (s : System B K)
        → IsInitial B K c apps s
        → All (CanStart (len s.online_bits) (len s.booting_bits)) apps
        → (t : System B K) × Reach B K c s t
          × (t.kernel_ready ≡ true)
          × ((i : ℕ) → In i apps → is_online (t.aps i) ≡ true)
    boot_completes apps s initial a =
        let (t, r, e) = boots_each apps s initial.phase a in
        let u : System B K = record t { bsp = main; kernel_ready = true } in
        let r' : Reach B K c s u = next r (set_ready e) in
        let sound = Reach-IsSound_of_initial B K c apps machine initial r' in
        (u, r', refl, λ i m. elim (sound.done i m) [ inl gone ↦ absurd gone | inr on ↦ on ])
