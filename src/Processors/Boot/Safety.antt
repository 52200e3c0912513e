-- ===== src/Processors/Boot/Safety.antt =====
-- What the boot of the processors guarantees, and where it never ends.
use oxidized.Common.{ℕ, ◌≤◌, ◌≡◌, subst, arith, true, ◌⊎◌, List, inl, inr}
use oxidized.Common.Predicates.{In}
use oxidized.Crates.{BitStore}
use oxidized.Memory.Kmalloc.{Kmalloc}
use oxidized.Processors.{Control, is_ready, mark_cpu}
use oxidized.Processors.Boot.{
  Parameters, entered, waiting, System, Machine, Step, start, wake, mark_booting, configure,
  mark_online, see_ready, set_ready, enter, Reach, here, next,
}
use oxidized.Processors.Boot.Invariant.{
  is_busy, is_online, pending, IsGiven, IsSound, IsInitial, IsMachine, Reach-IsSound_of_initial,
}

module _ (B : BitStore) (K : Kmalloc) (c : Machine) (apps : List ℕ) {s t : System B K}
    (machine : IsMachine c) (initial : IsInitial B K c apps s) (reached : Reach B K c s t) where
  sound : IsSound B K c apps t.bsp t
  sound = Reach-IsSound_of_initial B K c apps machine initial reached

  -- On a machine with room for the parameters behind the start-up code, a page table below 4 GiB,
  -- an entry point of 64 bits, and 0 as the boot processor's number, in every state that the boot
  -- reaches from before the first start, with the online bits as bitarr!(512) makes them, at most
  -- one processor is on the way from the start-up command to its online bit, so that no other can
  -- read, or overwrite, the parameters that it starts with.
  pub one_at_a_time : (i j : ℕ) → is_busy (t.aps i) ≡ true → is_busy (t.aps j) ≡ true → i ≡ j
  one_at_a_time i j hi hj = let a = sound.busy i hi in let b = sound.busy j hj in cc

  -- On a machine with room for the parameters behind the start-up code, a page table below 4 GiB,
  -- an entry point of 64 bits, and 0 as the boot processor's number, in every state that the boot
  -- reaches from before the first start, with the online bits as bitarr!(512) makes them and
  -- whatever the interleaving, each processor that has read its parameters has the boot
  -- processor's page table, the end of the stack that was allocated for it, and the kernel's entry
  -- point; and once it has set its control registers they are the boot processor's, cut to the
  -- known flags.
  pub Reach-IsGiven : (i : ℕ) → IsGiven c (t.stacks i) (t.aps i)
  Reach-IsGiven i = sound.given i

  -- On a machine with room for the parameters behind the start-up code, a page table below 4 GiB,
  -- an entry point of 64 bits, and 0 as the boot processor's number, in every state that the boot
  -- reaches from before the first start, with the online bits as bitarr!(512) makes them, no
  -- processor has entered the kernel's main loop before every one of the list is online.
  pub entered-online :
      (i j : ℕ) (q : Parameters) (r : Control)
      → t.aps i ≡ entered q r
      → In j apps
      → is_online (t.aps j) ≡ true
  entered-online i j q r e m =
      let ready = sound.entered_ready i q r e in
      elim (subst (λ b. In j (pending b) ⊎ (is_online (t.aps j) ≡ true)) (sound.ready_main ready)
        (sound.done j m)) [ inl none_left ↦ absurd none_left | inr on ↦ on ]

module _ (B : BitStore) (K : Kmalloc) (c : Machine) where
  open B use {len, len-assign}

  -- The boot processor waits for a processor that the bit array does not have.
  record IsStuck (cpu : ℕ) (rest : List ℕ) (s : System B K) : Type 0 where
    phase : s.bsp ≡ waiting cpu rest
    absent : len s.online_bits ≤ cpu

  Step-IsStuck :
      {s t : System B K} (cpu : ℕ) (rest : List ℕ)
      → Step B K c s t
      → IsStuck cpu rest s
      → IsStuck cpu rest t
  unfolding is_ready mark_cpu
  Step-IsStuck cpu rest (start i more e ne given) v = let w = v.phase in cc
  Step-IsStuck cpu rest (wake i e) v = record { phase = v.phase; absent = v.absent }
  Step-IsStuck cpu rest (mark_booting i q e right marked) v = record {
    phase = v.phase;
    absent = v.absent;
  }
  Step-IsStuck cpu rest (configure i q e) v = record { phase = v.phase; absent = v.absent }
  Step-IsStuck cpu rest (mark_online {s} i q r e marked) v = record {
    phase = v.phase;
    absent = ground (arith, marked, v.absent, len-assign s.online_bits i true);
  }
  Step-IsStuck cpu rest (see_ready i more e r) v =
      let w = v.phase in let same : i ≡ cpu = cc in absurd (ground (arith, r, same, v.absent))
  Step-IsStuck cpu rest (set_ready e) v = let w = v.phase in cc
  Step-IsStuck cpu rest (enter i q r e ready) v = record { phase = v.phase; absent = v.absent }

  -- Once the boot processor waits for a processor whose number the bit array of online processors
  -- does not have, it waits for ever, whatever the processors do.
  pub waits_for_ever :
      {s t : System B K} (cpu : ℕ) (rest : List ℕ)
      → s.bsp ≡ waiting cpu rest
      → len s.online_bits ≤ cpu
      → Reach B K c s t
      → t.bsp ≡ waiting cpu rest
  waits_for_ever {s} cpu rest e l r = (go r).phase
    where
      go : {t : System B K} → Reach B K c s t → IsStuck cpu rest t
      go here = record { phase = e; absent = l }
      go (next r st) = Step-IsStuck cpu rest st (go r)
