-- ===== src/Processors/Boot/Invariant.antt =====
-- The invariant of the booting processors, kept by every step.
mod Defs
mod Moves
pub use Defs.*
use oxidized.Common.{
  ℕ, ◌%◌, ◌+◌, ◌*◌, ◌^◌, ◌<◌, ◌≤◌, ◌≡◌, ◌≢◌, refl, ap, ◌∙◌, sym, subst, arith, ◌==◌, if◌then◌else◌,
  Bool, true, false, Bool-cases, ==_iff, List, [], ◌∷◌, ◌⊎◌, inl, inr, Outcome, returns, ltb,
}
use oxidized.Common.Predicates.{In, Distinct}
use oxidized.Crates.{BitStore}
use oxidized.Shared.Memcpy.{Memory}
use oxidized.Memory.Kmalloc.{Kmalloc}
use oxidized.Memory.Frames.{page_size}
use oxidized.Processors.{
  Control, new_status_bits, setup_trampoline, is_ready, mark_cpu, set_control_regs, cpu_stack_pages,
}
use oxidized.Processors.Trampoline.{Holds, setup_trampoline-Holds}
use oxidized.Processors.Boot.{
  Parameters, Ap, stopped, signalled, started, booting, configured, online, entered, Bsp, starting,
  waiting, main, update, System, Machine, parameters_at, Step, start, wake, mark_booting, configure,
  mark_online, see_ready, set_ready, enter, Reach, here, next,
}
use Defs.{is_busy, queue, IsGiven, IsSound, IsInitial, IsMachine}
use Moves.{
  start-IsSound, go_on-IsSound, mark_online-IsSound, see_ready-IsSound, set_ready-IsSound,
  enter-IsSound,
}

module _ (B : BitStore) (K : Kmalloc) (c : Machine) (apps : List ℕ) where
  open B use {len, len-bitarr, test-bitarr}

  -- The first bit is set from the beginning, and no other.
  initial_off : (i : ℕ) → i ≢ 0 → is_ready B (new_status_bits B) i ≡ false
  unfolding is_ready
  initial_off i ne = ground (arith, len-bitarr 512, test-bitarr 512 i)

  Initial-IsSound :
      (s : System B K) → IsMachine c → IsInitial B K c apps s → IsSound B K c apps (starting apps) s
  Initial-IsSound s machine v = record {
    slots = λ i q e. cc;
    busy = λ i h. let old = v.stopped_all i in ground (arith, old);
    given = λ i. subst (λ a. IsGiven c (s.stacks i) a) (sym (v.stopped_all i)) tt;
    bits = λ i o r.
        (let own = machine.first in
          let clear = initial_off i (λ zero. o cc) in
          let same = ap (λ b. is_ready B b i) v.bits in cc);
    done = λ i m. inl m;
    apart = v.apart;
    other = v.other;
    unstarted = λ i m. v.stopped_all i;
    entered_ready = λ i q r e. let old = v.stopped_all i in cc;
    ready_main = λ e. let no = v.not_ready in cc;
  }

  -- A state with the boot processor's phase made explicit.
  at : {s : System B K} {b : Bsp} → s.bsp ≡ b → IsSound B K c apps s.bsp s → IsSound B K c apps b s
  at {s} e v = subst (λ b. IsSound B K c apps b s) e v

  is_busy_of : {a b : Ap} → a ≡ b → is_busy b ≡ true → is_busy a ≡ true
  is_busy_of e h = ap is_busy e ∙ h

  wake-IsSound :
      {b : Bsp} {s : System B K} (cpu : ℕ)
      → IsMachine c
      → s.aps cpu ≡ signalled
      → IsSound B K c apps b s
      → IsSound B K c apps b
          (record s { aps = update s.aps cpu (started (parameters_at c s.memory)) })
  unfolding parameters_at
  wake-IsSound {b} {s} cpu machine e v =
      let was = is_busy_of e refl in
      let (holds, _) = v.slots cpu (queue b) (v.busy cpu was) in
      let fits : c.cr3 % 2 ^ 32 ≡ c.cr3 = (let small = machine.table in omega arith) in
      go_on-IsSound B K c apps cpu (started (parameters_at c s.memory)) s.booting_bits was refl
        (holds.page_table ∙ fits, holds.stack_end, holds.entry) v

  configure-IsSound :
      {b : Bsp} {s : System B K} (cpu : ℕ) (q : Parameters)
      → s.aps cpu ≡ booting q
      → IsSound B K c apps b s
      → IsSound B K c apps b
          (record s { aps = update s.aps cpu (configured q (set_control_regs c.known s.saved)) })
  unfolding set_control_regs
  configure-IsSound {b} {s} cpu q e v =
      let was = is_busy_of e refl in
      let (_, same) = v.slots cpu (queue b) (v.busy cpu was) in
      let had : IsGiven c (s.stacks cpu) (booting q) =
        subst (λ a. IsGiven c (s.stacks cpu) a) e (v.given cpu) in
      go_on-IsSound B K c apps cpu (configured q (c.known s.saved)) s.booting_bits was refl
        (had.0, had.1, had.2, ap c.known same) v

  Step-IsSound :
      {s t : System B K}
      → IsMachine c
      → Step B K c s t
      → IsSound B K c apps s.bsp s
      → IsSound B K c apps t.bsp t
  Step-IsSound m (start {s} cpu rest {m = m'} {h = h} {saved = saved} {stack = stack} e ne given)
        v =
      let (holds, same) =
        setup_trampoline-Holds c.code c.code_len c.page m.long K c.cr3 c.ap_entry c.registers saved
          s.memory m' s.heap h stack m.entry given in
      rw same (start-IsSound B K c apps cpu rest m' h stack ne holds (at e v))
  Step-IsSound m (wake cpu e) v = wake-IsSound cpu m e v
  Step-IsSound m (mark_booting {s} cpu q {bits} e right marked) v =
      go_on-IsSound B K c apps cpu (booting q) bits (is_busy_of e refl) refl
        (subst (λ a. IsGiven c (s.stacks cpu) a) e (v.given cpu)) v
  Step-IsSound m (configure cpu q e) v = configure-IsSound cpu q e v
  Step-IsSound m (mark_online cpu q r {bits} e marked) v =
      mark_online-IsSound B K c apps cpu q r bits e marked v
  Step-IsSound m (see_ready cpu rest e r) v = see_ready-IsSound B K c apps cpu rest r (at e v)
  Step-IsSound m (set_ready e) v = set_ready-IsSound B K c apps (at e v)
  Step-IsSound m (enter cpu q r e ready) v = enter-IsSound B K c apps cpu q r e ready v

  -- Whatever the interleaving, a state that is reached from before the first start is sound.
  pub Reach-IsSound_of_initial :
      {s t : System B K}
      → IsMachine c
      → IsInitial B K c apps s
      → Reach B K c s t
      → IsSound B K c apps t.bsp t
  Reach-IsSound_of_initial {s} m v here =
      subst (λ b. IsSound B K c apps b s) (sym v.phase) (Initial-IsSound s m v)
  Reach-IsSound_of_initial m v (next r st) = Step-IsSound m st (Reach-IsSound_of_initial m v r)
