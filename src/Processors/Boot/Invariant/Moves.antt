-- ===== src/Processors/Boot/Invariant/Moves.antt =====
-- Each kind of step keeps it.
use oxidized.Common.{
  ℕ, ◌+◌, ◌≡◌, ◌≢◌, refl, sym, subst, arith, ◌==◌, true, false, Bool-cases, ==_iff, List, [], ◌∷◌,
  inl, inr, returns,
}
use oxidized.Common.Predicates.{In}
use oxidized.Crates.{BitStore}
use oxidized.Shared.Memcpy.{Memory}
use oxidized.Memory.Kmalloc.{Kmalloc}
use oxidized.Processors.{Control, is_ready, mark_cpu}
use oxidized.Processors.Trampoline.{Holds}
use oxidized.Processors.Boot.{
  Parameters, Ap, stopped, signalled, started, booting, configured, online, entered, Bsp, starting,
  waiting, main, update, System, Machine,
}
use oxidized.Processors.Boot.Invariant.Defs.{stack_length, is_busy, is_online, IsGiven, IsSound}

IsGiven-update :
    (c : Machine) (aps : ℕ → Ap) (stacks : ℕ → ℕ) (i : ℕ) (a : Ap)
    → IsGiven c (stacks i) a
    → ((j : ℕ) → IsGiven c (stacks j) (aps j))
    → (j : ℕ) → IsGiven c (stacks j) (update aps i a j)
IsGiven-update c aps stacks i a new old j = elim (Bool-cases (i == j)) [
  | inl same ↦ rw same (subst (λ k. IsGiven c (stacks k) a) ((==_iff i j).0 same) new)
  | inr apart ↦ rw apart (old j)
]

IsGiven-start :
    (c : Machine) (aps : ℕ → Ap) (stacks : ℕ → ℕ) (i stack : ℕ)
    → ((j : ℕ) → IsGiven c (stacks j) (aps j))
    → (j : ℕ) → IsGiven c (update stacks i stack j) (update aps i signalled j)
IsGiven-start c aps stacks i stack old j = elim (Bool-cases (i == j)) [
  | inl same ↦ rw same tt
  | inr apart ↦ rw apart (old j)
]

-- A busy processor is not online.
busy-online :
    (a : Ap)
    → is_busy a ≡ true
    → (is_online a ≡ false) × ((q : Parameters) (r : Control) → a ≢ entered q r)
busy-online stopped h = cc
busy-online signalled h = (refl, λ q r e. cc)
busy-online (started p) h = (refl, λ q r e. cc)
busy-online (booting p) h = (refl, λ q r e. cc)
busy-online (configured p r) h = (refl, λ q r e. cc)
busy-online (online p r) h = cc
busy-online (entered p r) h = cc

module _ (B : BitStore) (K : Kmalloc) (c : Machine) where
  open B use {len, test, assign, len-assign, test-assign}

  module _ (apps : List ℕ) where
    pub see_ready-IsSound :
        {s : System B K} (cpu : ℕ) (rest : List ℕ)
        → is_ready B s.online_bits cpu ≡ true
        → IsSound B K c apps (waiting cpu rest) s
        → IsSound B K c apps (starting rest) (record s { bsp = starting rest })
    see_ready-IsSound {s} cpu rest r v =
        let seen : is_online (s.aps cpu) ≡ true = v.bits cpu (λ q. v.other (inl (sym q))) r in
        record {
          slots = λ i q h. cc;
          busy = λ i h. let same = v.busy i h in ground (arith, seen);
          given = v.given;
          bits = v.bits;
          done = λ i m. elim (v.done i m) [
            | inr o ↦ inr o
            | inl (inl q) ↦ inr (rw q seen)
            | inl (inr q) ↦ inl q
          ];
          apart = v.apart.1;
          other = λ m. v.other (inr m);
          unstarted = v.unstarted;
          entered_ready = v.entered_ready;
          ready_main = λ h. let no_main = v.ready_main h in cc;
        }

    pub set_ready-IsSound :
        {s : System B K}
        → IsSound B K c apps (starting []) s
        → IsSound B K c apps main (record s { bsp = main; kernel_ready = true })
    set_ready-IsSound {s} v = record {
      slots = λ i q h. cc;
      busy = λ i h. let same = v.busy i h in cc;
      given = v.given;
      bits = v.bits;
      done = v.done;
      apart = tt;
      other = v.other;
      unstarted = v.unstarted;
      entered_ready = λ i q r h. refl;
      ready_main = λ h. refl;
    }

    pub start-IsSound :
        {s : System B K} (cpu : ℕ) (rest : List ℕ) (m : Memory) (h : K.Heap) (stack : ℕ)
        → cpu ≢ c.own
        → Holds c.code c.code_len c.page c.cr3 (stack + stack_length) c.ap_entry m
        → IsSound B K c apps (starting (cpu ∷ rest)) s
        → IsSound B K c apps (waiting cpu rest) (record s {
          memory = m;
          heap = h;
          saved = c.registers;
          bsp = waiting cpu rest;
          aps = update s.aps cpu signalled;
          stacks = update s.stacks cpu stack;
        })
    start-IsSound {s} cpu rest m h stack ne holds v =
        let still : s.aps cpu ≡ stopped = v.unstarted cpu (inl refl) in
        record {
          slots = λ i q e.
              let same : i ≡ cpu = cc in
              (
                subst (λ t. Holds c.code c.code_len c.page c.cr3 (t + stack_length) c.ap_entry m)
                    (ground (arith, same)) holds,
                refl,
              );
          busy = λ i b. let old = v.busy i in ground (arith, old);
          given = IsGiven-start c s.aps s.stacks cpu stack v.given;
          bits = λ i o r. let old = v.bits i o r in ground (arith, old, still);
          done =
              λ i o. elim (v.done i o) [ inl q ↦ inl q | inr on ↦ inr (ground (arith, on, still)) ];
          apart = v.apart;
          other = v.other;
          unstarted = λ i o.
              let old = v.unstarted i (inr o) in
              let ne : cpu ≢ i = λ q. v.apart.0 (subst (λ j. In j rest) (sym q) o) in
              ground (arith, ne, old);
          entered_ready = λ i q r e. let old = v.entered_ready i q r in ground (arith, old);
          ready_main = λ e. let old = v.ready_main e in cc;
        }

    -- A processor goes on, and is still busy.
    pub go_on-IsSound :
        {b : Bsp} {s : System B K} (cpu : ℕ) (a : Ap) (booting_bits : B.Bits)
        → is_busy (s.aps cpu) ≡ true
        → is_busy a ≡ true
        → IsGiven c (s.stacks cpu) a
        → IsSound B K c apps b s
        → IsSound B K c apps b (record s { booting_bits = booting_bits; aps = update s.aps cpu a })
    go_on-IsSound {b} {s} cpu a booting_bits was is new v =
        let (off, no_entered) = busy-online a is in
        let (was_off, _) = busy-online (s.aps cpu) was in
        record {
          slots = v.slots;
          busy = λ i h. let old = v.busy i in let at = v.busy cpu was in ground (arith, old, at);
          given = IsGiven-update c s.aps s.stacks cpu a new v.given;
          bits = λ i o r. let old = v.bits i o r in ground (arith, old, was_off);
          done = λ i m. elim (v.done i m) [
            | inl q ↦ inl q
            | inr on ↦ inr (ground (arith, on, was_off))
          ];
          apart = v.apart;
          other = v.other;
          unstarted = λ i m. let old = v.unstarted i m in ground (arith, old, was);
          entered_ready = λ i q r e.
              let old = v.entered_ready i q r in let no = no_entered q r in ground (arith, old, no);
          ready_main = v.ready_main;
        }

    pub mark_online-IsSound :
        {b : Bsp} {s : System B K} (cpu : ℕ) (q : Parameters) (r : Control) (bits : B.Bits)
        → s.aps cpu ≡ configured q r
        → mark_cpu B s.online_bits cpu ≡ returns bits
        → IsSound B K c apps b s
        → IsSound B K c apps b
            (record s { online_bits = bits; aps = update s.aps cpu (online q r) })
    unfolding mark_cpu is_ready
    mark_online-IsSound {b} {s} cpu q r bits was marked v =
        let had : IsGiven c (s.stacks cpu) (configured q r) =
          subst (λ a. IsGiven c (s.stacks cpu) a) was (v.given cpu) in
        record {
          slots = v.slots;
          busy = λ i h. let old = v.busy i in ground (arith, old);
          given = IsGiven-update c s.aps s.stacks cpu (online q r) had v.given;
          bits = λ i o set.
              let old = v.bits i o in
              ground (
                arith,
                old,
                marked,
                len-assign s.online_bits cpu true,
                test-assign s.online_bits cpu i true,
              );
          done = λ i m. elim (v.done i m) [ inl p ↦ inl p | inr on ↦ inr (ground (arith, on)) ];
          apart = v.apart;
          other = v.other;
          unstarted = λ i m. let old = v.unstarted i m in ground (arith, old, was);
          entered_ready = λ i q' r' e. let old = v.entered_ready i q' r' in ground (arith, old);
          ready_main = v.ready_main;
        }

    pub enter-IsSound :
        {b : Bsp} {s : System B K} (cpu : ℕ) (q : Parameters) (r : Control)
        → s.aps cpu ≡ online q r
        → s.kernel_ready ≡ true
        → IsSound B K c apps b s
        → IsSound B K c apps b (record s { aps = update s.aps cpu (entered q r) })
    enter-IsSound {b} {s} cpu q r was ready v =
        let had : IsGiven c (s.stacks cpu) (online q r) =
          subst (λ a. IsGiven c (s.stacks cpu) a) was (v.given cpu) in
        record {
          slots = v.slots;
          busy = λ i h. let old = v.busy i in ground (arith, old);
          given = IsGiven-update c s.aps s.stacks cpu (entered q r) had v.given;
          bits = λ i o set. let old = v.bits i o set in ground (arith, old);
          done = λ i m. elim (v.done i m) [ inl p ↦ inl p | inr on ↦ inr (ground (arith, on)) ];
          apart = v.apart;
          other = v.other;
          unstarted = λ i m. let old = v.unstarted i m in ground (arith, old, was);
          entered_ready = λ i q' r' e. ready;
          ready_main = v.ready_main;
        }
