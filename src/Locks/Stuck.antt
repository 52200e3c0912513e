-- ===== src/Locks/Stuck.antt =====
-- An interrupt handler that prints, on a processor that is printing.
use oxidized.Common.{
  ℕ, ◌⊎◌, arith, ◌≡◌, ◌≢◌, refl, sym, ◌∙◌, ap, subst, ◌==◌, ==_refl, ne→==, ℕ_discrete, true, false,
  inl, inr, none, some, ◌∷◌, ◌++◌,
}
use oxidized.Common.Predicates.{In}
use oxidized.Locks.{
  Lock, acquire, unmask, serial, software_handlers, State, update, Advance, take, give, enable,
  Step, advance, interrupt, Reach, here, next,
}
use oxidized.Locks.Code.{
  Code, Handler, timer, spurious, legacy_syscall, no_handler, general_interrupt_handler,
}

-- Processor `i` asks for a lock that it has, or for another one and then for that, with its
-- interrupts off.
record IsStuck (i : ℕ) (k l : Lock) (rest : Code) (s : State) : Type 0 where
  asks : (s.code i ≡ acquire k ∷ acquire l ∷ rest) ⊎ (s.code i ≡ acquire l ∷ rest)
  mine : s.owner l ≡ some i
  off : s.enabled i ≡ false
  alone : (j : ℕ) → i ≢ j → In l (s.guards j) → ⊥

module _ {i : ℕ} {k l : Lock} {rest : Code} (differ : k ≢ l) {s : State}
    (v : IsStuck i k l rest s) where
  -- All that it can do is to take the first of the two.
  own_step : {t : State} → Advance i s t → IsStuck i k l rest t
  own_step (take m after e free) = elim v.asks [
    | inr a ↦
        (let b = v.mine in
          let same : m ≡ l = cc in
          let none_of = subst (λ m. s.owner m ≡ none) same free in absurd cc)
    | inl a ↦
        (let same : m ≡ k = cc in
          let left : after ≡ acquire l ∷ rest = cc in
          let apart : m ≢ l = λ e. differ cc in
          record {
            asks = inr (rw (==_refl i) left);
            mine = rw (ne→== m l apart) v.mine;
            off = v.off;
            alone = λ j ne. rw (ne→== i j ne) (v.alone j ne);
          })
  ]
  own_step (give m after outer e g) = elim v.asks [ inl a ↦ absurd cc | inr a ↦ absurd cc ]
  own_step (enable after e) = elim v.asks [ inl a ↦ absurd cc | inr a ↦ absurd cc ]

  other : (j : ℕ) → i ≢ j → (j == i) ≡ false
  other j ne = ne→== j i (λ e. ne (sym e))

  Advance-IsStuck : (j : ℕ) {t : State} → Advance j s t → i ≢ j → IsStuck i k l rest t
  Advance-IsStuck j (take m after e free) ne =
      let taken : m ≢ l = λ same.
        (let none_of = subst (λ m. s.owner m ≡ none) same free in let b = v.mine in absurd cc) in
      record {
        asks = rw (other j ne) v.asks;
        mine = rw (ne→== m l taken) v.mine;
        off = v.off;
        alone = λ p q. elim (ℕ_discrete j p) [
          | yes same ↦
              (let hit : (j == p) ≡ true = subst (λ p. (j == p) ≡ true) same (==_refl j) in
                rw hit (λ q. elim q [ inl e ↦ taken (sym e) | inr r ↦ v.alone j ne r ]))
          | no differs ↦ rw (ne→== j p differs) (v.alone p q)
        ];
      }
  Advance-IsStuck j (give m after outer e g) ne =
      let kept : m ≢ l = λ same. v.alone j ne (subst (In l) (sym g) (inl (sym same))) in
      record {
        asks = rw (other j ne) v.asks;
        mine = rw (ne→== m l kept) v.mine;
        off = v.off;
        alone = λ p q. elim (ℕ_discrete j p) [
          | yes same ↦
              (let hit : (j == p) ≡ true = subst (λ p. (j == p) ≡ true) same (==_refl j) in
                rw hit (λ q. v.alone j ne (subst (In l) (sym g) (inr q))))
          | no differs ↦ rw (ne→== j p differs) (v.alone p q)
        ];
      }
  Advance-IsStuck j (enable after e) ne = record {
    asks = rw (other j ne) v.asks;
    mine = v.mine;
    off = rw (other j ne) v.off;
    alone = v.alone;
  }

module _ {Handles : Code → Type 0} {i : ℕ} {k l : Lock} {rest : Code} (differ : k ≢ l) where
  Step-IsStuck : {s t : State} → Step Handles s t → IsStuck i k l rest s → IsStuck i k l rest t
  Step-IsStuck {t = t} (advance {s} j a) v = elim (ℕ_discrete i j) [
    | yes same ↦ own_step differ v (subst (λ j. Advance j s t) (sym same) a)
    | no ne ↦ Advance-IsStuck differ v j a ne
  ]
  Step-IsStuck (interrupt {s} j h on allowed) v =
      let ne : i ≢ j = λ e. (let b = subst (λ k. s.enabled k ≡ false) e v.off in absurd cc) in
      record {
        asks = rw (other differ v j ne) v.asks;
        mine = v.mine;
        off = rw (other differ v j ne) v.off;
        alone = v.alone;
      }

  Reach-IsStuck : {s t : State} → Reach Handles s t → IsStuck i k l rest s → IsStuck i k l rest t
  Reach-IsStuck here v = v
  Reach-IsStuck (next r st) v = Step-IsStuck st (Reach-IsStuck r v)

-- The handlers that print: all but the timer's.
abbrev IsPrinting : Handler → Type 0
IsPrinting timer = ⊥
IsPrinting (spurious m) = Unit
IsPrinting (legacy_syscall m cloned called dropped) = Unit
IsPrinting (no_handler m) = Unit

prints_first :
    (h : Handler)
    → IsPrinting h
    → (rest : Code) × (general_interrupt_handler h
        ≡ acquire software_handlers ∷ acquire serial ∷ rest)
prints_first timer p = absurd p
prints_first (spurious m) p = (_, refl)
prints_first (legacy_syscall m cloned called dropped) p = (_, refl)
prints_first (no_handler m) p = (_, refl)

update_at : {A : Type 0} (f : ℕ → A) (i : ℕ) (a : A) → update f i a i ≡ a
update_at f i a = rw (==_refl i) refl

-- What processor `i` has left to do once the interrupt has arrived, and the state then.
abbrev left_to_do : Handler → State → ℕ → Code
left_to_do h s i = general_interrupt_handler h ++ (unmask ∷ s.code i)

abbrev interrupted : Handler → State → ℕ → State
interrupted h s i = record s {
  code = update s.code i (left_to_do h s i);
  enabled = update s.enabled i false;
}

-- A processor is writing to the serial port with its interrupts on, as another processor than the boot
-- processor does in kernel_cpu_main. An interrupt whose handler prints (a spurious one, a legacy system
-- call or a vector without a handler) may arrive then; and from the moment that it has, whatever the
-- processors do, the processor is at most past the first action of the handler, which takes the table of
-- handlers, and the port is its own: it never goes on, and no other ever writes to the port.
pub printing_interrupt_sticks :
    (Handles : Code → Type 0) (h : Handler) (s : State) (i : ℕ)
    → Handles (general_interrupt_handler h)
    → IsPrinting h
    → s.enabled i ≡ true
    → s.owner serial ≡ some i
    → ((j : ℕ) → i ≢ j → In serial (s.guards j) → ⊥)
    → Step Handles s (interrupted h s i)
      × ((u : State)
          → Reach Handles (interrupted h s i) u
          → ((u.code i ≡ left_to_do h s i)
              ⊎ (left_to_do h s i ≡ acquire software_handlers ∷ u.code i))
            × (u.owner serial ≡ some i))
printing_interrupt_sticks Handles h s i allowed p on mine alone =
    let (rest, e) = prints_first h p in
    let after = rest ++ (unmask ∷ s.code i) in
    let whole : left_to_do h s i ≡ acquire software_handlers ∷ acquire serial ∷ after =
      ap (λ c. c ++ (unmask ∷ s.code i)) e in
    let stuck : IsStuck i software_handlers serial after (interrupted h s i) = record {
      asks = inl (update_at s.code i (left_to_do h s i) ∙ whole);
      mine = mine;
      off = update_at s.enabled i false;
      alone = alone;
    } in
    (
      interrupt i (general_interrupt_handler h) on allowed,
      λ u r.
          (let v = Reach-IsStuck (omega arith) r stuck in
            (
              elim v.asks [
                | inl a ↦ inl (a ∙ sym whole)
                | inr a ↦ inr (whole ∙ ap (λ c. acquire software_handlers ∷ c) (sym a))
              ],
              v.mine,
            )),
    )
