-- ===== src/Locks/Progress.antt =====
-- Runs of the kernel's processors, with the timer's interrupt at any time.
use oxidized.Common.{
  ℕ, ◌⊎◌, zero, suc, ◌≤◌, ◌≡◌, ◌≢◌, refl, sym, ap, subst, arith, ne→==, false, Option, Option-cases,
  none, some, inl, inr, [], ◌∷◌, ◌++◌,
}
use oxidized.Common.Predicates.{In}
use oxidized.Locks.{
  Lock, device_tree, unmask, Advance, State, Step, advance, interrupt, Reach, here, next,
}
use oxidized.Locks.Code.{Code, timer, general_interrupt_handler}
use oxidized.Locks.Main.{Run, ApRun, ap_code, run_on, start}
use oxidized.Locks.Order.{IsOrdered, IsHandler, IsSound, first_bound, at_end}
use oxidized.Locks.Sound.{at_code, Reach-IsSound}
use oxidized.Locks.Work.{
  IsIdle, step_or_end, left, Advance-Worked, still-IsIdle, Ends, ends, IsDone, finish,
}
use oxidized.Locks.Nesting.Ends.{kernel_boot-IsOrdered, ap_code-IsOrdered}

-- Of the interrupts only the timer's arrives.
abbrev pub IsTimer : Code → Type 0
IsTimer h = h ≡ general_interrupt_handler timer

timer-IsHandler : (h : Code) → IsTimer h → IsHandler h
timer-IsHandler h e i gs rest low o =
    subst (λ c. IsOrdered i false gs (c ++ (unmask ∷ rest))) (sym e)
      (low, (first_bound i, omega arith), (gs, refl, (low, o)))

start-IsOrdered :
    (r : Run) (others : ℕ → Option ApRun) (i : ℕ) → IsOrdered i false [] (run_on r others i)
start-IsOrdered r others zero = kernel_boot-IsOrdered r
start-IsOrdered r others (suc i) = ap_code-IsOrdered i (others i)

start-IsSound : (r : Run) (others : ℕ → Option ApRun) → IsSound (start r others)
start-IsSound r others i = record {
  ordered = start-IsOrdered r others i;
  low = λ e. tt;
  holds = λ l m. absurd m;
  held = λ l e. absurd cc;
  apart = tt;
}

reached-IsSound :
    (r : Run) (others : ℕ → Option ApRun) {s : State} → Reach IsTimer (start r others) s → IsSound s
reached-IsSound r others w = Reach-IsSound IsTimer timer-IsHandler w (start-IsSound r others)

Step-IsIdle : {s t : State} (n : ℕ) → Step IsTimer s t → IsIdle n s → IsIdle n t
Step-IsIdle n (advance i a) idle = still-IsIdle (Advance-Worked i a) n idle
Step-IsIdle n (interrupt {s} i h on allowed) idle = λ j b.
    let ne : i ≢ j = λ e. (let off = (idle j b).1 in let same = ap s.enabled e in absurd cc) in
    rw (ne→== i j ne) (idle j b)

Reach-IsIdle : {s t : State} (n : ℕ) → Reach IsTimer s t → IsIdle n s → IsIdle n t
Reach-IsIdle n here idle = idle
Reach-IsIdle n (next r st) idle = Step-IsIdle n st (Reach-IsIdle n r idle)

start-IsIdle :
    (r : Run) (others : ℕ → Option ApRun) (n : ℕ)
    → ((i : ℕ) → n ≤ i → others i ≡ none)
    → IsIdle (suc n) (start r others)
start-IsIdle r others n few zero h = absurd (omega (arith, h))
start-IsIdle r others n few (suc i) h = (ap ap_code (few i (omega (arith, h))), refl)

-- Every state of a run can go on to the end, one step after the other, where the waits for another
-- processor are given as the number of their rounds. So no order of the locks deadlocks; that the waits
-- end is not shown.
pub kernel_finishes :
    (r : Run) (others : ℕ → Option ApRun) (n : ℕ)
    → ((i : ℕ) → n ≤ i → others i ≡ none)
    → (s : State) → Reach IsTimer (start r others) s
    → Ends s
kernel_finishes r others n few s w =
    finish (left s.code (suc n)) (suc n) s (reached-IsSound r others w)
      (Reach-IsIdle (suc n) w (start-IsIdle r others n few)) (omega arith)

-- The steps that there are, taken one after the other.
follow : {s t : State} → Ends t → Reach IsTimer s t → (u : State) × Reach IsTimer s u × IsDone u
follow {t = t} (ends (inl done) after) w = (t, w, done)
follow (ends (inr (j, u, a)) after) w = follow (after j u a) (next w (advance j a))

pub kernel_reaches_end :
    (r : Run) (others : ℕ → Option ApRun) (n : ℕ)
    → ((i : ℕ) → n ≤ i → others i ≡ none)
    → (t : State) × Reach IsTimer (start r others) t × IsDone t
kernel_reaches_end r others n few =
    follow (kernel_finishes r others n few (start r others) here) here

-- The processors boot, with the timer's interrupt at any time, whatever each of them prints and allocates, and
-- with each loop that polls another processor's bit or the kernel's signal unrolled to the number of its
-- rounds, whichever that is. In no state that they come to do the locks hold all of them up: some
-- processor can take a step, unless each is at the end of its code. Whether the polling ends is not
-- part of this.
pub no_deadlock :
    (r : Run) (others : ℕ → Option ApRun) (n : ℕ)
    → ((i : ℕ) → n ≤ i → others i ≡ none)
    → (s : State) → Reach IsTimer (start r others) s
    → ((i : ℕ) → s.code i ≡ []) ⊎ ((j : ℕ) × (t : State) × Advance j s t)
no_deadlock r others n few s w =
    step_or_end (suc n) s (reached-IsSound r others w)
      (Reach-IsIdle (suc n) w (start-IsIdle r others n few))

-- In a state that these processors come to in which each is at the end of its code, the boot processor has
-- the lock of the device tree, and no other lock is taken.
pub kernel_ends :
    (r : Run) (others : ℕ → Option ApRun) (s : State)
    → Reach IsTimer (start r others) s
    → IsDone s
    → (s.owner device_tree ≡ some 0) × ((l : Lock) → l ≢ device_tree → s.owner l ≡ none)
kernel_ends r others s w done =
    let v = reached-IsSound r others w in
    let last = λ (i : ℕ). (at_code {s = s} (done i) v).ordered in
    (
      (v 0).holds device_tree (subst (In device_tree) (sym (last 0)) (inl refl)),
      λ l ne. elim (Option-cases (s.owner l)) [
        | inl free ↦ free
        | inr (i, taken) ↦ absurd (ne (at_end i (s.guards i) l (last i) ((v i).held l taken)).1)
      ],
    )
