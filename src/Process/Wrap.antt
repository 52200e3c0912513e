-- ===== src/Process/Wrap.antt =====
-- A history of `create_process`: the ids up to 2^64 processes.
use oxidized.Common.{
  ℕ, zero, suc, ◌<◌, ◌≤◌, ◌%◌, ◌^◌, ◌≡◌, refl, none, some, arith, ltb, if◌then◌else◌, Outcome,
  returns, ◌>>=◌,
}
use oxidized.Process.{ProcessManager, new_descriptor, new_manager, create_process}
use oxidized.Process.Table.{IsSorted, find, Created, create_process-Created}

-- `n` calls in a row, each with as much fuel.
pub create_many : ℕ → ℕ → ProcessManager → Outcome ProcessManager
create_many fuel zero m = returns m
create_many fuel (suc n) m = do m' ← create_many fuel n m; r ← create_process fuel m'; returns r.1

-- The processes 0 … n - 1 exist and no other, and the next id is `n`, wrapped.
pub record IsNumbered (n : ℕ) (m : ProcessManager) : Type 0 where
  pub sorted : IsSorted m.processes
  pub next : m.next_process_id ≡ n % 2 ^ 64
  pub ids : (j : ℕ) → find j m.processes ≡ (if ltb j n then some (new_descriptor j) else none)

new_manager-IsNumbered : IsNumbered 0 new_manager
unfolding new_manager find
new_manager-IsNumbered = record { sorted = tt; next = refl; ids = λ j. ground arith }

Created-IsNumbered :
    (n : ℕ) (m m' : ProcessManager)
    → n < 2 ^ 64
    → IsNumbered n m
    → Created m m'
    → IsNumbered (suc n) m'
Created-IsNumbered n m m' h v c = record {
  sorted = c.sorted;
  next = omega (arith, c.next, v.next);
  ids = λ j.
      let at : m.next_process_id ≡ n = omega (arith, v.next) in
      ground (arith, c.table j, v.ids j, at);
}

step-IsNumbered :
    (fuel n : ℕ) (m : ProcessManager)
    → n < 2 ^ 64
    → IsNumbered n m
    → (m' : ProcessManager) × (create_process (suc fuel) m
        ≡ returns (new_descriptor m.next_process_id, m'))
      × IsNumbered (suc n) m'
step-IsNumbered fuel n m h v =
    let at : m.next_process_id ≡ n = omega (arith, v.next) in
    let (m', e, c) =
      create_process-Created fuel m v.sorted (ground (arith, v.ids m.next_process_id, at)) in
    (m', e, Created-IsNumbered n m m' h v c)

-- Up to 2^64 calls on a new manager all return, and number the processes 0, 1, 2, … in order.
pub create_many-IsNumbered :
    (fuel n : ℕ)
    → n ≤ 2 ^ 64
    → (m : ProcessManager) × (create_many (suc fuel) n new_manager ≡ returns m) × IsNumbered n m
unfolding create_many
create_many-IsNumbered fuel zero h = (new_manager, refl, new_manager-IsNumbered)
create_many-IsNumbered fuel (suc n) h =
    let (m, e, v) = create_many-IsNumbered fuel n (omega arith) in
    let (m', e', v') = step-IsNumbered fuel n m h v in (m', rw (e, e'), v')
