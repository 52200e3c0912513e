-- ===== src/Locks/Waits.antt =====
-- A processor that waits for a lock waits for one that can go on.
use oxidized.Common.{
  ℕ, zero, suc, ◌+◌, ◌≤◌, ◌<◌, ◌≡◌, ◌≢◌, refl, subst, arith, Bool, true, false, inl, inr, some,
  Option-cases, List, [], ◌∷◌,
}
use oxidized.Common.Predicates.{All, In, All-in}
use oxidized.Locks.{
  Lock, software_handlers, Action, acquire, release, unmask, State, Advance, take, give, enable,
}
use oxidized.Locks.Order.{Takes, IsSound, first_of, first_to_lock, is_boot, at_end}
use oxidized.Locks.Sound.{at_code}

-- Some processor has a step.
abbrev pub Moves : State → Type 0
Moves s = (i : ℕ) × (t : State) × Advance i s t

-- Code that does not begin with a lock can go on.
step_unless :
    (s : State)
    → IsSound s
    → (i : ℕ) (c : List Action) → s.code i ≡ c
    → c ≢ []
    → ((l : Lock) (rest : List Action) → c ≡ acquire l ∷ rest → Moves s)
    → Moves s
step_unless s v i [] e ne wait = absurd (ne refl)
step_unless s v i (acquire l ∷ rest) e ne wait = wait l rest refl
step_unless s v i (release l ∷ rest) e ne wait =
    let (outer, g, o) = (at_code {s = s} e v).ordered in (i, _, give l rest outer e g)
step_unless s v i (unmask ∷ rest) e ne wait = (i, _, enable rest e)

bound_of_lock : (first : ℕ) (on : Bool) (l : Lock) → Takes first on l → l < suc software_handlers
bound_of_lock first true l t = let b = t.1 in omega (arith, b)
bound_of_lock first false l t = t.1

below : (l k : Lock) (gs : List Lock) → All (λ g. g < k) gs → In l gs → l < k
below l k gs a m = All-in (λ g. g < k) l gs a m

-- Only the boot processor waits for the device tree, and for itself it does not wait.
not_waiting :
    (s : State)
    → IsSound s
    → (i j : ℕ) (l : Lock) (rest : List Action) → s.code i ≡ acquire l ∷ rest
    → s.owner l ≡ some j
    → s.code j ≢ []
not_waiting s v i j l rest e taken done =
    let w = at_code {s = s} e v in
    let from = first_to_lock (first_of i) (s.enabled i) l w.ordered.1 in
    let m = (v j).held l taken in
    let (j₀, tree) = at_end j (s.guards j) l (at_code {s = s} done v).ordered m in
    let i₀ : i ≡ 0 = is_boot i (omega (arith, from, tree)) in
    let d = subst (λ k. s.code k ≡ []) j₀ done in
    let b = subst (λ k. s.code k ≡ acquire l ∷ rest) i₀ e in absurd cc

-- A processor that waits for a lock waits for one that can step, or that waits for a later lock.
waits :
    (fuel : ℕ) (s : State)
    → IsSound s
    → (i : ℕ) (l : Lock) (rest : List Action) → s.code i ≡ acquire l ∷ rest
    → suc software_handlers ≤ fuel + l
    → Moves s
waits zero s v i l rest e h =
    let b = bound_of_lock (first_of i) (s.enabled i) l (at_code {s = s} e v).ordered.1 in
    absurd (omega (arith, b, h))
waits (suc fuel) s v i l rest e h = elim (Option-cases (s.owner l)) [
  | inl free ↦ (i, _, take l rest e free)
  | inr (j, taken) ↦
      let m = (v j).held l taken in
      step_unless s v j (s.code j) refl (not_waiting s v i j l rest e taken) (λ k after q.
        let b = below l k (s.guards j) (at_code {s = s} q v).ordered.0 m in
        waits fuel s v j k after q (omega (arith, b, h)))
]

pub moves : (s : State) → IsSound s → (i : ℕ) → s.code i ≢ [] → Moves s
moves s v i ne =
    step_unless s v i (s.code i) refl ne
      (λ l rest e. waits (suc software_handlers) s v i l rest e (omega arith))
