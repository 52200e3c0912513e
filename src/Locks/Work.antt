-- ===== src/Locks/Work.antt =====
-- What the processors have left to do, and that it comes to an end.
use oxidized.Common.{
  ℕ, zero, suc, ◌+◌, ◌≤◌, ◌<◌, ◌≡◌, ◌≢◌, refl, sym, ◌∙◌, ap, subst, arith, ◌==◌, ==_refl, ne→==,
  ℕ_discrete, dec_lt, true, false, ◌⊎◌, inl, inr, [], ◌∷◌, length,
}
use oxidized.Locks.{Action, acquire, release, unmask, State, update, Advance, take, give, enable}
use oxidized.Locks.Code.{Code}
use oxidized.Locks.Order.{IsSound}
use oxidized.Locks.Sound.{Advance-IsSound}
use oxidized.Locks.Waits.{Moves, moves}

-- The processors from `n` on have nothing to do and take no interrupt.
abbrev pub IsIdle : ℕ → State → Type 0
IsIdle n s = (i : ℕ) → n ≤ i → (s.code i ≡ []) × (s.enabled i ≡ false)

-- The actions that the processors below `n` have left.
abbrev pub left : (ℕ → Code) → ℕ → ℕ
left code zero = 0
left code (suc n) = length (code n) + left code n

module _ (code : ℕ → Code) (i : ℕ) (rest : Code) where
  left-update-above : (n : ℕ) → n ≤ i → left (update code i rest) n ≡ left code n
  left-update-above zero h = refl
  left-update-above (suc n) h =
      let ih = left-update-above n (omega (arith, h)) in
      let ne : i ≢ n = λ e. omega (arith, h, e) in
      rw (ne→== i n ne) (ap (λ m. length (code n) + m) ih)

  left-update :
      (a : Action) (n : ℕ)
      → code i ≡ a ∷ rest
      → i < n
      → suc (left (update code i rest) n) ≡ left code n
  left-update a zero e h = omega (arith, h)
  left-update a (suc n) e h = elim (ℕ_discrete i n) [
    | yes same ↦
        let above = left-update-above n (omega (arith, same)) in
        let size : length (code n) ≡ suc (length rest) =
          ap length (subst (λ k. code k ≡ a ∷ rest) same e) in
        let hit : (i == n) ≡ true = subst (λ k. (i == k) ≡ true) same (==_refl i) in
        rw hit (omega (arith, above, size))
    | no other ↦
        let ih = left-update a n e (omega (arith, h, other)) in
        rw (ne→== i n other) (omega (arith, ih))
  ]

-- What a step of `i` does to the codes and the switches.
pub record Worked (i : ℕ) (s t : State) : Type 0 where
  action : Action
  rest : Code
  before : s.code i ≡ action ∷ rest
  code_after : t.code ≡ update s.code i rest
  others : (j : ℕ) → i ≢ j → t.enabled j ≡ s.enabled j

pub Advance-Worked : {s : State} (i : ℕ) {t : State} → Advance i s t → Worked i s t
Advance-Worked i (take l rest e free) = record {
  action = acquire l;
  rest = rest;
  before = e;
  code_after = refl;
  others = λ j ne. refl;
}
Advance-Worked i (give l rest outer e g) = record {
  action = release l;
  rest = rest;
  before = e;
  code_after = refl;
  others = λ j ne. refl;
}
Advance-Worked i (enable rest e) = record {
  action = unmask;
  rest = rest;
  before = e;
  code_after = refl;
  others = λ j ne. rw (ne→== i j ne) refl;
}

module _ {s : State} {i : ℕ} {t : State} (w : Worked i s t) (n : ℕ) (idle : IsIdle n s) where
  within : i < n
  within = elim (dec_lt i n) [
    | yes h ↦ h
    | no h ↦ (let e = (idle i (omega (arith, h))).0 in let b = w.before in absurd cc)
  ]

  pub still-IsIdle : IsIdle n t
  still-IsIdle j h =
      let ne : i ≢ j = λ e. (let b = within in omega (arith, b, h, e)) in
      let c : t.code j ≡ s.code j = ap (λ f. f j) w.code_after ∙ (rw (ne→== i j ne) refl) in
      (c ∙ (idle j h).0, w.others j ne ∙ (idle j h).1)

  shrinks : suc (left t.code n) ≡ left s.code n
  shrinks = rw w.code_after (left-update s.code i w.rest w.action n w.before within)

-- Work that is left below `n`, or none.
work_below : (code : ℕ → Code) (n : ℕ) → ((i : ℕ) → i < n → code i ≡ []) ⊎ ((i : ℕ) × (code i ≢ []))
work_below code zero = inl (λ i h. absurd (omega (arith, h)))
work_below code (suc n) = elim (work_below code n) [
  | inr found ↦ inr found
  | inl none_left ↦ elim (Code-cases (code n)) [
    | inl e ↦ inl (λ i h. elim (ℕ_discrete i n) [
      | yes same ↦ subst (λ k. code k ≡ []) (sym same) e
      | no other ↦ none_left i (omega (arith, h, other))
    ])
    | inr ne ↦ inr (n, ne)
  ]
]
  where
    Code-cases : (c : Code) → (c ≡ []) ⊎ (c ≢ [])
    Code-cases [] = inl refl
    Code-cases (a ∷ c) = inr (λ e. absurd cc)

-- Every processor has come to the end of its code.
abbrev pub IsDone : State → Type 0
IsDone s = (i : ℕ) → s.code i ≡ []

nothing_left : (n : ℕ) (s : State) → IsIdle n s → ((i : ℕ) → i < n → s.code i ≡ []) → IsDone s
nothing_left n s idle done i = elim (dec_lt i n) [
  | yes b ↦ done i b
  | no b ↦ (idle i (omega (arith, b))).0
]

-- Whichever steps the processors take from here on, without a further interrupt, there is always another
-- one until every processor has come to the end of its code, and they all come to it.
pub data Ends : State → Type 0 where
  ends :
      {s : State} → (IsDone s ⊎ Moves s) → ((j : ℕ) (t : State) → Advance j s t → Ends t) → Ends s

pub step_or_end : (n : ℕ) (s : State) → IsSound s → IsIdle n s → IsDone s ⊎ Moves s
step_or_end n s v idle = elim (work_below s.code n) [
  | inl done ↦ inl (nothing_left n s idle done)
  | inr (i, ne) ↦ inr (moves s v i ne)
]

pub finish : (fuel n : ℕ) (s : State) → IsSound s → IsIdle n s → left s.code n ≤ fuel → Ends s
finish zero n s v idle h =
    ends (step_or_end n s v idle)
      (λ j t a. (let b = shrinks (Advance-Worked j a) n idle in absurd (omega (arith, h, b))))
finish (suc fuel) n s v idle h = ends (step_or_end n s v idle) (λ j t a.
    (let w = Advance-Worked j a in
      let b = shrinks w n idle in
      finish fuel n t (Advance-IsSound j a v) (still-IsIdle w n idle) (omega (arith, h, b))))
