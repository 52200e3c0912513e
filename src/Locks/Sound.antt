-- ===== src/Locks/Sound.antt =====
-- Every step of a processor, and every interrupt, keeps a state sound.
use oxidized.Common.{
  ℕ, ◌<◌, ◌≡◌, ◌≢◌, refl, sym, subst, arith, ==_refl, ne→==, ℕ_discrete, Bool, true, false, inl,
  inr, Option, none, some, List, [], ◌∷◌, ◌++◌,
}
use oxidized.Common.Predicates.{All, In}
use oxidized.Locks.{
  Lock, Action, acquire, release, unmask, State, update, Advance, take, give, enable, Step, advance,
  interrupt, Reach, here, next,
}
use oxidized.Locks.Order.{IsLow, Takes, IsOrdered, IsHandler, IsGood, IsSound, first_of}

not-In-above : (l : Lock) (gs : List Lock) → All (λ g. g < l) gs → In l gs → ⊥
not-In-above l [] a m = m
not-In-above l (g ∷ gs) a (inl e) = omega arith
not-In-above l (g ∷ gs) a (inr m) = not-In-above l gs a.1 m

module _ (owner : Lock → Option ℕ) (i j : ℕ) (apart : i ≢ j) {on : Bool} {gs : List Lock}
    {code : List Action} where
  -- Another processor's lock is taken or given back.
  taken-IsGood :
      (l : Lock)
      → owner l ≡ none
      → IsGood owner on gs code j
      → IsGood (update owner l (some i)) on gs code j
  taken-IsGood l free v = record {
    ordered = v.ordered;
    low = v.low;
    holds = λ k m. let old = v.holds k m in ground (arith, old);
    held = λ k e. v.held k (ground (arith, e));
    apart = v.apart;
  }

  given-IsGood :
      (l : Lock)
      → owner l ≡ some i
      → IsGood owner on gs code j
      → IsGood (update owner l none) on gs code j
  given-IsGood l mine v = record {
    ordered = v.ordered;
    low = v.low;
    holds = λ k m. let old = v.holds k m in ground (arith, old);
    held = λ k e. v.held k (ground (arith, e));
    apart = v.apart;
  }

module _ (owner : Lock → Option ℕ) (i : ℕ) {on : Bool} where
  low_take :
      (gs : List Lock) (l : Lock)
      → Takes (first_of i) on l
      → (on ≡ true → IsLow gs)
      → on ≡ true
      → IsLow (l ∷ gs)
  low_take gs l t low e = ((subst (λ b. Takes (first_of i) b l) e t).1, low e)

  take-IsGood :
      (gs : List Lock) (l : Lock) (rest : List Action)
      → owner l ≡ none
      → IsGood owner on gs (acquire l ∷ rest) i
      → IsGood (update owner l (some i)) on (l ∷ gs) rest i
  take-IsGood gs l rest free v = record {
    ordered = v.ordered.2;
    low = low_take gs l v.ordered.1 v.low;
    holds = λ k m. elim m [
      | inl e ↦ ground arith
      | inr m ↦ (let old = v.holds k m in ground (arith, old))
    ];
    held = λ k e. elim (ℕ_discrete l k) [
      | yes same ↦ inl (sym same)
      | no other ↦ inr (v.held k (ground (arith, e)))
    ];
    apart = (not-In-above l gs v.ordered.0, v.apart);
  }

  give-IsGood :
      (l : Lock) (rest : List Action) (outer : List Lock)
      → IsGood owner on (l ∷ outer) (release l ∷ rest) i
      → IsGood (update owner l none) on outer rest i
  give-IsGood l rest outer v = record {
    ordered =
        let (x, e, o) = v.ordered in
        let same : x ≡ outer = cc in subst (λ gs. IsOrdered i on gs rest) same o;
    low = λ e. (v.low e).1;
    holds = λ k m. elim (ℕ_discrete l k) [
      | yes same ↦ absurd (v.apart.0 (subst (λ x. In x outer) (sym same) m))
      | no other ↦ (let old = v.holds k (inr m) in ground (arith, old, other))
    ];
    held = λ k e. elim (ℕ_discrete l k) [
      | yes same ↦ absurd (ground (arith, e))
      | no other ↦ elim (v.held k (ground (arith, e))) [
        | inl first ↦ absurd (other (sym first))
        | inr m ↦ m
      ]
    ];
    apart = v.apart.1;
  }

split_at : (P : ℕ → Type 0) (i : ℕ) → P i → ((j : ℕ) → i ≢ j → P j) → (j : ℕ) → P j
split_at P i mine others j = elim (ℕ_discrete i j) [
  | yes same ↦ subst P same mine
  | no other ↦ others j other
]

-- With the code, or the code and the guards, made explicit.
pub at_code :
    {s : State} {i : ℕ} {c : List Action}
    → s.code i ≡ c
    → IsSound s
    → IsGood s.owner (s.enabled i) (s.guards i) c i
at_code {s} {i} e v = subst (λ c. IsGood s.owner (s.enabled i) (s.guards i) c i) e (v i)

pub Advance-IsSound : {s : State} (i : ℕ) {t : State} → Advance i s t → IsSound s → IsSound t
Advance-IsSound {s} i (take l rest e free) v =
    split_at
      (λ j.
        IsGood (update s.owner l (some i)) (s.enabled j) (update s.guards i (l ∷ s.guards i) j)
          (update s.code i rest j) j)
      i (rw (==_refl i) (take-IsGood s.owner i (s.guards i) l rest free (at_code {s = s} e v)))
      (λ j ne. rw (ne→== i j ne) (taken-IsGood s.owner i j ne l free (v j)))
Advance-IsSound {s} i (give l rest outer e g) v =
    let mine =
      subst (λ gs. IsGood s.owner (s.enabled i) gs (release l ∷ rest) i) g (at_code {s = s} e v) in
    split_at
      (λ j.
        IsGood (update s.owner l none) (s.enabled j) (update s.guards i outer j)
          (update s.code i rest j) j)
      i (rw (==_refl i) (give-IsGood s.owner i l rest outer mine))
      (λ j ne. rw (ne→== i j ne) (given-IsGood s.owner i j ne l (mine.holds l (inl refl)) (v j)))
Advance-IsSound {s} i (enable rest e) v =
    let mine = at_code {s = s} e v in
    split_at
      (λ j. IsGood s.owner (update s.enabled i true j) (s.guards j) (update s.code i rest j) j) i
      (rw (==_refl i) (record {
        ordered = mine.ordered.1;
        low = λ q. mine.ordered.0;
        holds = mine.holds;
        held = mine.held;
        apart = mine.apart;
      }))
      (λ j ne. rw (ne→== i j ne) (v j))

module _ (Handler : List Action → Type 0)
    (handles : (h : List Action) → Handler h → IsHandler h) where
  Step-IsSound : {s t : State} → Step Handler s t → IsSound s → IsSound t
  Step-IsSound (advance i a) v = Advance-IsSound i a v
  Step-IsSound (interrupt {s} i h on allowed) v =
      let mine = subst (λ b. IsGood s.owner b (s.guards i) (s.code i) i) on (v i) in
      split_at
        (λ j.
          IsGood s.owner (update s.enabled i false j) (s.guards j)
            (update s.code i (h ++ (unmask ∷ s.code i)) j) j)
        i
        (rw (==_refl i) (record {
          ordered = handles h allowed i (s.guards i) (s.code i) (mine.low refl) mine.ordered;
          low = λ q. cc;
          holds = mine.holds;
          held = mine.held;
          apart = mine.apart;
        }))
        (λ j ne. rw (ne→== i j ne) (v j))

  pub Reach-IsSound : {s t : State} → Reach Handler s t → IsSound s → IsSound t
  Reach-IsSound here v = v
  Reach-IsSound (next r st) v = Step-IsSound st (Reach-IsSound r v)
