-- ===== src/Common/Predicates.antt =====
-- Predicates on lists by recursion, which compute to tuples.
use Prim.Native.Nat.{ℕ, zero, suc}
use mathlib.Core.Path.{◌≡◌}
use mathlib.Core.Logic.{◌⊎◌, inl, inr}
use mathlib.Core.List.{List, [], ◌∷◌}
use oxidized.Common.Lists.{drop}

abbrev pub All {ℓ κ} : {A : Type ℓ} → (A → Type κ) → List A → Type κ
All P [] = Unit
All P (x ∷ xs) = P x × All P xs

-- `x` is an entry of the list, at a place that the proof shows.
abbrev pub In : {A : Type 0} → A → List A → Type 0
In x [] = ⊥
In x (y ∷ ys) = (x ≡ y) ⊎ In x ys

-- No entry stands twice.
abbrev pub Distinct : {A : Type 0} → List A → Type 0
Distinct [] = Unit
Distinct (x ∷ xs) = (In x xs → ⊥) × Distinct xs

module _ {A : Type 0} where
  pub All-in {κ} : (P : A → Type κ) (x : A) (xs : List A) → All P xs → In x xs → P x
  All-in P x [] h m = absurd m
  All-in P x (y ∷ ys) h (inl e) = rw e h.0
  All-in P x (y ∷ ys) h (inr m) = All-in P x ys h.1 m

  pub In-drop : (n : ℕ) (x : A) (xs : List A) → In x (drop n xs) → In x xs
  In-drop zero x xs m = m
  In-drop (suc n) x [] m = m
  In-drop (suc n) x (y ∷ ys) m = inr (In-drop n x ys m)
