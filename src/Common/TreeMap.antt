-- ===== src/Common/TreeMap.antt =====
-- Rust's BTreeMap with numbers for keys: an association list, smallest key first.
use Prim.Native.Nat.{ℕ, ◌<◌, ◌≤◌}
use mathlib.Core.Path.{◌≡◌, refl}
use mathlib.Core.Option.{Option, none, some}
use mathlib.Core.List.{List, [], ◌∷◌}
use native.Mathlib.Omega.{arith}
use oxidized.Common.Tests.{ltb, ◌==◌, if◌then◌else◌}
use oxidized.Common.Lists.{length}
use oxidized.Common.Predicates.{All}

abbrev pub TreeMap {ℓ} : Type ℓ → Type ℓ
TreeMap V = List (ℕ × V)

above_mono : (a b : ℕ) (xs : List ℕ) → a < b → All (λ j. b < j) xs → All (λ j. a < j) xs
above_mono a b [] h p = tt
above_mono a b (x ∷ xs) h p = (omega arith, above_mono a b xs h p.1)

module _ {ℓ} {V : Type ℓ} where
  unfoldable pub get : ℕ → TreeMap V → Option V
  get k [] = none
  get k ((j, v) ∷ m) = if j == k then some v else get k m

  unfoldable pub insert : ℕ → V → TreeMap V → TreeMap V
  insert k v [] = (k, v) ∷ []
  insert k v ((j, w) ∷ m) =
      if ltb k j then (k, v) ∷ (j, w) ∷ m else if j == k then (k, v) ∷ m else (j, w) ∷ insert k v m

  unfoldable pub remove : ℕ → TreeMap V → TreeMap V
  remove k [] = []
  remove k ((j, w) ∷ m) = if j == k then remove k m else (j, w) ∷ remove k m

  unfoldable pub keys : TreeMap V → List ℕ
  keys [] = []
  keys ((j, w) ∷ m) = j ∷ keys m

  unfoldable pub values : TreeMap V → List V
  values [] = []
  values ((j, w) ∷ m) = w ∷ values m

  abbrev pub IsSorted : TreeMap V → Type 0
  IsSorted [] = Unit
  IsSorted (e ∷ m) = All (λ j. e.0 < j) (keys m) × IsSorted m

  pub get-insert :
      (k j : ℕ) (v : V) (m : TreeMap V)
      → get j (insert k v m) ≡ (if k == j then some v else get j m)
  unfolding get insert
  get-insert k j v [] = refl
  get-insert k j v ((i, w) ∷ m) = ground (arith, get-insert k j v m)

  pub get-remove :
      (k j : ℕ) (m : TreeMap V) → get j (remove k m) ≡ (if k == j then none else get j m)
  unfolding get remove
  get-remove k j [] = ground arith
  get-remove k j ((i, w) ∷ m) = ground (arith, get-remove k j m)

  keys-insert-above :
      (b k : ℕ) (v : V) (m : TreeMap V)
      → b < k
      → All (λ j. b < j) (keys m)
      → All (λ j. b < j) (keys (insert k v m))
  unfolding insert keys
  keys-insert-above b k v [] h a = (h, tt)
  keys-insert-above b k v ((i, w) ∷ m) h a = ground (arith, keys-insert-above b k v m h a.1)

  pub insert-IsSorted : (k : ℕ) (v : V) (m : TreeMap V) → IsSorted m → IsSorted (insert k v m)
  unfolding insert keys
  insert-IsSorted k v [] s = (tt, tt)
  insert-IsSorted k v ((i, w) ∷ m) s =
      ground (arith, insert-IsSorted k v m s.1, above_mono k i (keys m), keys-insert-above i k v m)

  pub length-remove_le : (k : ℕ) (m : TreeMap V) → length (remove k m) ≤ length m
  unfolding remove
  length-remove_le k [] = omega arith
  length-remove_le k ((i, w) ∷ m) = ground (arith, length-remove_le k m)

  pub length-remove_lt :
      (k : ℕ) (v : V) (m : TreeMap V) → get k m ≡ some v → length (remove k m) < length m
  unfolding get remove
  length-remove_lt k v [] e = cc
  length-remove_lt k v ((i, w) ∷ m) e = ground (arith, length-remove_le k m, length-remove_lt k v m)
