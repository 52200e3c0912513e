-- ===== src/Locks/Order.antt =====
-- The order in which the locks are nested, by threads and by interrupts, and the states that keep to it.
use oxidized.Common.{
  ℕ, zero, suc, ◌≤◌, ◌<◌, ◌≡◌, refl, subst, arith, Bool, true, false, inl, inr, Option, some, List,
  [], ◌∷◌, ◌++◌,
}
use oxidized.Common.Predicates.{All, In, Distinct}
use oxidized.Locks.{Lock, device_tree, software_handlers, Action, acquire, release, unmask, State}

-- Below the lock of the interrupt handlers.
abbrev pub IsLow : List Lock → Type 0
IsLow gs = All (λ g. g < software_handlers) gs

-- The first lock that a processor may take: the device tree is the boot processor's.
abbrev pub first_of : ℕ → Lock
first_of zero = device_tree
first_of (suc i) = suc device_tree

abbrev pub Takes : Lock → Bool → Lock → Type 0
Takes first true l = first ≤ l × l < software_handlers
Takes first false l = first ≤ l × l < suc software_handlers

-- The guards at the end of a processor's code.
abbrev pub AtEnd : ℕ → List Lock → Type 0
AtEnd zero gs = gs ≡ device_tree ∷ []
AtEnd (suc i) gs = gs ≡ []

-- The code of processor `i` takes each lock above those whose guards are in scope, and drops the guards
-- innermost first; in the end only the boot processor has one, that of the device tree; with interrupts
-- on it leaves the lock of the handlers alone.
abbrev pub IsOrdered : ℕ → Bool → List Lock → List Action → Type 0
IsOrdered i on gs [] = AtEnd i gs
IsOrdered i on gs (acquire l ∷ rest) =
    All (λ g. g < l) gs × Takes (first_of i) on l × IsOrdered i on (l ∷ gs) rest
IsOrdered i on gs (release l ∷ rest) =
    (outer : List Lock) × (gs ≡ l ∷ outer) × IsOrdered i on outer rest
IsOrdered i on gs (unmask ∷ rest) = IsLow gs × IsOrdered i true gs rest

-- Code that may interrupt any ordered code.
abbrev pub IsHandler : List Action → Type 0
IsHandler h =
    (i : ℕ) (gs : List Lock) (rest : List Action)
    → IsLow gs
    → IsOrdered i true gs rest
    → IsOrdered i false gs (h ++ (unmask ∷ rest))

-- Processor `i`, in a state of the locks.
pub record IsGood (owner : Lock → Option ℕ) (on : Bool) (gs : List Lock) (code : List Action)
    (i : ℕ) : Type 0 where
  pub ordered : IsOrdered i on gs code
  pub low : on ≡ true → IsLow gs
  pub holds : (l : Lock) → In l gs → owner l ≡ some i
  pub held : (l : Lock) → owner l ≡ some i → In l gs
  pub apart : Distinct gs

abbrev pub IsSound : State → Type 0
IsSound s = (i : ℕ) → IsGood s.owner (s.enabled i) (s.guards i) (s.code i) i

pub first_to_lock : (first : Lock) (on : Bool) (l : Lock) → Takes first on l → first ≤ l
first_to_lock first true l t = t.0
first_to_lock first false l t = t.0

pub first_bound : (i : ℕ) → first_of i ≤ software_handlers
first_bound zero = omega arith
first_bound (suc i) = omega arith

-- The boot processor alone has or takes the device tree.
pub is_boot : (i : ℕ) → first_of i ≤ device_tree → i ≡ 0
is_boot zero h = refl
is_boot (suc i) h = omega (arith, h)

pub at_end :
    (i : ℕ) (gs : List Lock) (l : Lock) → AtEnd i gs → In l gs → (i ≡ 0) × (l ≡ device_tree)
at_end zero gs l e m = elim (subst (In l) e m) [
  | inl same ↦ (refl, same)
  | inr none_left ↦ absurd none_left
]
at_end (suc i) gs l e m = absurd (subst (In l) e m)
