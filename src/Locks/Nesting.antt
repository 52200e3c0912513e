-- ===== src/Locks/Nesting.antt =====
-- The locks of every function are nested in the one order.
pub mod Calls
pub mod Boots
pub mod Ends
use oxidized.Common.{
  ℕ, zero, suc, ◌+◌, ◌-◌, ◌≤◌, ◌<◌, ◌≡◌, refl, sym, ◌∙◌, ap, subst, arith, Bool, true, false,
  Option, none, some, List, [], ◌∷◌, ◌++◌, append_assoc,
}
use oxidized.Common.Predicates.{All}
use oxidized.Locks.{
  Lock, Action, acquire, release, unmask, device_tree, syscall_tables, console, frame_buffer,
  allocator, memory_manager, serial, status_bits, ready_signal, software_handlers,
}
use oxidized.Locks.Order.{IsOrdered, Takes, IsLow, IsHandler, first_of}
use oxidized.Locks.Code.{Code, scope}

-- The code takes locks from `m` up and gives them back, wherever it stands.
pub record IsNested (on : Bool) (m : Lock) (c : Code) : Type 0 where
  pub insert :
      (i : ℕ) (gs : List Lock) (rest : Code)
      → first_of i ≤ m
      → All (λ g. g < m) gs
      → IsOrdered i on gs rest
      → IsOrdered i on gs (c ++ rest)

pub raised : (l m : Lock) → l ≤ m → (gs : List Lock) → All (λ g. g < l) gs → All (λ g. g < m) gs
raised l m h [] a = a
raised l m h (g ∷ gs) a = (let b = a.0 in omega (arith, b, h), raised l m h gs a.1)

takes :
    (first : ℕ) (on : Bool) (l m : Lock)
    → first ≤ m
    → m ≤ l
    → l < software_handlers
    → Takes first on l
takes first true l m h k b = (omega arith, b)
takes first false l m h k b = (omega arith, omega arith)

module _ {on : Bool} where
  pub []-IsNested : (m : Lock) → IsNested on m []
  []-IsNested m = record { insert = λ i gs rest h a o. o }

  pub ++-IsNested :
      {m : Lock} {c d : Code} → IsNested on m c → IsNested on m d → IsNested on m (c ++ d)
  ++-IsNested {c = c} {d = d} n k = record {
    insert = λ i gs rest h a o.
        subst (IsOrdered i on gs) (sym (append_assoc c d rest))
          (n.insert i gs (d ++ rest) h a (k.insert i gs rest h a o));
  }

  pub lower : {m l : Lock} {c : Code} → IsNested on l c → m ≤ l → IsNested on m c
  lower {m} {l} n le = record {
    insert = λ i gs rest h a o. n.insert i gs rest (omega (arith, le, h)) (raised m l le gs a) o;
  }

  pub scope-IsNested :
      {l : Lock} {body : Code}
      → IsNested on (suc l) body
      → l < software_handlers
      → IsNested on l (scope l body)
  scope-IsNested {l} {body} n b = record {
    insert = λ i gs rest h a o. (
      a,
      takes (first_of i) on l l h (omega arith) b,
      subst (IsOrdered i on (l ∷ gs)) (sym (append_assoc body (release l ∷ []) rest)) (
          n.insert i (l ∷ gs) (release l ∷ rest) (omega (arith, h))
            (omega arith, raised l (suc l) (omega arith) gs a) (gs, refl, o)),
    );
  }
