-- ===== src/Devices/Refine.antt =====
-- The device tree against what it promises: a map from ids to devices, without order or depth.
use oxidized.Common.{
  ℕ, suc, ◌+◌, ◌<◌, ◌≤◌, ◌%◌, ◌≡◌, ◌≢◌, ◌↔◌, refl, sym, subst, Option, none, some, List, [], ◌∷◌,
  arith, inl, inr, ◌==◌, if◌then◌else◌, length, Outcome, returns, ◌>>=◌, >>=-eq-returns, ℕ_discrete,
  ne→==, ==_refl,
}
use oxidized.Common.Predicates.{In}
use oxidized.Common.TreeMap
use oxidized.Common.TreeMap.{TreeMap}
use oxidized.Devices.{Device, register, free_id, get, unregister, keys}
use oxidized.Devices.Register.{modulus, register_lem, unregister_lem}

-- What clients ask of the tree, and what they are told.
pub data Command : Type 0 where
  register_device : Device → Command
  unregister_id look_up : ℕ → Command
  enumerate : Command

pub data Answer : Type 0 where
  registered : ℕ → Answer
  found : Option Device → Answer
  listed : List ℕ → Answer

pub execute : ℕ → TreeMap Device → Command → Outcome (Answer × TreeMap Device)
execute fuel tree (register_device d) = do r ← register fuel tree d; returns (registered r.0, r.1)
execute fuel tree (unregister_id id) =
    let (d, tree') = unregister tree id in returns (found d, tree')
execute fuel tree (look_up id) = returns (found (get tree id), tree)
execute fuel tree enumerate = returns (listed (keys tree), tree)

pub run : ℕ → TreeMap Device → List Command → Outcome (List Answer × TreeMap Device)
run fuel tree [] = returns ([], tree)
run fuel tree (c ∷ rest) = do
  first ← execute fuel tree c
  others ← run fuel first.1 rest
  returns (first.0 ∷ others.0, others.1)

abbrev pub Store : Type 0
Store = ℕ → Option Device

-- `steps` further than `start`, wrapping, is the first id that has no device.
pub record IsFirst (store : Store) (start id : ℕ) : Type 0 where
  pub steps : ℕ
  pub at : id ≡ (start + steps) % modulus
  pub free : store id ≡ none
  pub taken : (j : ℕ) → j < steps → store ((start + j) % modulus) ≢ none

-- What an answer promises, and the store after it.
abbrev pub Promises : Store → Command → Answer → Store → Type 0
Promises s (register_device d) (registered id) t =
    IsFirst s d.uuid id × ((j : ℕ) → t j ≡ (if id == j then some d else s j))
Promises s (unregister_id id) (found d) t =
    (d ≡ s id) × ((j : ℕ) → t j ≡ (if id == j then none else s j))
Promises s (look_up id) (found d) t = (d ≡ s id) × (t ≡ s)
Promises s enumerate (listed ids) t = ((j : ℕ) → In j ids ↔ (s j ≢ none)) × (t ≡ s)
Promises s _ _ t = ⊥

pub data Follows : Store → List Command → List Answer → Store → Type 0 where
  done : {s : Store} → Follows s [] [] s
  after :
      {s t u : Store} {c : Command} {rest : List Command} {a : Answer} {others : List Answer}
      → Promises s c a t
      → Follows t rest others u
      → Follows s (c ∷ rest) (a ∷ others) u

-- The ids that clients ask for are 128 bits wide.
abbrev pub IsNarrow : List Command → Type 0
IsNarrow [] = Unit
IsNarrow (register_device d ∷ rest) = (d.uuid < modulus) × IsNarrow rest
IsNarrow (unregister_id id ∷ rest) = IsNarrow rest
IsNarrow (look_up id ∷ rest) = IsNarrow rest
IsNarrow (enumerate ∷ rest) = IsNarrow rest

length-insert_le :
    (k : ℕ) (v : Device) (m : TreeMap Device) → length (TreeMap.insert k v m) ≤ suc (length m)
unfolding TreeMap.insert
length-insert_le k v [] = omega arith
length-insert_le k v ((i, w) ∷ m) = ground (arith, length-insert_le k v m)

length-register :
    (fuel : ℕ) (tree tree' : TreeMap Device) (d : Device) (id : ℕ)
    → register fuel tree d ≡ returns (id, tree')
    → length tree' ≤ suc (length tree)
unfolding register
length-register fuel tree tree' d id e =
    let (k, q, r) =
      >>=-eq-returns (free_id fuel tree d.uuid) (λ i. returns (i, TreeMap.insert i d tree)) e in
    let same : TreeMap.insert k d tree ≡ tree' = cc in
    subst (λ t. length t ≤ suc (length tree)) same (length-insert_le k d tree)

length-unregister :
    (id : ℕ) (tree : TreeMap Device) → length (unregister tree id).1 ≤ suc (length tree)
unfolding unregister
length-unregister id tree = omega (arith, TreeMap.length-remove_le id tree)

pub In-keys : (j : ℕ) (tree : TreeMap Device) → In j (keys tree) ↔ (get tree j ≢ none)
unfolding keys get TreeMap.keys TreeMap.get
In-keys j [] = (λ m. absurd m, λ ne. ne refl)
In-keys j ((i, d) ∷ tree) = elim (ℕ_discrete i j) [
  | yes same ↦ rw (same, ==_refl j) (λ m q. cc, λ ne. inl refl)
  | no other ↦ rw (ne→== i j other) (
    λ m. elim m [ inl e ↦ absurd (other (sym e)) | inr later ↦ (In-keys j tree).0 later ],
    λ ne. inr ((In-keys j tree).1 ne),
  )
]

-- One command: it returns, keeps its promise, and lets the tree grow by one device at most.
execute_lem :
    (n : ℕ) (tree : TreeMap Device) (c : Command)
    → IsNarrow (c ∷ [])
    → length tree ≤ n
    → n < modulus
    → (a : Answer) × (tree' : TreeMap Device) × (execute (suc n) tree c ≡ returns (a, tree'))
      × Promises (get tree) c a (get tree')
      × (length tree' ≤ suc (length tree))
unfolding execute get
execute_lem n tree (register_device d) narrow small bound =
    let (id, tree', e, first, law) = register_lem n tree d narrow.0 small bound in
    (
      registered id,
      tree',
      rw e refl,
      (record { steps = first.steps; at = first.at; free = first.free; taken = first.taken }, law),
      length-register (suc n) tree tree' d id e,
    )
execute_lem n tree (unregister_id id) narrow small bound = (
  found (unregister tree id).0,
  (unregister tree id).1,
  refl,
  unregister_lem tree id,
  length-unregister id tree,
)
execute_lem n tree (look_up id) narrow small bound =
    (found (get tree id), tree, refl, (refl, refl), omega arith)
execute_lem n tree enumerate narrow small bound =
    (listed (keys tree), tree, refl, (λ j. In-keys j tree, refl), omega arith)

IsNarrow-head :
    (c : Command) (rest : List Command) → IsNarrow (c ∷ rest) → IsNarrow (c ∷ []) × IsNarrow rest
IsNarrow-head (register_device d) rest v = ((v.0, tt), v.1)
IsNarrow-head (unregister_id id) rest v = (tt, v)
IsNarrow-head (look_up id) rest v = (tt, v)
IsNarrow-head enumerate rest v = (tt, v)

-- Whatever clients ask of the tree, one after the other, with ids of 128 bits, with fewer than
-- 2^128 devices and calls in all, and with one round more than these for the search of an id:
-- every call returns, each with what the map from ids to devices promises. A device gets the
-- first free id from its own on, an id that is removed or looked up gives the device that the map
-- has for it, and the keys are the ids that have a device.
pub run-Follows :
    (n : ℕ) (tree : TreeMap Device) (commands : List Command)
    → IsNarrow commands
    → length tree + length commands ≤ n
    → n < modulus
    → (answers : List Answer) × (tree' : TreeMap Device) × (run (suc n) tree commands
        ≡ returns (answers, tree'))
      × Follows (get tree) commands answers (get tree')
unfolding run
run-Follows n tree [] narrow small bound = ([], tree, refl, done)
run-Follows n tree (c ∷ rest) narrow small bound =
    let (first, others) = IsNarrow-head c rest narrow in
    let (a, tree₁, e₁, kept, grown) = execute_lem n tree c first (omega arith) bound in
    let (later, tree₂, e₂, follows) =
      run-Follows n tree₁ rest others (omega (arith, grown, small)) bound in
    (a ∷ later, tree₂, rw (e₁, e₂) refl, after kept follows)
