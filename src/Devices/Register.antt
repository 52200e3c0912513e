-- ===== src/Devices/Register.antt =====
-- register: it ends, and gives a device the first free id from its uuid on.
use oxidized.Common.{
  ℕ, zero, suc, ◌+◌, ◌<◌, ◌≤◌, ◌%◌, ◌^◌, ◌≡◌, ◌≢◌, refl, none, some, [], ◌∷◌, arith, inl, inr, ◌==◌,
  if◌then◌else◌, length, returns, Option-cases,
}
use oxidized.Common.TreeMap
use oxidized.Common.TreeMap.{TreeMap}
use oxidized.Devices.{Device, free_id, register, get, unregister}

abbrev pub modulus : ℕ
modulus = 2 ^ 128

-- What the search for an id finds: `i` steps on, the first id that no device has.
pub record IsFirstFree (tree : TreeMap Device) (start id : ℕ) : Type 0 where
  pub steps : ℕ
  pub at : id ≡ (start + steps) % modulus
  pub free : TreeMap.get id tree ≡ none
  pub taken : (j : ℕ) → j < steps → TreeMap.get ((start + j) % modulus) tree ≢ none

taken_further :
    (tree : TreeMap Device) (start n : ℕ) (d : Device)
    → start < modulus
    → TreeMap.get start tree ≡ some d
    → ((j : ℕ) → j < n → TreeMap.get (((start + 1) % modulus + j) % modulus) tree ≢ none)
    → (j : ℕ) → j < suc n
    → TreeMap.get ((start + j) % modulus) tree ≢ none
taken_further tree start n d h held t zero l =
    let at : (start + 0) % modulus ≡ start = omega arith in rw at (λ e. cc)
taken_further tree start n d h held t (suc j) l =
    let at : (start + suc j) % modulus ≡ ((start + 1) % modulus + j) % modulus = omega arith in
    rw at (t j (omega arith))

free_id-IsFirstFree :
    (fuel : ℕ) (tree : TreeMap Device) (start id : ℕ)
    → start < modulus
    → free_id fuel tree start ≡ returns id
    → IsFirstFree tree start id
unfolding free_id
free_id-IsFirstFree zero tree start id h e = cc
free_id-IsFirstFree (suc fuel) tree start id h e = elim (Option-cases (TreeMap.get start tree)) [
  | inl open_id ↦ record {
    steps = 0;
    at = ground arith;
    free = ground arith;
    taken = λ j l. absurd (omega arith);
  }
  | inr (d, held) ↦
      let r =
        free_id-IsFirstFree fuel tree ((start + 1) % modulus) id (omega arith) (ground arith) in
      record {
        steps = suc r.steps;
        at = omega (arith, r.at);
        free = r.free;
        taken = taken_further tree start r.steps d h held r.taken;
      }
]

-- A key that the search does not come to may as well be gone.
free_id-remove :
    (fuel : ℕ) (tree : TreeMap Device) (start k id : ℕ)
    → start < modulus
    → ((i : ℕ) → i < fuel → (start + i) % modulus ≢ k)
    → free_id fuel (TreeMap.remove k tree) start ≡ returns id
    → free_id fuel tree start ≡ returns id
unfolding free_id
free_id-remove zero tree start k id h away e = cc
free_id-remove (suc fuel) tree start k id h away e =
    let off : start ≢ k = λ q. away 0 (omega arith) (omega arith) in
    let rest =
      free_id-remove fuel tree ((start + 1) % modulus) k id (omega arith)
        (λ i l q. away (suc i) (omega arith) (omega arith)) in
    ground (arith, TreeMap.get-remove k start tree, off, rest)

-- With more rounds than devices, and fewer than 2^128, the search ends.
free_id_total :
    (n : ℕ) (tree : TreeMap Device) (start : ℕ)
    → length tree ≤ n
    → n < modulus
    → start < modulus
    → (id : ℕ) × (free_id (suc n) tree start ≡ returns id)
unfolding free_id TreeMap.get
free_id_total zero [] start small bound h = (start, ground arith)
free_id_total zero (e ∷ tree) start small bound h = absurd (omega arith)
free_id_total (suc n) tree start small bound h = elim (Option-cases (TreeMap.get start tree)) [
  | inl open_id ↦ (start, ground arith)
  | inr (d, held) ↦
      let (id, e) =
        free_id_total n (TreeMap.remove start tree) ((start + 1) % modulus)
          (omega (arith, TreeMap.length-remove_lt start d tree held)) (omega arith) (omega arith) in
      let rest =
        free_id-remove (suc n) tree ((start + 1) % modulus) start id (omega arith)
          (λ i l q. omega arith) e in
      (id, ground arith)
]

-- `register` ends once its loop may make one round more than there are devices: it returns the first
-- id from the device's uuid on, wrapping at 2^128, that no device has, and a tree in which that id
-- gives the device and every other id gives what it gave.
pub register_lem :
    (n : ℕ) (tree : TreeMap Device) (device : Device)
    → device.uuid < modulus
    → length tree ≤ n
    → n < modulus
    → (id : ℕ) × (tree' : TreeMap Device) × (register (suc n) tree device ≡ returns (id, tree'))
      × IsFirstFree tree device.uuid id
      × ((j : ℕ) → get tree' j ≡ (if id == j then some device else get tree j))
unfolding register get
register_lem n tree device u small bound =
    let (id, e) = free_id_total n tree device.uuid small bound u in
    (
      id,
      TreeMap.insert id device tree,
      rw e refl,
      free_id-IsFirstFree (suc n) tree device.uuid id u e,
      λ j. TreeMap.get-insert id j device tree,
    )

-- `unregister` returns the device that the id had, if any, and afterwards that id gives none and
-- every other id gives what it gave.
pub unregister_lem :
    (tree : TreeMap Device) (id : ℕ)
    → ((unregister tree id).0 ≡ get tree id)
      × ((j : ℕ) → get (unregister tree id).1 j ≡ (if id == j then none else get tree j))
unfolding unregister get
unregister_lem tree id = (refl, λ j. TreeMap.get-remove id j tree)
