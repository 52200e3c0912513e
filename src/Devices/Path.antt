-- ===== src/Devices/Path.antt =====
-- get_device_path: the names of a device's ancestors, topmost first, joined by slashes.
use oxidized.Common.{
  ℕ, zero, suc, ◌+◌, ◌<◌, ◌≡◌, refl, none, some, List, [], ◌∷◌, ◌++◌, arith, length, returns,
  panics, spins,
}
use oxidized.Common.TreeMap.{TreeMap}
use oxidized.Devices.{Device, get, parent_of, path_loop, get_device_path}

-- The ancestors of a device, nearest first, up to one that names no parent.
pub data Lineage (tree : TreeMap Device) : Device → List Device → Type 0 where
  top : {d : Device} → d.parent_id ≡ none → Lineage tree d []
  above :
      {d e : Device} {ds : List Device} (p : ℕ)
      → d.parent_id ≡ some p
      → get tree p ≡ some e
      → Lineage tree e ds
      → Lineage tree d (e ∷ ds)

-- The path through ancestors, nearest first, to what is written already.
unfoldable pub joined : List Device → List ℕ → List ℕ
joined [] ret = ret
joined (d ∷ ds) ret = joined ds (d.name ++ (b'/' ∷ ret))

path_of_Lineage :
    {tree : TreeMap Device} (fuel : ℕ) (d : Device) (ds : List Device) (ret : List ℕ)
    → Lineage tree d ds
    → length ds + 1 < fuel
    → path_loop fuel tree (some d) ret ≡ returns (joined ds (d.name ++ (b'/' ∷ ret)))
unfolding path_loop parent_of joined
path_of_Lineage zero d ds ret l h = absurd (omega arith)
path_of_Lineage (suc zero) d ds ret l h = absurd (omega arith)
path_of_Lineage (suc (suc fuel)) d ds ret (top e) h = ground arith
path_of_Lineage (suc (suc fuel)) d ds ret (above {e = e} {ds = es} p q at l) h =
    ground (arith, path_of_Lineage (suc fuel) e es (d.name ++ (b'/' ∷ ret)) l (omega arith))

-- A device whose ancestors are all in the tree, up to one that names no parent, has for its path the
-- names of the ancestors from the topmost down, each with a slash behind it, and then its own name;
-- and the loop ends within one round more than there are ancestors.
pub get_device_path_lem :
    {tree : TreeMap Device} (fuel : ℕ) (d : Device) (ds : List Device)
    → Lineage tree d ds
    → length ds < fuel
    → get_device_path fuel tree d ≡ returns (joined ds d.name)
unfolding get_device_path joined path_loop
get_device_path_lem zero d ds l h = absurd (omega arith)
get_device_path_lem (suc fuel) d ds (top e) h = ground arith
get_device_path_lem (suc fuel) d ds (above {e = e} {ds = es} p q at l) h =
    ground (arith, path_of_Lineage (suc fuel) e es d.name l (omega arith))

-- A device whose own parent is not in the tree has its name for a path, while a device whose
-- grandparent is named and not in the tree makes the call panic.
pub get_device_path_missing :
    (fuel : ℕ) (tree : TreeMap Device) (d : Device) (p : ℕ)
    → d.parent_id ≡ some p
    → ((get tree p ≡ none) → get_device_path (suc fuel) tree d ≡ returns d.name)
      × ((e : Device) (q : ℕ)
          → get tree p ≡ some e
          → e.parent_id ≡ some q
          → get tree q ≡ none
          → get_device_path (suc fuel) tree d ≡ panics)
unfolding get_device_path path_loop parent_of
get_device_path_missing fuel tree d p h = (λ gone. ground arith, λ e q at up gone. ground arith)

-- The devices from one of a set that every parent link leads back into.
pub path_loop-spins :
    (IsTrapped : Device → Type 0) (tree : TreeMap Device)
    → ((d : Device)
        → IsTrapped d
        → (p : ℕ) × (e : Device) × (d.parent_id ≡ some p) × (get tree p ≡ some e) × IsTrapped e)
    → (fuel : ℕ) (d : Device) (ret : List ℕ) → IsTrapped d
    → path_loop fuel tree (some d) ret ≡ spins
unfolding path_loop parent_of
path_loop-spins IsTrapped tree link zero d ret t = refl
path_loop-spins IsTrapped tree link (suc fuel) d ret t =
    let (p, e, up, at, t') = link d t in
    ground (arith, path_loop-spins IsTrapped tree link fuel e (d.name ++ (b'/' ∷ ret)) t')

-- A device that stands below a cycle of parent links, from which they never lead out, has no path:
-- the loop of `get_device_path` does not end, whatever its number of rounds.
pub get_device_path-spins :
    (IsTrapped : Device → Type 0) (tree : TreeMap Device)
    → ((d : Device)
        → IsTrapped d
        → (p : ℕ) × (e : Device) × (d.parent_id ≡ some p) × (get tree p ≡ some e) × IsTrapped e)
    → (fuel : ℕ) (d : Device) → IsTrapped d
    → get_device_path fuel tree d ≡ spins
unfolding get_device_path
get_device_path-spins IsTrapped tree link fuel d t =
    let (p, e, up, at, t') = link d t in
    ground (arith, path_loop-spins IsTrapped tree link fuel e d.name t')
