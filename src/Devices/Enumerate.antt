-- ===== src/Devices/Enumerate.antt =====
-- kernel/src/main.rs, kernel_main: the list of the devices that it prints.
mod Tests
use oxidized.Common.{
  ℕ, ◌<◌, ◌≡◌, ◌≢◌, refl, Option, none, some, List, [], ◌∷◌, length, inl, inr, returns,
  Option-cases, Outcome, unwrap, ◌>>=◌,
}
use oxidized.Common.Predicates.{In}
use oxidized.Common.TreeMap.{TreeMap}
use oxidized.Devices.{Device, register, keys, get, get_device_path, kernel_device}
use oxidized.Devices.Path.{Lineage, joined, get_device_path_lem}
use oxidized.Devices.Refine.{In-keys}

-- What `kernel_main` prints of a device.
pub record Found : Type 0 where
  pub id : ℕ
  pub uuid : ℕ
  pub name : List ℕ
  pub path : List ℕ

-- The loop of `kernel_main` over the keys; `fuel` is for each path.
pub visit : ℕ → TreeMap Device → List ℕ → Outcome (List Found)
visit fuel tree [] = returns []
visit fuel tree (i ∷ rest) = do
  dev ← unwrap (get tree i)
  path ← get_device_path fuel tree dev
  others ← visit fuel tree rest
  returns ((record { id = i; uuid = dev.uuid; name = dev.name; path = path }) ∷ others)

-- That part of `kernel_main`, with the tree that it leaves.
pub kernel_main_devices : ℕ → ℕ → TreeMap Device → Outcome (List Found × TreeMap Device)
kernel_main_devices rounds fuel tree = do
  root ← register rounds tree kernel_device
  found ← visit fuel root.1 (keys root.1)
  returns (found, root.1)

-- The list has an entry for each id, in their order, with the uuid and the name of the id's device, and
-- the path by its ancestors.
abbrev pub Reports : TreeMap Device → List ℕ → List Found → Type 0
Reports tree [] [] = Unit
Reports tree (i ∷ rest) (f ∷ others) =
    ((d : Device) × (ds : List Device) × (get tree i ≡ some d)
      × Lineage tree d ds
      × (f.id ≡ i)
      × (f.uuid ≡ d.uuid)
      × (f.name ≡ d.name)
      × (f.path ≡ joined ds d.name))
    × Reports tree rest others
Reports tree _ _ = ⊥

-- Every device has all its ancestors in the tree, and fewer than `fuel`.
abbrev pub IsRooted : ℕ → TreeMap Device → Type 0
IsRooted fuel tree =
    (i : ℕ) (d : Device)
    → get tree i ≡ some d
    → (ds : List Device) × Lineage tree d ds × (length ds < fuel)

visit-Reports :
    (fuel : ℕ) (tree : TreeMap Device) (ids : List ℕ)
    → IsRooted fuel tree
    → ((i : ℕ) → In i ids → get tree i ≢ none)
    → (found : List Found) × (visit fuel tree ids ≡ returns found) × Reports tree ids found
unfolding visit
visit-Reports fuel tree [] rooted there = ([], refl, tt)
visit-Reports fuel tree (i ∷ rest) rooted there = elim (Option-cases (get tree i)) [
  | inl missing ↦ absurd (there i (inl refl) missing)
  | inr (d, e) ↦
      let (ds, lineage, short) = rooted i d e in
      let (found, q, others) = visit-Reports fuel tree rest rooted (λ j m. there j (inr m)) in
      let f : Found = record { id = i; uuid = d.uuid; name = d.name; path = joined ds d.name } in
      (
        f ∷ found,
        rw (e, get_device_path_lem fuel d ds lineage short, q) refl,
        ((d, ds, e, lineage, refl, refl, refl, refl), others),
      )
]

-- Where the kernel's device is registered, and every device of the tree has all its ancestors in it,
-- fewer than the rounds that the loop for a path may make, `kernel_main` finds each device of the
-- tree, in the order of the keys, and none is missing: the list has its id, its
-- uuid, its name and the path by its ancestors.
pub kernel_main_devices-Reports :
    (rounds fuel root : ℕ) (tree tree' : TreeMap Device)
    → register rounds tree kernel_device ≡ returns (root, tree')
    → IsRooted fuel tree'
    → (found : List Found) × (kernel_main_devices rounds fuel tree ≡ returns (found, tree'))
      × Reports tree' (keys tree') found
unfolding kernel_main_devices
kernel_main_devices-Reports rounds fuel root tree tree' e rooted =
    let (found, q, reports) =
      visit-Reports fuel tree' (keys tree') rooted (λ i m. (In-keys i tree').0 m) in
    (found, rw (e, q) refl, reports)
