-- ===== src/Devices/Tests.antt =====
-- Runs of the device tree, with the devices of the kernel.
use oxidized.Common.{
  ℕ, List, ◌≡◌, refl, some, [], ◌∷◌, arith, ◌==◌, if◌then◌else◌, ap, true, returns, spins,
}
use oxidized.Common.TreeMap
use oxidized.Common.TreeMap.{TreeMap}
use oxidized.Devices.{
  Device, default_function, device_tree_device, kernel_device, framebuffer_device, ipl_uuid,
  framebuffer_uuid, device_tree_uuid, register, get, get_device_path,
}
use oxidized.Devices.Register.{IsFirstFree, register_lem}
use oxidized.Devices.Refine.{
  Answer, Command, register_device, unregister_id, look_up, enumerate, run, Follows, run-Follows,
}
use oxidized.Devices.Path.{Lineage, top, above, get_device_path-spins}

abbrev tree : TreeMap Device
tree = (device_tree_uuid, device_tree_device) ∷ (ipl_uuid, kernel_device) ∷ []

register_lem_example :
    (id : ℕ) × (tree' : TreeMap Device) × (register 4 tree kernel_device ≡ returns (id, tree'))
    × IsFirstFree tree ipl_uuid id
    × ((j : ℕ) → get tree' j ≡ (if id == j then some kernel_device else get tree j))
unfolding kernel_device
register_lem_example = register_lem 3 tree kernel_device (omega arith) (omega arith) (omega arith)

-- What the kernel does at its start, and a device that goes.
abbrev commands : List Command
commands =
    register_device framebuffer_device
    ∷ register_device kernel_device
    ∷ enumerate
    ∷ look_up framebuffer_uuid
    ∷ unregister_id framebuffer_uuid
    ∷ []

run-Follows_example :
    (answers : List Answer) × (tree' : TreeMap Device) × (run 8 tree commands
      ≡ returns (answers, tree'))
    × Follows (get tree) commands answers (get tree')
unfolding framebuffer_device kernel_device
run-Follows_example =
    run-Follows 7 tree commands (omega arith, (omega arith, tt)) (omega arith) (omega arith)

lineage : Lineage tree framebuffer_device (kernel_device ∷ device_tree_device ∷ [])
unfolding framebuffer_device kernel_device device_tree_device get TreeMap.get
lineage = above ipl_uuid refl refl (above device_tree_uuid refl refl (top refl))

-- A device that is its own parent.
abbrev own_parent : Device
own_parent = record {
  uuid = 1;
  parent_id = some 1;
  name = [];
  ready = true;
  function = default_function;
}

abbrev loop_tree : TreeMap Device
loop_tree = (1, own_parent) ∷ []

leads_back :
    (d : Device)
    → d ≡ own_parent
    → (p : ℕ) × (e : Device) × (d.parent_id ≡ some p)
      × (get loop_tree p ≡ some e)
      × (e ≡ own_parent)
unfolding get TreeMap.get
leads_back d e = (1, own_parent, ap (λ x. x.parent_id) e, refl, refl)

get_device_path-spins_example : get_device_path 100 loop_tree own_parent ≡ spins
get_device_path-spins_example =
    get_device_path-spins (λ d. d ≡ own_parent) loop_tree leads_back 100 own_parent refl
