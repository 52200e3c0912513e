-- ===== src/Devices/Enumerate/Tests.antt =====
-- The devices of the kernel, as they stand when the kernel registers its own.
use oxidized.Common.{
  ◌≡◌, refl, sym, subst, ◌<◌, length, arith, none, some, List, [], ◌∷◌, ℕ_discrete, ne→==, returns,
}
use oxidized.Common.TreeMap
use oxidized.Common.TreeMap.{TreeMap}
use oxidized.Devices.{
  Device, device_tree_device, kernel_device, framebuffer_device, ipl_uuid, framebuffer_uuid,
  device_tree_uuid, register, free_id, get, keys,
}
use oxidized.Devices.Path.{Lineage, top, above}
use oxidized.Devices.Enumerate.{
  Found, kernel_main_devices, Reports, IsRooted, kernel_main_devices-Reports,
}

abbrev tree : TreeMap Device
tree = (device_tree_uuid, device_tree_device) ∷ (framebuffer_uuid, framebuffer_device) ∷ []

abbrev with_kernel : TreeMap Device
with_kernel = TreeMap.insert ipl_uuid kernel_device tree

registered : register 4 tree kernel_device ≡ returns (ipl_uuid, with_kernel)
unfolding register free_id kernel_device TreeMap.get
registered = refl

of_tree : Lineage with_kernel device_tree_device []
unfolding device_tree_device
of_tree = top refl

of_kernel : Lineage with_kernel kernel_device (device_tree_device ∷ [])
unfolding get TreeMap.get TreeMap.insert kernel_device
of_kernel = above device_tree_uuid refl refl of_tree

of_framebuffer : Lineage with_kernel framebuffer_device (kernel_device ∷ device_tree_device ∷ [])
unfolding get TreeMap.get TreeMap.insert framebuffer_device
of_framebuffer = above ipl_uuid refl refl of_kernel

is_rooted :
    {d d' : Device} (ds : List Device)
    → Lineage with_kernel d ds
    → length ds < 3
    → some d ≡ some d'
    → (ds' : List Device) × Lineage with_kernel d' ds' × (length ds' < 3)
is_rooted {d} {d'} ds l short e =
    let same : d ≡ d' = cc in (ds, subst (λ x. Lineage with_kernel x ds) same l, short)

rooted : IsRooted 3 with_kernel
unfolding get TreeMap.get TreeMap.insert
rooted i d e = elim (ℕ_discrete device_tree_uuid i) [
  | yes p ↦ is_rooted [] of_tree (omega arith) (subst (λ j. get with_kernel j ≡ some d) (sym p) e)
  | no not_tree ↦ elim (ℕ_discrete ipl_uuid i) [
    | yes p ↦
        is_rooted (device_tree_device ∷ []) of_kernel (omega arith)
          (subst (λ j. get with_kernel j ≡ some d) (sym p) e)
    | no not_kernel ↦ elim (ℕ_discrete framebuffer_uuid i) [
      | yes p ↦
          is_rooted (kernel_device ∷ device_tree_device ∷ []) of_framebuffer (omega arith)
            (subst (λ j. get with_kernel j ≡ some d) (sym p) e)
      | no not_screen ↦
          let gone : get with_kernel i ≡ none =
            rw
              (
                ne→== device_tree_uuid i not_tree,
                ne→== ipl_uuid i not_kernel,
                ne→== framebuffer_uuid i not_screen,
              )
              refl in
          cc
    ]
  ]
]

kernel_main_devices-Reports_example :
    (found : List Found) × (kernel_main_devices 4 3 tree ≡ returns (found, with_kernel))
    × Reports with_kernel (keys with_kernel) found
kernel_main_devices-Reports_example =
    kernel_main_devices-Reports 4 3 ipl_uuid tree with_kernel registered rooted
