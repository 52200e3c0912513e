-- ===== src/Devices.antt =====
-- devices/src/lib.rs and devices/src/well_known.rs: the device tree, and the devices that the kernel
-- registers (kernel/src/main.rs, kernel/src/framebuffer/mod.rs).
pub mod Register
pub mod Path
pub mod Refine
pub mod Enumerate
mod Tests
use Prim.Native.Char.{code}
use Prim.Native.String
use Prim.Native.String.{String}
use oxidized.Common.{
  ℕ, zero, suc, ◌+◌, ◌%◌, ◌^◌, ◌==◌, if◌then◌else◌, Bool, true, Option, none, some, List, [], ◌∷◌,
  ◌++◌, Outcome, returns, panics, spins, ◌>>=◌, unwrap,
}
use oxidized.Common.TreeMap
use oxidized.Common.TreeMap.{TreeMap}

-- The code points of a text. The names below are texts of this form.
abbrev pub codes : String → List ℕ
codes String.[] = []
codes (String.◌∷◌ c s) = code c ∷ codes s

pub data DeviceErrorCode : Type 0 where
  not_implemented malfunction : DeviceErrorCode
  device_native_error : ℕ → DeviceErrorCode

pub record DeviceError : Type 0 where
  pub error_code : DeviceErrorCode

-- `Result<&[u8], DeviceError>`
pub data Reply : Type 0 where
  ok : List ℕ → Reply
  err : DeviceError → Reply

-- The trait's methods, each with what it returns.
pub record Device : Type 0 where
  pub uuid : ℕ
  pub parent_id : Option ℕ
  pub name : List ℕ
  pub ready : Bool
  pub function : ℕ → List ℕ → Outcome Reply

-- The trait's `function`, where a device does not replace it.
pub default_function : ℕ → List ℕ → Outcome Reply
default_function id args = returns (err (record { error_code = not_implemented }))

-- `DeviceTreeDevice::function`: 0 and 1 are `todo!()`.
pub device_tree_function : ℕ → List ℕ → Outcome Reply
device_tree_function zero args = panics
device_tree_function (suc zero) args = panics
device_tree_function (suc (suc id)) args = returns (err (record { error_code = not_implemented }))

-- well_known.rs
abbrev pub framebuffer_uuid : ℕ
framebuffer_uuid = 0xf80ce1ac890f4a928844fb447d01992c

abbrev pub serial_uuid : ℕ
serial_uuid = 0xf80ce1ac7bde4b7a9398ea31faff52c1

abbrev pub ipl_uuid : ℕ
ipl_uuid = 0xf80ce1ac5759458fbbd171112e971117

abbrev pub cpu_uuid : ℕ
cpu_uuid = 0xf80ce1acd1ec4e0ea3a5a2fd78b4d722

abbrev pub device_tree_uuid : ℕ
device_tree_uuid = 0xf80ce1ac000040008000000000000000

pub device_tree_device : Device
device_tree_device = record {
  uuid = device_tree_uuid;
  parent_id = none;
  name = codes "DEVICE_TREE";
  ready = true;
  function = device_tree_function;
}

-- main.rs, KernelDevice
pub kernel_device : Device
kernel_device = record {
  uuid = ipl_uuid;
  parent_id = some device_tree_uuid;
  name = codes "KERNEL";
  ready = true;
  function = default_function;
}

-- framebuffer/mod.rs, FramebufferDevice, as `init_framebuffer` makes it
pub framebuffer_device : Device
framebuffer_device = record {
  uuid = framebuffer_uuid;
  parent_id = some ipl_uuid;
  name = codes "FRAMEBUFFER";
  ready = true;
  function = default_function;
}

-- The `while` loop of `register`, on fuel: the first id from `current` on that is not a key.
pub free_id : ℕ → TreeMap Device → ℕ → Outcome ℕ
free_id zero tree current = spins
free_id (suc fuel) tree current =
    let further = free_id fuel tree ((current + 1) % 2 ^ 128) in
    elim (TreeMap.get current tree) [ some _ ↦ further | none ↦ returns current ]

pub register : ℕ → TreeMap Device → Device → Outcome (ℕ × TreeMap Device)
register fuel tree device = do
  current ← free_id fuel tree device.uuid
  returns (current, TreeMap.insert current device tree)

-- `DeviceTree::new`
pub new_tree : ℕ → Outcome (TreeMap Device)
new_tree fuel = do r ← register fuel [] device_tree_device; returns r.1

-- `get` and `get_mut`
pub get : TreeMap Device → ℕ → Option Device
get tree id = TreeMap.get id tree

pub unregister : TreeMap Device → ℕ → Option Device × TreeMap Device
unregister tree id = (TreeMap.get id tree, TreeMap.remove id tree)

pub keys : TreeMap Device → List ℕ
keys tree = TreeMap.keys tree

-- `all`
pub all_devices : TreeMap Device → List Device
all_devices tree = TreeMap.values tree

-- The next device up, in the `while` loop of `get_device_path`.
pub parent_of : TreeMap Device → Device → Outcome (Option Device)
parent_of tree current = elim current.parent_id [
  | some p ↦ elim (get tree p) [ some s ↦ returns (some s) | none ↦ panics ]
  | none ↦ returns none
]

-- That loop, on fuel.
pub path_loop : ℕ → TreeMap Device → Option Device → List ℕ → Outcome (List ℕ)
path_loop zero tree next ret = spins
path_loop (suc fuel) tree none ret = returns ret
path_loop (suc fuel) tree (some current) ret = do
  above ← parent_of tree current
  path_loop fuel tree above (current.name ++ (b'/' ∷ ret))

-- `get_device_path`
pub get_device_path : ℕ → TreeMap Device → Device → Outcome (List ℕ)
get_device_path fuel tree device =
    path_loop fuel tree (elim device.parent_id [ some p ↦ get tree p | none ↦ none ]) device.name
