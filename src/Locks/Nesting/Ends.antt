-- ===== src/Locks/Nesting/Ends.antt =====
-- The code of each processor, from its entry to its end, is ordered.
use oxidized.Common.{
  ℕ, suc, ◌≤◌, ◌<◌, refl, arith, Bool, true, false, Option, none, some, List, [], ◌∷◌, ◌++◌,
}
use oxidized.Common.Predicates.{All}
use oxidized.Locks.{Lock, device_tree, syscall_tables, status_bits}
use oxidized.Locks.Order.{IsOrdered, IsLow, AtEnd, first_of}
use oxidized.Locks.Code.{Code, heap_calls, Message, logs}
use oxidized.Locks.Main.{
  kernel_cpu_main, list_devices, Run, kernel_main, kernel_boot, ApRun, ap_code,
}
use oxidized.Locks.Nesting.{IsNested}
use oxidized.Locks.Nesting.Calls.{empty_scope, println-IsNested, logs-IsNested}
use oxidized.Locks.Nesting.Boots.{
  heaps, prints, init_ap-IsNested, kernel_ready-IsNested, wait_ready-IsNested,
  list_devices-IsNested, init_hardware-IsNested, early_init-IsNested,
}

-- Ordered code, as it is built from its end.
record IsPlaced (i : ℕ) (on : Bool) (gs : List Lock) (c : Code) : Type 0 where
  ordered : IsOrdered i on gs c

placed :
    {m i : ℕ} {on : Bool} {gs : List Lock} {c rest : Code}
    → IsNested on m c
    → first_of i ≤ m
    → All (λ g. g < m) gs
    → IsPlaced i on gs rest
    → IsPlaced i on gs (c ++ rest)
placed {i = i} {gs = gs} {rest = rest} n h a o = record {
  ordered = n.insert i gs rest h a o.ordered;
}

module _ (i : ℕ) (on : Bool) (gs : List Lock) (h : first_of i ≤ syscall_tables)
    (a : All (λ g. g < syscall_tables) gs) where
  next :
      {c rest : Code}
      → IsNested on syscall_tables c
      → IsPlaced i on gs rest
      → IsPlaced i on gs (c ++ rest)
  next n o = placed n h a o

  -- The end of a processor's code, with the guard of the device tree or without.
  kernel_cpu_main-IsPlaced :
      (w : Option (Message × ℕ)) (t : Message)
      → IsLow gs
      → AtEnd i gs
      → IsPlaced i on gs (kernel_cpu_main w t)
  kernel_cpu_main-IsPlaced w t low end = next (kernel_ready-IsNested syscall_tables (omega arith)) (
      next (wait_ready-IsNested syscall_tables (omega arith) w)
        (next (prints syscall_tables (omega arith) t) (record { ordered = (low, end) })))

-- From taking the device tree on.
enumerate-IsPlaced :
    (r : Run)
    → IsPlaced 0 false (device_tree ∷ []) (
        heap_calls r.registered
        ++ (logs r.lines
            ++ (heap_calls r.keys
                ++ (list_devices r.devices
                    ++ (heap_calls r.dropped ++ kernel_cpu_main none r.entered)))))
enumerate-IsPlaced r =
    let m = syscall_tables in
    let h : device_tree ≤ syscall_tables = omega arith in
    let a : All (λ g. g < syscall_tables) (device_tree ∷ []) = (omega arith, tt) in
    placed (heaps m (omega arith) r.registered) h a (
      placed (logs-IsNested m (omega arith) r.lines) h a (
        placed (heaps m (omega arith) r.keys) h a (
          placed (list_devices-IsNested m (omega arith) r.devices) h a (
            placed (heaps m (omega arith) r.dropped) h a (
              kernel_cpu_main-IsPlaced 0 false (device_tree ∷ []) h a none r.entered
                (omega arith, tt) refl)))))

-- With no guard in scope.
boots :
    {c rest : Code}
    → IsNested false device_tree c
    → IsPlaced 0 false [] rest
    → IsPlaced 0 false [] (c ++ rest)
boots n o = placed n (omega arith) tt o

kernel_main-IsPlaced : (r : Run) → IsPlaced 0 false [] (kernel_main r)
kernel_main-IsPlaced r = boots (empty_scope device_tree status_bits (omega arith) (omega arith)) (
    boots (prints device_tree (omega arith) r.online) (
      boots (list_devices-IsNested device_tree (omega arith) r.versions)
        (record { ordered = (tt, (omega arith, omega arith), (enumerate-IsPlaced r).ordered) })))

pub kernel_boot-IsOrdered : (r : Run) → IsOrdered 0 false [] (kernel_boot r)
kernel_boot-IsOrdered r =
    let line = println-IsNested device_tree (omega arith) in
    let o = boots line (
      boots line (
        boots line (
          boots (early_init-IsNested r) (
            boots (prints device_tree (omega arith) r.hardware) (
              boots (init_hardware-IsNested device_tree (omega arith) r.hardware_run)
                (kernel_main-IsPlaced r)))))) in
    o.ordered

pub ap_code-IsOrdered : (i : ℕ) (a : Option ApRun) → IsOrdered (suc i) false [] (ap_code a)
ap_code-IsOrdered i none = refl
ap_code-IsOrdered i (some a) =
    let rest =
      kernel_cpu_main-IsPlaced (suc i) true [] (omega arith) tt a.waits a.entered tt refl in
    let o =
      placed {i = suc i}
        (init_ap-IsNested {on = false} syscall_tables (omega arith) a.starting a.complete)
        (omega arith) tt (record { ordered = (tt, rest.ordered) }) in
    o.ordered
