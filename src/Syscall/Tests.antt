-- ===== src/Syscall/Tests.antt =====
-- Runs of the system call tables, with numbers for entries.
use oxidized.Common.{ℕ, ◌≡◌, ◌≢◌, some, [], ◌∷◌, arith, ◌==◌, if◌then◌else◌, returns}
use oxidized.Common.TreeMap.{TreeMap}
use oxidized.Syscall.{
  SyscallParameters, set_handler, update_personality, init, legacy_syscall, usize_max,
}
use oxidized.Syscall.Laws.{legacy_syscall-init}

abbrev calls : TreeMap ℕ
calls = (3, 30) ∷ []

abbrev parameters : SyscallParameters
parameters = record { id = 5 }

abbrev tables : TreeMap (TreeMap ℕ)
tables = (1, calls) ∷ []

not_the_default : 60 ≢ usize_max
not_the_default e = omega arith

legacy_syscall-init_example :
    legacy_syscall (update_personality (init tables 0) usize_max (λ t. set_handler t 60 600)) 60
    ≡ returns (some (if 60 == 60 then 600 else 0))
legacy_syscall-init_example = legacy_syscall-init tables 0 600 60 60 not_the_default
