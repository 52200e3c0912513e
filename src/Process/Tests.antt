-- ===== src/Process/Tests.antt =====
-- Runs of the process table.
use oxidized.Common.{ℕ, ◌≡◌, refl, none, some, [], ◌∷◌, arith, returns, spins}
use oxidized.Process.{ProcessDescriptor, ProcessManager, new_manager, create_process}
use oxidized.Process.Table.{IsSorted, find, create_process-spins}
use oxidized.Process.Wrap.{create_many, IsNumbered, create_many-IsNumbered}

abbrev process : ℕ → ProcessDescriptor
process id = record { id = id; control_group = 0 }

abbrev table : ProcessManager
table = record { processes = process 2 ∷ process 5 ∷ process 9 ∷ []; next_process_id = 7 }

abbrev table_IsSorted : IsSorted table.processes
table_IsSorted = ((omega arith, (omega arith, tt)), ((omega arith, tt), (tt, tt)))

seven_is_free : find 7 table.processes ≡ none
unfolding find
seven_is_free = refl

abbrev stuck : ProcessManager
stuck = record { processes = process 2 ∷ process 5 ∷ process 9 ∷ []; next_process_id = 5 }

five_is_taken : find 5 stuck.processes ≡ some (process 5)
unfolding find
five_is_taken = refl

create_process-spins_example : create_process 100 stuck ≡ spins
create_process-spins_example =
    create_process-spins 100 stuck (process 5) table_IsSorted five_is_taken

create_many-IsNumbered_example :
    (m : ProcessManager) × (create_many 1 1000 new_manager ≡ returns m) × IsNumbered 1000 m
create_many-IsNumbered_example = create_many-IsNumbered 0 1000 (omega arith)
