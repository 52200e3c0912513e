-- ===== src/Process.antt =====
-- kernel/src/thread/process.rs: the process table, kept sorted by id.
pub mod Table
pub mod Wrap
mod Tests
use oxidized.Common.{
  ℕ, zero, suc, ◌+◌, ◌%◌, ◌^◌, ltb, ◌==◌, if◌then◌else◌, Option, none, some, List, [], ◌∷◌,
  get_elem?, Outcome, returns, panics, spins, ◌>>=◌,
}

pub record ProcessDescriptor : Type 0 where
  pub id : ℕ
  pub control_group : ℕ

-- `ProcessDescriptor::new`
pub new_descriptor : ℕ → ProcessDescriptor
new_descriptor id = record { id = id; control_group = 0 }

pub record ProcessManager : Type 0 where
  pub processes : List ProcessDescriptor
  pub next_process_id : ℕ

-- `ProcessManager::new`
pub new_manager : ProcessManager
new_manager = record { processes = []; next_process_id = 0 }

-- What `binary_search_by_key` returns: `Ok` with a place, or `Err` with the place to insert at.
pub data Search : Type 0 where
  found : ℕ → Search
  insert_at : ℕ → Search

pub one_further : Search → Search
one_further (found i) = found (suc i)
one_further (insert_at i) = insert_at (suc i)

-- `binary_search_by_key` of a vector that is sorted by strictly growing ids.
pub search : ℕ → List ProcessDescriptor → Search
search id [] = insert_at 0
search id (p ∷ ps) =
    if ltb p.id id then one_further (search id ps) else if p.id == id then found 0 else insert_at 0

-- `Vec::insert`
pub insert : List ProcessDescriptor → ℕ → ProcessDescriptor → List ProcessDescriptor
insert ps zero d = d ∷ ps
insert [] (suc i) d = d ∷ []
insert (p ∷ ps) (suc i) d = p ∷ insert ps i d

pub get_process : ProcessManager → ℕ → Option ProcessDescriptor
get_process m id = elim (search id m.processes) [
  | found i ↦ get_elem? m.processes i
  | insert_at i ↦ none
]

-- The `loop` of `create_process`, on fuel. A round that finds the id taken starts over with the same
-- id.
pub create_loop : ℕ → ProcessManager → ℕ → Outcome (ProcessDescriptor × ProcessManager)
create_loop zero m current = spins
create_loop (suc fuel) m current =
    let again = create_loop fuel m current in
    elim (search current m.processes) [
      | found i ↦ again
      | insert_at i ↦ returns (
        new_descriptor current,
        record {
          processes = insert m.processes i (new_descriptor current);
          next_process_id = (current + 1) % 2 ^ 64;
        },
      )
    ]

pub create_process : ℕ → ProcessManager → Outcome (ProcessDescriptor × ProcessManager)
create_process fuel m = create_loop fuel m m.next_process_id
