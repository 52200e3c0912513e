-- ===== src/Process/Table.antt =====
-- The process table stays sorted, and the search finds what a scan would find.
use oxidized.Common.{
  ℕ, zero, suc, ◌+◌, ◌<◌, ◌≤◌, ◌%◌, ◌^◌, ◌≡◌, refl, Option, none, some, List, [], ◌∷◌, arith, inl,
  inr, ◌==◌, ltb, if◌then◌else◌, get_elem?, returns, spins, Bool-cases, ltb→lt, ==_iff,
}
use oxidized.Common.Predicates.{All}
use oxidized.Process.{
  ProcessDescriptor, ProcessManager, new_descriptor, Search, found, insert_at, one_further, search,
  insert, get_process, create_loop, create_process,
}

-- The ids grow strictly.
abbrev pub IsSorted : List ProcessDescriptor → Type 0
IsSorted [] = Unit
IsSorted (p ∷ ps) = All (λ q. p.id < q.id) ps × IsSorted ps

-- The first descriptor with an id, by a scan of the whole table.
unfoldable pub find : ℕ → List ProcessDescriptor → Option ProcessDescriptor
find id [] = none
find id (p ∷ ps) = if p.id == id then some p else find id ps

find_above : (id : ℕ) (ps : List ProcessDescriptor) → All (λ q. id < q.id) ps → find id ps ≡ none
unfolding find
find_above id [] a = refl
find_above id (p ∷ ps) a = ground (arith, find_above id ps a.1)

above_mono :
    (a b : ℕ) (ps : List ProcessDescriptor)
    → a ≤ b
    → All (λ q. b < q.id) ps
    → All (λ q. a < q.id) ps
above_mono a b [] h p = tt
above_mono a b (x ∷ xs) h p = (omega arith, above_mono a b xs h p.1)

-- What a search of a sorted table comes to.
abbrev Finds : ℕ → List ProcessDescriptor → Search → Type 0
Finds id ps (found i) = (d : ProcessDescriptor) × (get_elem? ps i ≡ some d) × (find id ps ≡ some d)
Finds id ps (insert_at i) =
    (find id ps ≡ none)
    × ((d : ProcessDescriptor)
        → d.id ≡ id
        → IsSorted (insert ps i d)
          × ((j : ℕ) → find j (insert ps i d) ≡ (if id == j then some d else find j ps)))

insert-above :
    (b i : ℕ) (ps : List ProcessDescriptor) (d : ProcessDescriptor)
    → b < d.id
    → All (λ q. b < q.id) ps
    → All (λ q. b < q.id) (insert ps i d)
unfolding insert
insert-above b zero ps d h a = (h, a)
insert-above b (suc i) [] d h a = (h, tt)
insert-above b (suc i) (p ∷ ps) d h a = (a.0, insert-above b i ps d h a.1)

Finds-further :
    (id : ℕ) (p : ProcessDescriptor) (ps : List ProcessDescriptor) (r : Search)
    → p.id < id
    → All (λ q. p.id < q.id) ps
    → Finds id ps r
    → Finds id (p ∷ ps) (one_further r)
unfolding one_further find insert
Finds-further id p ps (found i) h a (d, at, scan) = (d, at, ground arith)
Finds-further id p ps (insert_at i) h a (missing, f) = (
  ground arith,
  λ d e. ((insert-above p.id i ps d (rw e h) a, (f d e).0), λ j. ground (arith, (f d e).1 j)),
)

Finds-here :
    (id : ℕ) (p : ProcessDescriptor) (ps : List ProcessDescriptor)
    → id < p.id
    → IsSorted (p ∷ ps)
    → Finds id (p ∷ ps) (insert_at 0)
unfolding find insert
Finds-here id p ps h s = (
  ground (arith, find_above id ps (above_mono id p.id ps (omega arith) s.0)),
  λ d e.
      let h' : d.id < p.id = omega arith in
      (((h', above_mono d.id p.id ps (omega arith) s.0), s), λ j. ground arith),
)

Finds-same :
    (id : ℕ) (p : ProcessDescriptor) (ps : List ProcessDescriptor)
    → p.id ≡ id
    → Finds id (p ∷ ps) (found 0)
unfolding find
Finds-same id p ps e = (p, refl, ground arith)

Finds-nil : (id : ℕ) → Finds id [] (insert_at 0)
unfolding find insert
Finds-nil id = (refl, λ d e. ((tt, tt), λ j. ground arith))

search-Finds : (id : ℕ) (ps : List ProcessDescriptor) → IsSorted ps → Finds id ps (search id ps)
unfolding search
search-Finds id [] s = Finds-nil id
search-Finds id (p ∷ ps) s = elim (Bool-cases (ltb p.id id)) [
  | inl below ↦
      rw below
        (Finds-further id p ps (search id ps) (ltb→lt p.id id below) s.0 (search-Finds id ps s.1))
  | inr rest ↦ elim (Bool-cases (p.id == id)) [
    | inl same ↦ rw (rest, same) (Finds-same id p ps ((==_iff p.id id).0 same))
    | inr above ↦ rw (rest, above) (Finds-here id p ps (ground arith) s)
  ]
]

get_of_search :
    (m : ProcessManager) (id : ℕ) (r : Search)
    → search id m.processes ≡ r
    → Finds id m.processes r
    → get_process m id ≡ find id m.processes
unfolding get_process
get_of_search m id (found i) e (d, at, scan) = ground arith
get_of_search m id (insert_at i) e (missing, f) = ground arith

-- On a sorted table `get_process` finds exactly the descriptor that a scan of the table would find.
pub get_process-find :
    (m : ProcessManager) (id : ℕ) → IsSorted m.processes → get_process m id ≡ find id m.processes
get_process-find m id s =
    get_of_search m id (search id m.processes) refl (search-Finds id m.processes s)

-- What a call of `create_process` leaves behind when it returns.
pub record Created (m m' : ProcessManager) : Type 0 where
  pub sorted : IsSorted m'.processes
  pub next : m'.next_process_id ≡ (m.next_process_id + 1) % 2 ^ 64
  pub table :
      (j : ℕ)
      → find j m'.processes ≡ (
          if m.next_process_id == j
          then some (new_descriptor m.next_process_id)
          else find j m.processes)

create_of_search :
    (fuel : ℕ) (m : ProcessManager) (r : Search)
    → search m.next_process_id m.processes ≡ r
    → Finds m.next_process_id m.processes r
    → find m.next_process_id m.processes ≡ none
    → (m' : ProcessManager) × (create_process (suc fuel) m
        ≡ returns (new_descriptor m.next_process_id, m'))
      × Created m m'
unfolding create_process create_loop new_descriptor
create_of_search fuel m (found i) e (d, at, scan) missing = absurd (cc)
create_of_search fuel m (insert_at i) e (_, f) missing =
    let d : ProcessDescriptor = record { id = m.next_process_id; control_group = 0 } in
    (
      record {
        processes = insert m.processes i d;
        next_process_id = (m.next_process_id + 1) % 2 ^ 64;
      },
      ground arith,
      record { sorted = (f d refl).0; next = refl; table = (f d refl).1 },
    )

-- With the next id free, `create_process` returns in its first round: a descriptor with that id, a
-- table that is still sorted and has that descriptor besides what it had, and the next id one up,
-- wrapping at 2^64.
pub create_process-Created :
    (fuel : ℕ) (m : ProcessManager)
    → IsSorted m.processes
    → find m.next_process_id m.processes ≡ none
    → (m' : ProcessManager) × (create_process (suc fuel) m
        ≡ returns (new_descriptor m.next_process_id, m'))
      × Created m m'
create_process-Created fuel m s =
    create_of_search fuel m (search m.next_process_id m.processes) refl
      (search-Finds m.next_process_id m.processes s)

loop-spins :
    (fuel : ℕ) (m : ProcessManager) (id i : ℕ)
    → search id m.processes ≡ found i
    → create_loop fuel m id ≡ spins
unfolding create_loop
loop-spins zero m id i e = refl
loop-spins (suc fuel) m id i e = ground (arith, loop-spins fuel m id i e)

spins_of_search :
    (fuel : ℕ) (m : ProcessManager) (id : ℕ) (r : Search) (d : ProcessDescriptor)
    → search id m.processes ≡ r
    → Finds id m.processes r
    → find id m.processes ≡ some d
    → create_loop fuel m id ≡ spins
spins_of_search fuel m id (found i) d e v scan = loop-spins fuel m id i e
spins_of_search fuel m id (insert_at i) d e (missing, f) scan = absurd (cc)

-- With the next id taken, `create_process` never returns: its loop tries the same id again, for any
-- number of rounds.
pub create_process-spins :
    (fuel : ℕ) (m : ProcessManager) (d : ProcessDescriptor)
    → IsSorted m.processes
    → find m.next_process_id m.processes ≡ some d
    → create_process fuel m ≡ spins
unfolding create_process
create_process-spins fuel m d s =
    spins_of_search fuel m m.next_process_id (search m.next_process_id m.processes) d refl
      (search-Finds m.next_process_id m.processes s)
