-- ===== src/Segments/Stacks.antt =====
-- The stacks of the task state segments: where they start, and that none reaches into another.
use oxidized.Common.{
  ℕ, zero, suc, ◌+◌, ◌-◌, ◌*◌, ◌%◌, ◌≤◌, ◌<◌, ◌≡◌, ◌≢◌, refl, ◌∙◌, ap, arith, some, get_elem?,
  dec_lt, ltb, if◌then◌else◌, ◌⊎◌, inl, inr,
}
use oxidized.Crates.Descriptors.{DescriptorTables}
use oxidized.Segments.{
  TaskStateSegment, push_all, stack_start, stack_address, fill_stacks, task_state_segment,
  task_state_segments, interrupt_stack_size,
}

get_elem?-push_all :
    {A : Type 0} (f : ℕ → A) (count i j : ℕ)
    → j < count
    → get_elem? (push_all f count i) j ≡ some (f (i + j))
unfolding push_all
get_elem?-push_all f zero i j l = absurd (omega arith)
get_elem?-push_all f (suc count) i zero l = ap (λ k. some (f k)) (omega arith)
get_elem?-push_all f (suc count) i (suc j) l =
    get_elem?-push_all f count (i + 1) j (omega arith) ∙ ap (λ k. some (f k)) (omega arith)

module _ (D : DescriptorTables) (base : ℕ) where
  -- Slot `x` of a task state segment: the interrupt stacks first, then the privilege stacks.
  abbrev pub slot : TaskStateSegment → ℕ → ℕ
  slot tss x = if ltb x 7 then tss.interrupt_stack_table x else tss.privilege_stack_table (x - 7)

  stack_address-IsInside :
      (cpu x : ℕ)
      → (stack_address D base cpu x % 16 ≡ 0)
        × (stack_start D base cpu x + 16112 ≤ stack_address D base cpu x)
        × (stack_address D base cpu x ≤ stack_start D base cpu x + 16128)
  unfolding stack_address
  stack_address-IsInside cpu x =
      let e = D.align_down-eq (stack_start D base cpu x + (interrupt_stack_size - 256)) in
      (omega (arith, e), omega (arith, e), omega (arith, e))

  slot-task_state_segment :
      (cpu x : ℕ) → x < 10 → slot (task_state_segment D base cpu) x ≡ stack_address D base cpu x
  unfolding task_state_segment fill_stacks
  slot-task_state_segment cpu zero l = refl
  slot-task_state_segment cpu (suc zero) l = refl
  slot-task_state_segment cpu (suc (suc zero)) l = refl
  slot-task_state_segment cpu (suc (suc (suc zero))) l = refl
  slot-task_state_segment cpu (suc (suc (suc (suc zero)))) l = refl
  slot-task_state_segment cpu (suc (suc (suc (suc (suc zero))))) l = refl
  slot-task_state_segment cpu (suc (suc (suc (suc (suc (suc zero)))))) l = refl
  slot-task_state_segment cpu (suc (suc (suc (suc (suc (suc (suc zero))))))) l = refl
  slot-task_state_segment cpu (suc (suc (suc (suc (suc (suc (suc (suc zero)))))))) l = refl
  slot-task_state_segment cpu (suc (suc (suc (suc (suc (suc (suc (suc (suc zero))))))))) l = refl
  slot-task_state_segment cpu (suc (suc (suc (suc (suc (suc (suc (suc (suc (suc x)))))))))) l =
      absurd (omega arith)

  -- For each of the 256 processors the table of segments has an entry with ten stacks. Each grows down
  -- from an address that is a multiple of 16 and 256 to 272 bytes below the end of the stack's memory;
  -- and the memory of two different stacks, of one processor or of two, is apart.
  pub task_state_segments-Apart :
      (cpu x : ℕ)
      → cpu < 256
      → x < 10
      → (tss : TaskStateSegment) × (get_elem? (task_state_segments D base) cpu ≡ some tss)
        × (slot tss x % 16 ≡ 0)
        × (stack_start D base cpu x + 16112 ≤ slot tss x)
        × (slot tss x ≤ stack_start D base cpu x + 16128)
        × ((cpu' x' : ℕ)
            → x' < 10
            → (cpu ≢ cpu') ⊎ (x ≢ x')
            → (slot tss x < stack_start D base cpu' x')
              ⊎ (stack_start D base cpu' x' + 16384 ≤ stack_start D base cpu x))
  unfolding task_state_segments stack_start
  task_state_segments-Apart cpu x small l =
      let tss = task_state_segment D base cpu in
      let e = slot-task_state_segment cpu x l in
      let (aligned, low, high) = stack_address-IsInside cpu x in
      (
        tss,
        get_elem?-push_all (task_state_segment D base) 256 0 cpu small
            ∙ ap (λ k. some (task_state_segment D base k)) (omega arith),
        ap (λ a. a % 16) e ∙ aligned,
        omega (arith, e, low),
        omega (arith, e, high),
        λ cpu' x' l' ne. elim (dec_lt (cpu * 10 + x) (cpu' * 10 + x')) [
          | yes before ↦ inl (omega (arith, before, e, high))
          | no after ↦ inr (omega (arith, after, ne, l, l'))
        ],
      )
