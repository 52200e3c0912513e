-- ===== src/Context/Switch.antt =====
-- The interrupt for a context switch resumes the context that the called function leaves.
use oxidized.Common.{ℕ, ◌≡◌, refl, ap, ==_refl, Option, none, some, List}
use oxidized.Context.{
  RegisterState, Register, rdi, Instruction, call, save, restore, context_switch_code, words,
  read_context,
}
use oxidized.Context.Run.{Cpu, return, execute, run, registers_of, interrupted, running}

abbrev get_or : Cpu → Option Cpu → Cpu
get_or s none = s
get_or s (some t) = t

module _ (callee : RegisterState → RegisterState) (clobber : (Register → ℕ) → Register → ℕ) where
  execute-call :
      (s : Cpu)
      → s.registers rdi ≡ s.rsp
      → execute callee clobber call s ≡ return callee clobber s (read_context s.stack)
  execute-call s e = rw (e, ==_refl s.rsp) refl

  abbrev continue : List Instruction → Option Cpu → Option Cpu
  continue rest o = elim o [ none ↦ none | some t ↦ run callee clobber rest t ]

  -- Whatever the called function does to the context that it is given a pointer to, and to the
  -- registers, the processor resumes exactly the context that the function leaves, with the rest of
  -- the stack as it was.
  pub run-resumes :
      (c : RegisterState) (handler : Cpu)
      → (s : Cpu) × (run callee clobber context_switch_code (interrupted c handler) ≡ some s)
        × (running s ≡ callee c)
        × (s.stack ≡ handler.stack)
  unfolding run context_switch_code save restore interrupted running words read_context registers_of
  run-resumes c handler =
      let s = get_or handler (run callee clobber save (interrupted c handler)) in
      let t = continue restore (return callee clobber s (read_context s.stack)) in
      (get_or handler t, ap (λ o. continue restore o) (execute-call s refl), refl, refl)
