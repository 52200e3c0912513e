-- ===== src/Context/Run.antt =====
-- idt/contextswitch.rs: an interpreter for the instructions of the context switch.
use oxidized.Common.{ℕ, ◌+◌, ◌-◌, ◌%◌, ◌^◌, ◌==◌, if◌then◌else◌, Option, none, some, List, [], ◌∷◌}
use oxidized.Context.{
  RegisterState, Register, rdi, cr2, cr3, rax, rbx, rcx, rdx, rsi, rbp, r8, r9, r10, r11, r12, r13,
  r14, r15, number, words, read_context, Instruction, push, pop, mov, mov_rsp, clear, call, iretq,
}

-- The processor: its registers, and the words of its stack from the stack pointer on.
pub record Cpu : Type 0 where
  pub registers : Register → ℕ
  pub rip : ℕ
  pub cs : ℕ
  pub rflags : ℕ
  pub rsp : ℕ
  pub ss : ℕ
  pub stack : List ℕ

abbrev pub set : Register → ℕ → (Register → ℕ) → Register → ℕ
set r v registers q = if number r == number q then v else registers q

-- The Rust function that is called, `callee`, may write to the context that its first argument points
-- to, and leaves the registers as `clobber` says, the stack pointer apart.
module _ (callee : RegisterState → RegisterState) (clobber : (Register → ℕ) → Register → ℕ) where
  abbrev pub return : Cpu → Option (RegisterState × List ℕ) → Option Cpu
  return s none = none
  return s (some (c, rest)) =
      some (record s { registers = clobber s.registers; stack = words (callee c) rest })

  -- The stack pointer wraps; `none` is a read of the stack beyond the words that are described, or a
  -- call with another pointer than to the top of the stack.
  abbrev pub execute : Instruction → Cpu → Option Cpu
  execute (push r) s =
      some (record s { stack = s.registers r ∷ s.stack; rsp = (s.rsp + (2 ^ 64 - 8)) % 2 ^ 64 })
  execute (pop r) s = pop_word s.stack
    where
      pop_word : List ℕ → Option Cpu
      pop_word [] = none
      pop_word (w ∷ stack) =
          some (record s {
            registers = set r w s.registers;
            stack = stack;
            rsp = (s.rsp + 8) % 2 ^ 64;
          })
  execute (mov r q) s = some (record s { registers = set r (s.registers q) s.registers })
  execute (mov_rsp r) s = some (record s { registers = set r s.rsp s.registers })
  execute (clear r) s = some (record s { registers = set r 0 s.registers })
  execute call s = if s.registers rdi == s.rsp then return s (read_context s.stack) else none
  execute iretq s = return_to s.stack
    where
      return_to : List ℕ → Option Cpu
      return_to (a ∷ b ∷ c ∷ d ∷ e ∷ stack) =
          some (record s { rip = a; cs = b; rflags = c; rsp = d; ss = e; stack = stack })
      return_to _ = none

  unfoldable pub run : List Instruction → Cpu → Option Cpu
  run [] s = some s
  run (i ∷ rest) s = elim (execute i s) [ none ↦ none | some t ↦ run rest t ]

-- The registers of a running context.
unfoldable pub registers_of : RegisterState → Register → ℕ
registers_of c cr2 = c.cr2
registers_of c cr3 = c.cr3
registers_of c rax = c.rax
registers_of c rbx = c.rbx
registers_of c rcx = c.rcx
registers_of c rdx = c.rdx
registers_of c rsi = c.rsi
registers_of c rdi = c.rdi
registers_of c rbp = c.rbp
registers_of c r8 = c.r8
registers_of c r9 = c.r9
registers_of c r10 = c.r10
registers_of c r11 = c.r11
registers_of c r12 = c.r12
registers_of c r13 = c.r13
registers_of c r14 = c.r14
registers_of c r15 = c.r15

-- The processor at the first instruction, when the interrupt has stopped a context: the five words of
-- the frame lie on the stack that the task state segment names. `handler` has what the processor has
-- loaded for the handler: its address, the segments, the flags, and the stack below the frame.
unfoldable pub interrupted : RegisterState → Cpu → Cpu
interrupted c handler = record handler {
  registers = registers_of c;
  stack = c.rip ∷ c.cs ∷ c.rflags ∷ c.rsp ∷ c.ss ∷ handler.stack;
}

-- The context that a processor runs.
unfoldable pub running : Cpu → RegisterState
running s = record {
  cr2 = s.registers cr2;
  cr3 = s.registers cr3;
  rax = s.registers rax;
  rbx = s.registers rbx;
  rcx = s.registers rcx;
  rdx = s.registers rdx;
  rsi = s.registers rsi;
  rdi = s.registers rdi;
  rbp = s.registers rbp;
  r8 = s.registers r8;
  r9 = s.registers r9;
  r10 = s.registers r10;
  r11 = s.registers r11;
  r12 = s.registers r12;
  r13 = s.registers r13;
  r14 = s.registers r14;
  r15 = s.registers r15;
  rip = s.rip;
  cs = s.cs;
  rflags = s.rflags;
  rsp = s.rsp;
  ss = s.ss;
}
