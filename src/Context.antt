-- ===== src/Context.antt =====
-- kernel/src/arch/arch_x86_64/idt/contextswitch.rs: what the interrupt for a context switch does to
-- the processor, instruction by instruction.
pub mod Run
pub mod Switch
mod Tests
use oxidized.Common.{
  ℕ, ◌+◌, ◌-◌, ◌*◌, ◌%◌, ◌^◌, ◌==◌, if◌then◌else◌, Bool, Option, none, some, List, [], ◌∷◌, ◌++◌,
}

-- `RegisterState`
pub record RegisterState : Type 0 where
  pub cr2 : ℕ
  pub cr3 : ℕ
  pub rax : ℕ
  pub rbx : ℕ
  pub rcx : ℕ
  pub rdx : ℕ
  pub rsi : ℕ
  pub rdi : ℕ
  pub rbp : ℕ
  pub r8 : ℕ
  pub r9 : ℕ
  pub r10 : ℕ
  pub r11 : ℕ
  pub r12 : ℕ
  pub r13 : ℕ
  pub r14 : ℕ
  pub r15 : ℕ
  pub rip : ℕ
  pub cs : ℕ
  pub rflags : ℕ
  pub rsp : ℕ
  pub ss : ℕ

-- The registers that the code names, but for the stack pointer.
pub data Register : Type 0 where
  cr2 cr3 rax rbx rcx rdx rsi rdi rbp r8 r9 r10 r11 r12 r13 r14 r15 : Register

abbrev pub number : Register → ℕ
number cr2 = 0
number cr3 = 1
number rax = 2
number rbx = 3
number rcx = 4
number rdx = 5
number rsi = 6
number rdi = 7
number rbp = 8
number r8 = 9
number r9 = 10
number r10 = 11
number r11 = 12
number r12 = 13
number r13 = 14
number r14 = 15
number r15 = 16

-- The words of a saved context, as `repr(C)` lays them out, in front of what follows it.
pub words : RegisterState → List ℕ → List ℕ
words c rest =
    c.cr2 ∷ c.cr3 ∷ c.rax ∷ c.rbx ∷ c.rcx ∷ c.rdx ∷ c.rsi ∷ c.rdi ∷ c.rbp ∷ c.r8 ∷ c.r9 ∷ c.r10
    ∷ c.r11 ∷ c.r12 ∷ c.r13 ∷ c.r14 ∷ c.r15 ∷ c.rip ∷ c.cs ∷ c.rflags ∷ c.rsp ∷ c.ss ∷ rest

-- The context that a pointer to the words of one refers to, and what follows it.
pub read_context : List ℕ → Option (RegisterState × List ℕ)
read_context
      (a_cr2 ∷ a_cr3 ∷ a_rax ∷ a_rbx ∷ a_rcx ∷ a_rdx ∷ a_rsi ∷ a_rdi ∷ a_rbp ∷ a_r8 ∷ a_r9 ∷ a_r10
        ∷ a_r11 ∷ a_r12 ∷ a_r13 ∷ a_r14 ∷ a_r15 ∷ a_rip ∷ a_cs ∷ a_rflags ∷ a_rsp ∷ a_ss ∷ rest) =
    some (
      record {
        cr2 = a_cr2;
        cr3 = a_cr3;
        rax = a_rax;
        rbx = a_rbx;
        rcx = a_rcx;
        rdx = a_rdx;
        rsi = a_rsi;
        rdi = a_rdi;
        rbp = a_rbp;
        r8 = a_r8;
        r9 = a_r9;
        r10 = a_r10;
        r11 = a_r11;
        r12 = a_r12;
        r13 = a_r13;
        r14 = a_r14;
        r15 = a_r15;
        rip = a_rip;
        cs = a_cs;
        rflags = a_rflags;
        rsp = a_rsp;
        ss = a_ss;
      },
      rest,
    )
read_context _ = none

pub data Instruction : Type 0 where
  push pop : Register → Instruction
  mov : Register → Register → Instruction
  mov_rsp : Register → Instruction
  clear : Register → Instruction
  call iretq : Instruction

-- The body of `_context_switch`, up to the call and from it on.
pub save : List Instruction
save =
    push r15
    ∷ push r14
    ∷ push r13
    ∷ push r12
    ∷ push r11
    ∷ push r10
    ∷ push r9
    ∷ push r8
    ∷ push rbp
    ∷ push rdi
    ∷ push rsi
    ∷ push rdx
    ∷ push rcx
    ∷ push rbx
    ∷ push rax
    ∷ mov rax cr3
    ∷ push rax
    ∷ mov rax cr2
    ∷ push rax
    ∷ mov_rsp rdi
    ∷ mov_rsp rsi
    ∷ clear rax
    ∷ []

pub restore : List Instruction
restore =
    pop rax
    ∷ mov cr2 rax
    ∷ pop rax
    ∷ mov cr3 rax
    ∷ pop rax
    ∷ pop rbx
    ∷ pop rcx
    ∷ pop rdx
    ∷ pop rsi
    ∷ pop rdi
    ∷ pop rbp
    ∷ pop r8
    ∷ pop r9
    ∷ pop r10
    ∷ pop r11
    ∷ pop r12
    ∷ pop r13
    ∷ pop r14
    ∷ pop r15
    ∷ iretq
    ∷ []

pub context_switch_code : List Instruction
context_switch_code = save ++ (call ∷ restore)

-- The function as it stands prints a line and changes nothing.
pub context_switch : RegisterState → RegisterState
context_switch state = state
