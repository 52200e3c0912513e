-- ===== src/Context/Tests.antt =====
-- A context that is stopped and resumed at another address.
use oxidized.Common.{◌≡◌, ◌+◌, some, []}
use oxidized.Context.{RegisterState, context_switch_code}
use oxidized.Context.Run.{Cpu, run, interrupted, running}
use oxidized.Context.Switch.{run-resumes}

abbrev stopped_context : RegisterState
stopped_context = record {
  cr2 = 0xdead000;
  cr3 = 0x101000;
  rax = 1;
  rbx = 2;
  rcx = 3;
  rdx = 4;
  rsi = 5;
  rdi = 6;
  rbp = 7;
  r8 = 8;
  r9 = 9;
  r10 = 10;
  r11 = 11;
  r12 = 12;
  r13 = 13;
  r14 = 14;
  r15 = 15;
  rip = 0x400000;
  cs = 0x33;
  rflags = 0x202;
  rsp = 0x7fff0000;
  ss = 0x2b;
}

abbrev next_instruction : RegisterState → RegisterState
next_instruction c = record c { rip = c.rip + 2 }

abbrev at_handler : Cpu
at_handler = record {
  registers = λ r. 0;
  rip = 0x8000;
  cs = 8;
  rflags = 2;
  rsp = 0xffff800000003ed8;
  ss = 0x10;
  stack = [];
}

run-resumes_example :
    (s : Cpu) × (run next_instruction
        (λ f r. 0)
        context_switch_code
        (interrupted stopped_context at_handler)
      ≡ some s)
    × (running s ≡ next_instruction stopped_context)
    × (s.stack ≡ [])
run-resumes_example = run-resumes next_instruction (λ f r. 0) stopped_context at_handler
