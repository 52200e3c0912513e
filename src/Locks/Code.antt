-- ===== src/Locks/Code.antt =====
-- The locks that the kernel's functions take, with what they do under each: serial/mod.rs,
-- logging/mod.rs, console/mod.rs, framebuffer/mod.rs, memory/allocator.rs, memory/mod.rs, main.rs,
-- devices/src/lib.rs and the interrupts of arch/arch_x86_64/idt/mod.rs. What a run depends on (where
-- the heap grows, which characters scroll) is an argument; a run that panics has no code here.
use oxidized.Common.{ℕ, zero, suc, List, [], ◌∷◌, ◌++◌}
use oxidized.Locks.{
  Lock, Action, acquire, release, syscall_tables, console, frame_buffer, allocator, memory_manager,
  serial, software_handlers,
}

abbrev pub Code : Type 0
Code = List Action

-- A guard's scope.
abbrev pub scope : Lock → Code → Code
scope l body = acquire l ∷ (body ++ (release l ∷ []))

abbrev pub println : Code
println = scope serial []

abbrev pub printed : ℕ → Code
printed zero = []
printed (suc n) = println ++ printed n

-- Under its lock the memory manager takes frames; the frame allocator prints `prints` lines.
abbrev pub allocate_heap_space : ℕ → Code
allocate_heap_space prints = scope memory_manager (printed prints)

abbrev pub locked_heap : Code
locked_heap = scope allocator []

abbrev pub get_heap_size : Code
get_heap_size = locked_heap

abbrev pub extend_heap : ℕ → Code
extend_heap prints = scope allocator (allocate_heap_space prints)

-- `alloc`, which grows the heap when it has no room, and `dealloc`.
pub data HeapCall : Type 0 where
  fits : HeapCall
  grows : (prints : ℕ) → HeapCall
  frees : HeapCall

abbrev pub heap_call : HeapCall → Code
heap_call fits = locked_heap
heap_call (grows prints) = locked_heap ++ (get_heap_size ++ (extend_heap prints ++ locked_heap))
heap_call frees = locked_heap

abbrev pub heap_calls : List HeapCall → Code
heap_calls [] = []
heap_calls (h ∷ hs) = heap_call h ++ heap_calls hs

-- A character: not ASCII; or drawn, where `shift_up` boxes the colour that it clears with.
pub data Glyph : Type 0 where
  skipped : Glyph
  drawn : (boxed : List HeapCall) → Glyph

abbrev pub put_char : Glyph → Code
put_char skipped = []
put_char (drawn boxed) = scope frame_buffer (heap_calls boxed)

abbrev pub put_chars : List Glyph → Code
put_chars [] = []
put_chars (g ∷ gs) = put_char g ++ put_chars gs

-- A text to print: what `to_string` allocates, its characters, and how the string is freed.
pub record Message : Type 0 where
  pub to_string : List HeapCall
  pub chars : List Glyph
  pub dropped : List HeapCall

abbrev pub swap_framebuffer : Code
swap_framebuffer = scope frame_buffer []

abbrev pub console_print : Message → Code
console_print m =
    scope console (heap_calls m.to_string ++ (put_chars m.chars ++ heap_calls m.dropped))
    ++ swap_framebuffer

-- debug!, verbose!, warn!: the serial port, then the console.
abbrev pub log : Message → Code
log m = println ++ console_print m

abbrev pub logs : List Message → Code
logs [] = []
logs (m ∷ ms) = log m ++ logs ms

abbrev pub identity_map : ℕ → Code
identity_map prints = scope memory_manager (printed prints)

-- The interrupts that come through the table of software handlers, by the handler that is found. The
-- legacy system call clones a table under its lock, and calls the default handler, which prints, or none.
pub data Handler : Type 0 where
  timer : Handler
  spurious : Message → Handler
  legacy_syscall :
      Message
      → (cloned : List HeapCall) → (called : List Message) → (dropped : List HeapCall) → Handler
  no_handler : Message → Handler

abbrev pub software_interrupt_handler : Handler → Code
software_interrupt_handler timer = []
software_interrupt_handler (spurious m) = log m
software_interrupt_handler (legacy_syscall m cloned called dropped) =
    log m ++ (scope syscall_tables (heap_calls cloned) ++ (logs called ++ heap_calls dropped))
software_interrupt_handler (no_handler m) = log m

-- The guard of the table is in scope while the handler runs.
abbrev pub general_interrupt_handler : Handler → Code
general_interrupt_handler h = scope software_handlers (software_interrupt_handler h)
