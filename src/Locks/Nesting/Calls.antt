-- ===== src/Locks/Nesting/Calls.antt =====
-- The order of the locks in what every processor calls: the heap, the console and the logging.
use oxidized.Common.{ℕ, zero, suc, ◌≤◌, ◌<◌, arith, Bool, List, [], ◌∷◌}
use oxidized.Locks.{
  Lock, console, frame_buffer, allocator, memory_manager, serial, software_handlers,
}
use oxidized.Locks.Code.{
  Code, scope, println, printed, locked_heap, extend_heap, HeapCall, fits, grows, frees, heap_call,
  heap_calls, Glyph, skipped, drawn, put_char, put_chars, Message, log, logs, identity_map,
}
use oxidized.Locks.Nesting.{IsNested, []-IsNested, ++-IsNested, lower, scope-IsNested}

module _ {on : Bool} where
  -- A scope, from any lock up to its own.
  pub scope_from :
      (m l : Lock) {body : Code}
      → IsNested on (suc l) body
      → m ≤ l
      → l < software_handlers
      → IsNested on m (scope l body)
  scope_from m l n h b = lower (scope-IsNested n b) h

  pub empty_scope : (m l : Lock) → m ≤ l → l < software_handlers → IsNested on m (scope l [])
  empty_scope m l h b = scope_from m l ([]-IsNested (suc l)) h b

  pub println-IsNested : (m : Lock) → m ≤ serial → IsNested on m println
  println-IsNested m h = empty_scope m serial h (omega arith)

  printed-IsNested : (n : ℕ) → IsNested on serial (printed n)
  printed-IsNested zero = []-IsNested serial
  printed-IsNested (suc n) =
      ++-IsNested (println-IsNested serial (omega arith)) (printed-IsNested n)

  pub identity_map-IsNested : (n m : ℕ) → m ≤ memory_manager → IsNested on m (identity_map n)
  identity_map-IsNested n m h = scope_from m memory_manager (printed-IsNested n) h (omega arith)

  locked_heap-IsNested : (m : Lock) → m ≤ allocator → IsNested on m locked_heap
  locked_heap-IsNested m h = empty_scope m allocator h (omega arith)

  extend_heap-IsNested : (n m : ℕ) → m ≤ allocator → IsNested on m (extend_heap n)
  extend_heap-IsNested n m h =
      scope_from m allocator (identity_map-IsNested n (suc allocator) (omega arith)) h (omega arith)

  pub heap_call-IsNested : (m : Lock) → m ≤ allocator → (c : HeapCall) → IsNested on m (heap_call c)
  heap_call-IsNested m h fits = locked_heap-IsNested m h
  heap_call-IsNested m h (grows n) =
      let k = locked_heap-IsNested m h in
      ++-IsNested k (++-IsNested k (++-IsNested (extend_heap-IsNested n m h) k))
  heap_call-IsNested m h frees = locked_heap-IsNested m h

  pub heap_calls-IsNested :
      (m : Lock) → m ≤ allocator → (cs : List HeapCall) → IsNested on m (heap_calls cs)
  heap_calls-IsNested m h [] = []-IsNested m
  heap_calls-IsNested m h (c ∷ cs) =
      ++-IsNested (heap_call-IsNested m h c) (heap_calls-IsNested m h cs)

  put_char-IsNested : (m : Lock) → m ≤ frame_buffer → (g : Glyph) → IsNested on m (put_char g)
  put_char-IsNested m h skipped = []-IsNested m
  put_char-IsNested m h (drawn cs) =
      scope_from m frame_buffer (heap_calls-IsNested (suc frame_buffer) (omega arith) cs) h
        (omega arith)

  put_chars-IsNested :
      (m : Lock) → m ≤ frame_buffer → (gs : List Glyph) → IsNested on m (put_chars gs)
  put_chars-IsNested m h [] = []-IsNested m
  put_chars-IsNested m h (g ∷ gs) =
      ++-IsNested (put_char-IsNested m h g) (put_chars-IsNested m h gs)

  pub log-IsNested : (m : Lock) → m ≤ console → (t : Message) → IsNested on m (log t)
  log-IsNested m h t =
      let inside = ++-IsNested (heap_calls-IsNested (suc console) (omega arith) t.to_string) (
        ++-IsNested (put_chars-IsNested (suc console) (omega arith) t.chars)
          (heap_calls-IsNested (suc console) (omega arith) t.dropped)) in
      ++-IsNested (println-IsNested m (omega arith)) (
        ++-IsNested (scope_from m console inside h (omega arith))
          (empty_scope m frame_buffer (omega arith) (omega arith)))

  pub logs-IsNested : (m : Lock) → m ≤ console → (ts : List Message) → IsNested on m (logs ts)
  logs-IsNested m h [] = []-IsNested m
  logs-IsNested m h (t ∷ ts) = ++-IsNested (log-IsNested m h t) (logs-IsNested m h ts)
