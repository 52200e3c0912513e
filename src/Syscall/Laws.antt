-- ===== src/Syscall/Laws.antt =====
-- Which entry a system call runs.
use oxidized.Common.{
  ℕ, ◌≡◌, ◌≢◌, Option, none, some, [], arith, ◌==◌, if◌then◌else◌, returns, panics,
}
use mathlib.Core.Option
use oxidized.Common.TreeMap.{TreeMap, get, insert, get-insert}
use oxidized.Syscall.{
  Lookup, ok, err, SyscallParameters, no_such_system_call, usize_max, try_get_syscall, set_handler,
  set_default_handler, register_personality, get_personality, update_personality, init,
  legacy_syscall,
}

abbrev pub or_else {ℓ} : {A : Type ℓ} → Option A → Option A → Option A
or_else (some a) b = some a
or_else none b = b

abbrev pub to_lookup : {A : Type 0} → Option A → Lookup A
to_lookup (some a) = ok a
to_lookup none = err no_such_system_call

module _ {Entry : Type 0} where
  -- After `set_handler id callback`, a call of number `n` runs the new callback if `n` is `id`; else
  -- the entry that `n` had; else, if it had none, the default entry, which is the new callback when
  -- `id` is the default's number. With none of these it gives the error NoSyscall.
  pub try_get_syscall-set_handler :
      (calls : TreeMap Entry) (id : ℕ) (callback : Entry) (parameters : SyscallParameters)
      → try_get_syscall (set_handler calls id callback) parameters
        ≡ to_lookup (
            if id == parameters.id
            then some callback
            else or_else
                (get parameters.id calls)
                (if id == usize_max then some callback else get usize_max calls))
  unfolding try_get_syscall set_handler
  try_get_syscall-set_handler calls id callback parameters =
      ground
        (arith, get-insert id parameters.id callback calls, get-insert id usize_max callback calls)

  -- `update_personality` gives the callback the personality's table, or an empty one where there is
  -- none, stores what comes back, and leaves every other personality alone.
  pub get_personality-update_personality :
      (tables : TreeMap (TreeMap Entry)) (id j : ℕ) (callback : TreeMap Entry → TreeMap Entry)
      → get_personality (update_personality tables id callback) j ≡ (
          if id == j
          then some (callback (Option.get_or (get_personality tables id) []))
          else get_personality tables j)
  unfolding get_personality update_personality register_personality
  get_personality-update_personality tables id j callback = ground (
    arith,
    get-insert id j (callback (Option.get_or (get id tables) [])) tables,
    get-insert id j (callback []) tables,
  )

  get_default :
      (native_default : Entry) (n : ℕ)
      → get n (set_default_handler [] native_default)
        ≡ (if usize_max == n then some native_default else none)
  unfolding set_default_handler set_handler get
  get_default native_default n = get-insert usize_max n native_default []

  -- After `init`, and a handler set for one number other than the default's, the legacy interrupt runs
  -- that handler for that number and the native default handler for every other.
  pub legacy_syscall-init :
      (tables : TreeMap (TreeMap Entry)) (native_default callback : Entry) (id rax : ℕ)
      → id ≢ usize_max
      → legacy_syscall
          (update_personality
            (init tables native_default)
            usize_max
            (λ calls. set_handler calls id callback))
          rax
        ≡ returns (some (if id == rax then callback else native_default))
  unfolding legacy_syscall init update_personality get_personality register_personality
  legacy_syscall-init tables native_default callback id rax h =
      let native : TreeMap Entry = set_default_handler [] native_default in
      let mine : TreeMap Entry = set_handler native id callback in
      ground (
        arith,
        get-insert usize_max usize_max native tables,
        get-insert usize_max usize_max mine (insert usize_max native tables),
        try_get_syscall-set_handler native id callback (record { id = rax }),
        get_default native_default rax,
        get_default native_default usize_max,
      )

  -- Without the native personality, it panics.
  pub legacy_syscall-panics :
      (tables : TreeMap (TreeMap Entry)) (rax : ℕ)
      → get_personality tables usize_max ≡ none
      → legacy_syscall tables rax ≡ panics
  unfolding legacy_syscall
  legacy_syscall-panics tables rax e = ground arith
