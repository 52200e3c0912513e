-- ===== src/Syscall.antt =====
-- kernel/src/arch/arch_x86_64/syscall/mod.rs and kernel/src/errors/mod.rs: system calls by number,
-- in one table for each personality.
pub mod Laws
mod Tests
use oxidized.Common.{
  ℕ, ◌-◌, ◌^◌, Option, none, some, List, [], ◌∷◌, Outcome, returns, panics, ◌>>=◌, unwrap,
}
use oxidized.Common.TreeMap.{TreeMap, get, insert}

abbrev pub usize_max : ℕ
usize_max = 2 ^ 64 - 1

pub data SyscallErrorCode : Type 0 where
  no_error no_syscall : SyscallErrorCode

-- The numbers of `SyscallErrorCode`.
pub code_number : SyscallErrorCode → ℕ
code_number no_error = 0
code_number no_syscall = 255

-- A `SyscallError`, without its message.
pub record SyscallError : Type 0 where
  pub error_code : SyscallErrorCode

pub no_such_system_call : SyscallError
no_such_system_call = record { error_code = no_syscall }

pub data Lookup (A : Type 0) : Type 0 where
  ok : A → Lookup A
  err : SyscallError → Lookup A

pub record SyscallParameters : Type 0 where
  pub id : ℕ

-- `Entry` stands for `fn(&SyscallParameters)`.
module _ {Entry : Type 0} where
  -- `SyscallTable::try_get_syscall`
  pub try_get_syscall : TreeMap Entry → SyscallParameters → Lookup Entry
  try_get_syscall calls parameters = elim (get parameters.id calls) [
    | some entry ↦ ok entry
    | none ↦ elim (get usize_max calls) [ some entry ↦ ok entry | none ↦ err no_such_system_call ]
  ]

  pub set_handler : TreeMap Entry → ℕ → Entry → TreeMap Entry
  set_handler calls id callback = insert id callback calls

  pub set_default_handler : TreeMap Entry → Entry → TreeMap Entry
  set_default_handler calls callback = set_handler calls usize_max callback

  -- `SyscallTables`: a table for each personality.
  pub register_personality : TreeMap (TreeMap Entry) → ℕ → TreeMap Entry → TreeMap (TreeMap Entry)
  register_personality tables id table = insert id table tables

  pub get_personality : TreeMap (TreeMap Entry) → ℕ → Option (TreeMap Entry)
  get_personality tables id = get id tables

  pub update_personality :
      TreeMap (TreeMap Entry) → ℕ → (TreeMap Entry → TreeMap Entry) → TreeMap (TreeMap Entry)
  update_personality tables id callback = elim (get_personality tables id) [
    | some table ↦ register_personality tables id (callback table)
    | none ↦ register_personality tables id (callback [])
  ]

  -- `init`, with `native_default_syscall_handler` for the callback.
  pub init : TreeMap (TreeMap Entry) → Entry → TreeMap (TreeMap Entry)
  init tables native_default =
      register_personality tables usize_max (set_default_handler [] native_default)

  -- The lookup of `legacy_syscall_interrupt_handler`: the entry that runs for the number in rax, if
  -- any does. It panics while the native personality is missing.
  pub legacy_syscall : TreeMap (TreeMap Entry) → ℕ → Outcome (Option Entry)
  legacy_syscall tables rax = do
    table ← unwrap (get_personality tables usize_max)
    elim (try_get_syscall table (record { id = rax })) [
      | ok callback ↦ returns (some callback)
      | err e ↦ returns none
    ]
