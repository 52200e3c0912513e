-- ===== src/Crates/Descriptors.antt =====
-- x86_64: the tables of segment descriptors.
use oxidized.Common.{ℕ, ◌+◌, ◌*◌, ◌/◌, ◌≤◌, ◌<◌, ◌≡◌, Option, some, Outcome, returns}

-- `GlobalDescriptorTable`, `Descriptor` and `VirtAddr::align_down`. A selector holds the index of its
-- entry from bit 3 on. A table has room for eight entries, `used` of which are taken, the null entry
-- first; a task state segment takes two. `add_entry` panics where there is no room.
pub record DescriptorTables : Type 1 where
  pub Table : Type 0
  pub Descriptor : Type 0
  pub kernel_code_segment : Descriptor
  pub user_data_segment : Descriptor
  pub user_code_segment : Descriptor
  pub user_segment : ℕ → Descriptor
  pub tss_segment : ℕ → Descriptor
  pub size : Descriptor → ℕ
  pub new_table : Table
  pub used : Table → ℕ
  pub entry : Table → ℕ → Option Descriptor
  pub add_entry : Table → Descriptor → Outcome (ℕ × Table)
  pub align_down : ℕ → ℕ → ℕ
  pub size-kernel_code : size kernel_code_segment ≡ 1
  pub size-user_data : size user_data_segment ≡ 1
  pub size-user_code : size user_code_segment ≡ 1
  pub size-user : (flags : ℕ) → size (user_segment flags) ≡ 1
  pub size-tss : (tss : ℕ) → size (tss_segment tss) ≡ 2
  pub used-new : used new_table ≡ 1
  pub add_entry-room :
      (t : Table) (d : Descriptor)
      → used t + size d ≤ 8
      → (selector : ℕ) × (t' : Table) × (add_entry t d ≡ returns (selector, t'))
        × (selector / 8 ≡ used t)
        × (used t' ≡ used t + size d)
        × (entry t' (used t) ≡ some d)
        × ((i : ℕ) → i < used t → entry t' i ≡ entry t i)
  pub align_down-eq : (a : ℕ) → align_down a 16 ≡ a / 16 * 16
