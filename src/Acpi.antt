-- ===== src/Acpi.antt =====
-- kernel/src/arch/arch_x86_64/acpi/mod.rs: the ACPI tables, loaded once.
use oxidized.Common.{
  ℕ, ◌≡◌, refl, Option, none, some, Outcome, returns, ◌>>=◌, unwrap, >>=-eq-returns,
}
use oxidized.Crates.{BitStore, Paging, PageTables}
use oxidized.Memory.Frames.{FrameAllocator}
use oxidized.Memory.Manager.{MemoryManager, translate}

-- What the acpi crate gives: tables from an address or from a search, and what they say of the
-- platform, which includes the processors or not. `none` is an error.
pub record AcpiCrate : Type 1 where
  pub AcpiTables : Type 0
  pub PlatformInfo : Type 0
  pub ProcessorInfo : Type 0
  pub from_rsdp : ℕ → Option AcpiTables
  pub search_for_rsdp_bios : Option AcpiTables
  pub platform_info : AcpiTables → Option PlatformInfo
  pub processor_info : PlatformInfo → Option ProcessorInfo

-- `AcpiHandlerImpl::map_physical_region`: all of the physical memory is mapped already.
pub map_physical_region :
    (B : BitStore) (G : Paging) (P : PageTables (FrameAllocator B)) → MemoryManager B G P → ℕ → ℕ
map_physical_region B G P manager physical_address = translate B G P manager physical_address

module _ (A : AcpiCrate) where
  open A use {AcpiTables, from_rsdp, search_for_rsdp_bios, platform_info, processor_info}

  pub load_acpi : Option ℕ → Outcome AcpiTables
  load_acpi (some addr) = unwrap (from_rsdp addr)
  load_acpi none = unwrap search_for_rsdp_bios

  -- On `ACPI_TABLES`, a cell that is set once.
  pub get_acpi_tables : Option AcpiTables → Outcome AcpiTables
  get_acpi_tables tables = unwrap tables

  pub init : Option AcpiTables → Option ℕ → Outcome (Option AcpiTables)
  init (some tables) rsdp_addr = returns (some tables)
  init none rsdp_addr = do
    acpi_tables ← load_acpi rsdp_addr
    info ← unwrap (platform_info acpi_tables)
    cpu_info ← unwrap (processor_info info)
    returns (some acpi_tables)

  -- Once `init` has returned, the tables are there, and a further `init` from whatever address leaves
  -- them.
  pub init-init :
      (tables tables' : Option AcpiTables) (rsdp_addr other : Option ℕ)
      → init tables rsdp_addr ≡ returns tables'
      → ((t : AcpiTables) × (get_acpi_tables tables' ≡ returns t))
        × (init tables' other ≡ returns tables')
  unfolding init get_acpi_tables
  init-init tables (some t) rsdp_addr other e = ((t, refl), refl)
  init-init (some t) none rsdp_addr other e = cc
  init-init none none rsdp_addr other e =
      let (t, e₁, r₁) = >>=-eq-returns (load_acpi rsdp_addr) _ e in
      let (info, e₂, r₂) = >>=-eq-returns (unwrap (platform_info t)) _ r₁ in
      let (cpu_info, e₃, r₃) = >>=-eq-returns (unwrap (processor_info info)) _ r₂ in cc
