-- ===== src/Apic/Run.antt =====
-- Code that talks to the hardware: it changes the machine's state, may panic, and may spin.
use oxidized.Common.{ℕ, Outcome, returns, panics, spins}

-- The model-specific registers that the source names.
pub data Msr : Type 0 where
  apic_base x2apic_apicid x2apic_version x2apic_tpr x2apic_ppr x2apic_eoi x2apic_sivr : Msr
  x2apic_icr x2apic_lvt_timer x2apic_lvt_error x2apic_init_count x2apic_div_conf : Msr

abbrev pub Machine : Type 0 → Type 0 → Type 0
Machine S A = S → Outcome (A × S)

abbrev pub pure : {S A : Type 0} → A → Machine S A
pure a s = returns (a, s)

abbrev pub panic : {S A : Type 0} → Machine S A
panic s = panics

abbrev pub spin : {S A : Type 0} → Machine S A
spin s = spins

infixl 5 ◌>>=◌ ◌>>◌
abbrev pub ◌>>=◌ : {S A B : Type 0} → Machine S A → (A → Machine S B) → Machine S B
◌>>=◌ m f s = elim (m s) [ returns (a, s') ↦ f a s' | panics ↦ panics | spins ↦ spins ]

abbrev pub ◌>>◌ : {S B : Type 0} → Machine S (Unit {0}) → Machine S B → Machine S B
m >> k = m >>= λ _. k

-- The hardware, of which the source shows nothing but the accesses: a volatile read or write of 32
-- bits at an address, `rdmsr` and `wrmsr`. Reads may change the state too.
pub record Bus : Type 1 where
  pub State : Type 0
  pub read32 : ℕ → Machine State ℕ
  pub write32 : ℕ → ℕ → Machine State (Unit {0})
  pub rdmsr : Msr → Machine State ℕ
  pub wrmsr : Msr → ℕ → Machine State (Unit {0})
