-- ===== src/Apic/Setup.antt =====
-- apic/mod.rs, init: the boot processor finds its local APIC and makes it reachable.
mod Tests
use oxidized.Common.{
  ℕ, ◌+◌, ◌-◌, ◌*◌, ◌/◌, ◌%◌, ◌^◌, ◌≤◌, ◌<◌, ◌≡◌, refl, sym, ap, ◌∙◌, subst, arith, ◌==◌, ==_refl,
  ◌⊎◌, inl, inr, if◌then◌else◌, Bool, true, false, bit_and, Option, none, some, Outcome, returns,
  panics, ◌>>=◌, unwrap, >>=-eq-returns, Option-cases,
}
use oxidized.Common.Bits.{bit_and_le}
use oxidized.Crates.{BitStore, Paging, PageTables}
use oxidized.Memory.Frames.{FrameAllocator}
use oxidized.Memory.Manager.{MemoryManager, identity_map}
use oxidized.Apic.{LocalApic, init_ap, get_register_pointer, apic_register_address_mask}
use oxidized.Apic.Run.{Bus, Machine}

-- What the acpi crate says of the platform's interrupts.
pub data InterruptModel : Type 0 where
  apic_model : ℕ → InterruptModel
  unknown_model : InterruptModel

module _ (B : BitStore) (G : Paging) (P : PageTables (FrameAllocator B)) (H : Bus) where
  -- What `init` works on: the hardware, the memory manager and the frames, and `LOCAL_APIC`.
  pub record Boot : Type 0 where
    pub bus : H.State
    pub manager : MemoryManager B G P
    pub frames : FrameAllocator B
    pub local_apic : LocalApic

  -- The branch of an xAPIC; `flags` are WRITABLE | NO_CACHE | PRESENT.
  pub use_memory : ℕ → Boot → ℕ → Outcome Boot
  use_memory flags s addr = do
    mapped ← identity_map B G P s.manager s.frames (G.containing_address (addr % 2 ^ 52)) flags
    returns (record s {
      manager = mapped.0;
      frames = mapped.1;
      local_apic = record (s.local_apic) { address = addr };
    })

  -- That of an x2APIC.
  pub use_msr : Boot → Boot
  use_msr s = record s { local_apic = record (s.local_apic) { x2 = true } }

  -- `pic_init` turns the old interrupt controllers off, and `has_x2apic` is what cpuid says.
  pub init : Machine H.State (Unit {0}) → ℕ → Bool → Boot → Option InterruptModel → Outcome Boot
  init pic_init flags has_x2apic s platform_info = do
    model ← unwrap platform_info
    addr ← (elim model [ apic_model a ↦ returns a | unknown_model ↦ panics ])
    off ← pic_init s.bus
    let s₁ : Boot = record s { bus = off.1 }
    s₂ ← (if has_x2apic then returns (use_msr s₁) else use_memory flags s₁ addr)
    set ← init_ap H s₂.local_apic s₂.bus
    returns (record s₂ { bus = set.1 })

  identity_map-translates :
      (m m' : MemoryManager B G P) (frames frames' : FrameAllocator B) (frame flags : ℕ)
      → identity_map B G P m frames frame flags ≡ returns (m', frames')
      → (t : P.Tables) × (m'.page_table ≡ some t) × (P.translate_page t frame ≡ true)
  unfolding identity_map
  identity_map-translates m m' frames frames' frame flags e = elim (Option-cases m.page_table) [
    | inl no_tables ↦ ground arith
    | inr (t, tables) ↦ elim (Option-cases (P.identity_map t frame flags frames)) [
      | inl refused ↦ ground arith
      | inr ((t', f'), q) ↦
          let law =
            P.translate-map t frame frame flags frames t' f'
              (sym (P.identity_map-eq t frame flags frames) ∙ q) frame in
          (t', ground arith, law ∙ rw (==_refl frame) refl)
    ]
  ]

  abbrev moved : Boot → ℕ → MemoryManager B G P × FrameAllocator B → Boot
  moved s addr mapped = record s {
    manager = mapped.0;
    frames = mapped.1;
    local_apic = record (s.local_apic) { address = addr };
  }

  -- The rest of `init`, once the page is mapped.
  abbrev start : Boot → Outcome Boot
  start s = init_ap H s.local_apic s.bus >>= λ r. returns (record s { bus = r.1 })

  -- Every register has an address in a page that is mapped.
  abbrev pub Reaches : Boot → Type 0
  Reaches s =
      (t : P.Tables) × (s.manager.page_table ≡ some t)
      × ((register : ℕ) (bus : H.State)
          → (pointer : ℕ) × (get_register_pointer H s.local_apic register bus
              ≡ returns (pointer, bus))
            × (P.translate_page t (G.containing_address pointer) ≡ true))

  same_page :
      (addr offset : ℕ)
      → addr % 4096 ≡ 0
      → addr < 2 ^ 52
      → offset < 4096
      → G.containing_address (addr % 2 ^ 52) ≡ G.containing_address (addr + offset)
  same_page addr offset aligned small l = omega (
    arith,
    aligned,
    small,
    l,
    G.containing_address-eq (addr % 2 ^ 52),
    G.containing_address-eq (addr + offset),
  )

  -- After `init` has returned on a processor without an x2APIC, whose local APIC stands at the start of a
  -- page below 2^52, every register has an address in a page that is mapped.
  pub init-Reaches :
      (pic_init : Machine H.State (Unit {0})) (flags addr : ℕ) (s s' : Boot)
      → addr % 4096 ≡ 0
      → addr < 2 ^ 52
      → s.local_apic.x2 ≡ false
      → init pic_init flags false s (some (apic_model addr)) ≡ returns s'
      → Reaches s'
  unfolding init use_memory get_register_pointer
  init-Reaches pic_init flags addr s s' aligned small old e =
      let (off, e₁, r₁) = >>=-eq-returns (pic_init s.bus) _ e in
      let s₁ : Boot = record s { bus = off.1 } in
      let page : ℕ = G.containing_address (addr % 2 ^ 52) in
      let (s₂, e₂, r₂) = >>=-eq-returns (use_memory flags s₁ addr) (λ u. start u) r₁ in
      let (mapped, e₃, r₃) =
        >>=-eq-returns (identity_map B G P s.manager s.frames page flags)
          (λ m. returns (moved s₁ addr m)) e₂ in
      let (set, e₄, r₄) =
        >>=-eq-returns (init_ap H s₂.local_apic s₂.bus) (λ r. returns (record s₂ { bus = r.1 }))
          r₂ in
      let (t, tables, there) =
        identity_map-translates s.manager mapped.0 s.frames mapped.1 page flags e₃ in
      let last : Boot = record (moved s₁ addr mapped) { bus = set.1 } in
      let same : last ≡ s' = cc in
      subst (λ u. Reaches u) same
        (
          t,
          tables,
          λ register bus. (
            addr + bit_and register apic_register_address_mask,
            rw old refl,
            subst (λ q. P.translate_page t q ≡ true)
                (same_page addr (bit_and register apic_register_address_mask) aligned small
                  (omega (arith, bit_and_le register apic_register_address_mask)))
                there,
          ),
        )
