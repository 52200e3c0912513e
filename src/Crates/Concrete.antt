-- ===== src/Crates/Concrete.antt =====
-- Small instances of the crates' interfaces, for runs on concrete input.
use oxidized.Common.{
  ◌&&◌, not, ℕ, ◌-◌, ◌+◌, ◌*◌, ◌/◌, ◌%◌, ◌^◌, ◌<◌, ◌≢◌, ltb, ◌==◌, leb, if◌then◌else◌, Bool, true,
  Option, none, some, panics, Outcome, ◌≤◌, le→leb, ==_refl, List, ◌∷◌, ◌≡◌, refl, arith, returns,
}
use oxidized.Crates.{BitStore, Paging, PageTables, LockedHeap}
use oxidized.Crates.Descriptors.{DescriptorTables}
use oxidized.Memory.Kmalloc.{Kmalloc}
use oxidized.Apic.Run.{Bus}

-- A length and the bits.
abbrev pub bit_function : BitStore
bit_function = record {
  Bits = ℕ × (ℕ → Bool);
  len = λ b. b.0;
  test = λ b i. b.1 i;
  assign = λ b i v. (b.0, λ j. if i == j then v else b.1 j);
  bitarr = λ v. (64, λ i. i == 0 && not (v == 0));
  len-bitarr = λ v. refl;
  test-bitarr = λ v i h. refl;
  len-assign = λ b i v. refl;
  test-assign = λ b i j v h. refl;
}

abbrev pub sign_extend : ℕ → Outcome ℕ
sign_extend a =
    if ltb a (2 ^ 47)
    then returns a
    else if ltb a (2 ^ 48)
    then returns (a + (2 ^ 64 - 2 ^ 48))
    else if ltb a (2 ^ 64 - 2 ^ 47)
    then panics
    else returns a

pub sign_extend_low : (a : ℕ) → a < 2 ^ 47 → sign_extend a ≡ returns a
sign_extend_low a h = ground arith

pub sign_extend_gap :
    (a : ℕ) → 2 ^ 47 ≤ a → a < 2 ^ 48 → sign_extend a ≡ returns (a + (2 ^ 64 - 2 ^ 48))
sign_extend_gap a h l = ground arith

pub sign_extend_bad : (a : ℕ) → 2 ^ 48 ≤ a → a < 2 ^ 64 - 2 ^ 47 → sign_extend a ≡ panics
sign_extend_bad a h l = ground arith

pub sign_extend_high : (a : ℕ) → 2 ^ 64 - 2 ^ 47 ≤ a → a < 2 ^ 64 → sign_extend a ≡ returns a
sign_extend_high a h l = ground arith

abbrev pub rounding : Paging
rounding = record {
  containing_address = λ a. a / 4096 * 4096;
  containing_address-eq = λ a. refl;
  virt_addr = λ a. sign_extend a;
  virt_addr-low = sign_extend_low;
  virt_addr-gap = sign_extend_gap;
  virt_addr-bad = sign_extend_bad;
  virt_addr-high = sign_extend_high;
}

-- What `translate-map` of the page tables below asks.
pub page_set-lookup :
    {F : Type 0} (t : ℕ → Bool) (page : ℕ) (f : F) (t' : ℕ → Bool) (f' : F)
    → ◌≡◌ {A = Option ((ℕ → Bool) × F)}
        (some ((λ q. if page == q then true else t q), f))
        (some (t', f'))
    → (q : ℕ) → t' q ≡ (if page == q then true else t q)
page_set-lookup t page f t' f' e q = ground arith

abbrev pub round_up : ℕ → ℕ
round_up n = (n + 15) / 16 * 16

-- A block behind those given out, at a multiple of 16.
abbrev pub bump : ℕ × ℕ → ℕ → ℕ × (ℕ × ℕ)
bump h size =
    if leb (round_up h.1 + size) h.0 && ltb (4096 + round_up h.1 + size) (2 ^ 64)
    then (4096 + round_up h.1, (h.0, round_up h.1 + size))
    else (0, h)

pub bump-size : (h : ℕ × ℕ) (size : ℕ) → (bump h size).1.0 ≡ h.0
bump-size h size = ground arith

pub bump-aligned : (h : ℕ × ℕ) (size : ℕ) → (bump h size).0 % 16 ≡ 0
bump-aligned h size = ground arith

pub bump-fits : (h : ℕ × ℕ) (size : ℕ) → (bump h size).0 ≢ 0 → (bump h size).0 + size < 2 ^ 64
bump-fits h size ne = ground arith

-- Page tables that take no frames for themselves.
abbrev pub page_set : (F : Type 0) → PageTables F
page_set F = record {
  Tables = ℕ → Bool;
  translate_page = λ t q. t q;
  map_to = λ t page frame flags f. some ((λ q. if page == q then true else t q), f);
  translate-map = λ t page frame flags f t' f' e q. page_set-lookup t page f t' f' e q;
  identity_map = λ t frame flags f. some ((λ q. if frame == q then true else t q), f);
  identity_map-eq = λ t frame flags f. refl;
}

-- A heap by its size and the bytes given out, from address 4096 on.
abbrev pub bump_heap : LockedHeap
bump_heap = record {
  Heap = ℕ × ℕ;
  heap_size = λ h. h.0;
  init_heap = λ start size. (size, 0);
  extend = λ h n. (h.0 + n, h.1);
  allocate = λ h size align. bump h size;
  deallocate = λ h ptr size align. h;
  size-init = λ start size. refl;
  size-extend = λ h n. refl;
  size-allocate = λ h size align. bump-size h size;
  allocate-aligned = λ h size. bump-aligned h size;
  allocate-fits = λ h size align ne. bump-fits h size ne;
}

-- Registers that read as 0, and a log of the writes, the latest first.
abbrev pub quiet_bus : Bus
quiet_bus = record {
  State = List (ℕ × ℕ);
  read32 = λ a s. returns (0, s);
  write32 = λ a v s. returns (tt, (a, v) ∷ s);
  rdmsr = λ r s. returns (0, s);
  wrmsr = λ r v s. returns (tt, (0, v) ∷ s);
}

-- Blocks of 16 bytes by number, as long as there are any, and 0 from then on.
abbrev pub block : ℕ → ℕ → ℕ × ℕ
block h size = if ltb (16 * h + size) (2 ^ 64) then (16 * h, h + size) else (0, h)

pub block-aligned : (h size : ℕ) → (block h size).0 % 16 ≡ 0
block-aligned h size = ground arith

pub block-fits : (h size : ℕ) → (block h size).0 ≢ 0 → (block h size).0 + size < 2 ^ 64
block-fits h size ne = ground arith

pub returns-block-aligned :
    (h h' size ptr : ℕ) → returns (block h size) ≡ returns (ptr, h') → ptr % 16 ≡ 0
returns-block-aligned h h' size ptr e = ground (arith, block-aligned h size)

pub returns-block-fits :
    (h h' size ptr : ℕ) → returns (block h size) ≡ returns (ptr, h') → ptr ≢ 0 → ptr + size < 2 ^ 64
returns-block-fits h h' size ptr e ne = ground (arith, block-fits h size)

abbrev pub blocks : Kmalloc
blocks = record {
  Heap = ℕ;
  kmalloc = λ h size align. returns (block h size);
  kmalloc-aligned = λ h h' size ptr e. returns-block-aligned h h' size ptr e;
  kmalloc-fits = λ h h' size align ptr e ne. returns-block-fits h h' size ptr e ne;
}

-- A table of at most eight entries; a descriptor is its size and its value.
abbrev pub add_descriptor :
    ℕ × (ℕ → Option (ℕ × ℕ)) → ℕ × ℕ → Outcome (ℕ × (ℕ × (ℕ → Option (ℕ × ℕ))))
add_descriptor t d =
    if leb (t.0 + d.0) 8
    then returns (8 * t.0 + 3, (t.0 + d.0, λ i. if i == t.0 then some d else t.1 i))
    else panics

pub add_descriptor-room :
    (t : ℕ × (ℕ → Option (ℕ × ℕ))) (d : ℕ × ℕ)
    → t.0 + d.0 ≤ 8
    → (selector : ℕ) × (t' : ℕ × (ℕ → Option (ℕ × ℕ))) × (add_descriptor t d
        ≡ returns (selector, t'))
      × (selector / 8 ≡ t.0)
      × (t'.0 ≡ t.0 + d.0)
      × (t'.1 t.0 ≡ some d)
      × ((i : ℕ) → i < t.0 → t'.1 i ≡ t.1 i)
add_descriptor-room t d room = (
  8 * t.0 + 3,
  (t.0 + d.0, λ i. if i == t.0 then some d else t.1 i),
  rw (le→leb (t.0 + d.0) 8 room) refl,
  omega arith,
  refl,
  rw (==_refl t.0) refl,
  λ i l. ground (arith, l),
)

abbrev pub descriptors : DescriptorTables
descriptors = record {
  Table = ℕ × (ℕ → Option (ℕ × ℕ));
  Descriptor = ℕ × ℕ;
  kernel_code_segment = (1, 0x00af9b000000ffff);
  user_data_segment = (1, 0x00cff3000000ffff);
  user_code_segment = (1, 0x00affb000000ffff);
  user_segment = λ flags. (1, flags);
  tss_segment = λ tss. (2, tss);
  size = λ d. d.0;
  new_table = (1, λ i. none);
  used = λ t. t.0;
  entry = λ t i. t.1 i;
  add_entry = add_descriptor;
  align_down = λ a align. if align == 16 then a / 16 * 16 else a;
  size-kernel_code = refl;
  size-user_data = refl;
  size-user_code = refl;
  size-user = λ flags. refl;
  size-tss = λ tss. refl;
  used-new = refl;
  add_entry-room = add_descriptor-room;
  align_down-eq = λ a. refl;
}
