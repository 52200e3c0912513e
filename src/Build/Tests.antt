-- ===== src/Build/Tests.antt =====
-- A build of a folder with one assembler file, the start-up code of the processors.
use oxidized.Common.{
  ℕ, ◌≡◌, ◌≢◌, refl, sym, ◌∙◌, ap, ap₂, arith, ◌==◌, if◌then◌else◌, Bool, Bool-cases, true, false,
  ◌&&◌, inl, inr, Option, none, some, List, [], ◌∷◌, ◌++◌, returns, panics,
}
use oxidized.Common.Predicates.{In}
use oxidized.Devices.{codes}
use oxidized.Build.{Text, eq_text, DirEntry}
use oxidized.Build.Paths.{eq_text_refl}
use oxidized.Build.Assembly.{Host, build_assembly}
use oxidized.Build.Assembly.Laws.{below, Built, build_assembly_lem}
use oxidized.Build.Assembly.{trampoline, bootstrap_code}
use oxidized.Build.Assembly.Failure.{build_assembly-panics}
use oxidized.Build.Constants.{
  constant_map, constants, create_metadata_constants, version_declaration, lines, has_newline,
  env_val, create_metadata_constants_lem,
}

abbrev eq_path : List Text → List Text → Bool
eq_path [] [] = true
eq_path [] (n ∷ ns) = false
eq_path (m ∷ ms) [] = false
eq_path (m ∷ ms) (n ∷ ns) = eq_text m n && eq_path ms ns

both : (a b : Bool) → (a && b) ≡ true → (a ≡ true) × (b ≡ true)
both true b h = (refl, h)
both false b h = absurd cc

same_number : (a b : ℕ) → (a == b) ≡ true → a ≡ b
same_number a b h = ground (arith, h)

eq_text_sound : (a b : Text) → eq_text a b ≡ true → a ≡ b
eq_text_sound [] [] h = refl
eq_text_sound [] (d ∷ b) h = absurd cc
eq_text_sound (c ∷ a) [] h = absurd cc
eq_text_sound (c ∷ a) (d ∷ b) h =
    let (x, y) = both (c == d) (eq_text a b) h in
    ap₂ (λ c a. c ∷ a) (same_number c d x) (eq_text_sound a b y)

eq_path_sound : (p q : List Text) → eq_path p q ≡ true → p ≡ q
eq_path_sound [] [] h = refl
eq_path_sound [] (n ∷ q) h = absurd cc
eq_path_sound (m ∷ p) [] h = absurd cc
eq_path_sound (m ∷ p) (n ∷ q) h =
    let (x, y) = both (eq_text m n) (eq_path p q) h in
    ap₂ (λ n p. n ∷ p) (eq_text_sound m n x) (eq_path_sound p q y)

eq_path_refl : (p : List Text) → eq_path p p ≡ true
eq_path_refl [] = refl
eq_path_refl (n ∷ p) = rw (eq_text_refl n, eq_path_refl p) refl

apart_false : (p q : List Text) → p ≢ q → eq_path p q ≡ false
apart_false p q ne = elim (Bool-cases (eq_path p q)) [
  | inl e ↦ absurd (ne (eq_path_sound p q e))
  | inr e ↦ e
]

abbrev Files : Type 0
Files = List Text → Option (List ℕ)

abbrev assembled_files : List Text → List Text → Files → Files
assembled_files out file s p = if eq_path p out then s file else s p

-- An assembler that copies, and ends with `status`.
abbrev assemble : ℕ → List Text → List Text → Files → Option (Option ℕ × Files)
assemble status out file s = some (some status, assembled_files out file s)

copied_to :
    (out file : List Text) (s t : Files)
    → assemble 0 out file s ≡ some (some 0, t)
    → assembled_files out file s ≡ t
copied_to out file s t e = cc

not_copied : (out file : List Text) (s t : Files) → assemble 1 out file s ≢ some (some 0, t)
not_copied out file s t e = let wrong : ◌≡◌ {A = ℕ} 1 0 = cc in absurd (omega (arith, wrong))

same_files : (s t : Files) → some s ≡ some t → s ≡ t
same_files s t e = cc

abbrev copier : Host
copier = record {
  Files = Files;
  content = λ s p. s p;
  create_dir_all = λ d s. some s;
  nasm = assemble 0;
  assembled = λ c. c;
  creates_no_file = λ d p s t e. ap (λ f. f p) (sym (same_files s t e));
  writes = λ out file s t e.
      ap (λ f. f out) (sym (copied_to out file s t e)) ∙ rw (eq_path_refl out) refl;
  writes_only = λ out file p s t e ne.
      ap (λ f. f p) (sym (copied_to out file s t e)) ∙ rw (apart_false p out ne) refl;
}

-- One that reports an error.
abbrev rejecter : Host
rejecter = record {
  Files = Files;
  content = λ s p. s p;
  create_dir_all = λ d s. some s;
  nasm = assemble 1;
  assembled = λ c. c;
  creates_no_file = λ d p s t e. ap (λ f. f p) (sym (same_files s t e));
  writes = λ out file s t e. absurd (not_copied out file s t e);
  writes_only = λ out file p s t e ne. absurd (not_copied out file s t e);
}

abbrev kernel_folder : List Text
kernel_folder = codes "kernel" ∷ []

abbrev out_dir : List Text
out_dir = codes "target" ∷ codes "out" ∷ []

abbrev walk : List (Option DirEntry)
walk =
    some (record { path = below kernel_folder []; is_file = false })
    ∷ none
    ∷ some (record { path = below kernel_folder (codes "build.rs" ∷ []); is_file = true })
    ∷ some (record { path = below kernel_folder trampoline; is_file = true })
    ∷ []

abbrev disk : Files
disk p = if eq_path p (kernel_folder ++ trampoline) then some (1 ∷ 2 ∷ []) else none

inside : (r : List Text) → In r (trampoline ∷ []) → r ≢ []
inside r (inl e) d = let both_ways = sym e ∙ d in absurd cc
inside r (inr m) d = m

build_assembly_lem_example :
    (t : Files) × (build_assembly copier out_dir kernel_folder walk disk ≡ returns t)
    × Built copier out_dir kernel_folder (trampoline ∷ []) disk t
build_assembly_lem_example =
    build_assembly_lem copier out_dir kernel_folder walk (trampoline ∷ []) disk refl inside
      (λ m. m, tt) (λ d s. (s, refl))
      (λ r m out s. (assembled_files out (kernel_folder ++ r) s, refl))

build_assembly-panics_example : build_assembly rejecter out_dir kernel_folder walk disk ≡ panics
build_assembly-panics_example =
    build_assembly-panics rejecter out_dir kernel_folder walk (trampoline ∷ []) trampoline disk refl
      (inl refl) (λ out s t. not_copied out (kernel_folder ++ trampoline) s t)

-- What the kernel includes is what has been made of the start-up code.
included :
    (t : Files) × (build_assembly copier out_dir kernel_folder walk disk ≡ returns t)
    × (t (bootstrap_code out_dir) ≡ some (1 ∷ 2 ∷ []))
included =
    let (t, run, built) = build_assembly_lem_example in (t, run, built.made trampoline (inl refl))

abbrev environment : Text → Option Text
environment key = if eq_text key (codes "PROFILE") then some (codes "release") else none

whole : (key : Text) → has_newline (env_val environment key) ≡ false
whole key = elim (Bool-cases (eq_text key (codes "PROFILE"))) [
  | inl e ↦ rw (env_val, e) refl
  | inr e ↦ rw (env_val, e) refl
]

create_metadata_constants_lem_example :
    lines (create_metadata_constants environment constant_map)
    ≡ constants environment constant_map ++ (version_declaration ∷ [])
create_metadata_constants_lem_example =
    create_metadata_constants_lem environment constant_map (λ e m. m) whole
