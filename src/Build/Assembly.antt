-- ===== src/Build/Assembly.antt =====
-- build_assembly of kernel/build.rs, over what it asks of the machine that builds.
use oxidized.Common.{
  ℕ, zero, suc, ◌≡◌, ◌≢◌, refl, sym, ◌∙◌, ap, subst, ◌==◌, if◌then◌else◌, Bool, true, false, Option,
  none, some, List, [], ◌∷◌, ◌++◌, Outcome, returns, panics, ◌>>=◌, unwrap,
}
use oxidized.Devices.{codes}
use oxidized.Build.{
  Text, FilePath, DirEntry, file_name, parent, path_with_extension, strip_prefix, sources,
}
pub mod Laws
pub mod Failure

-- The file system, and nasm. `nasm output file` says that it cannot be run, or gives the exit code, where
-- there is one. A call that ends with 0 has written what the assembler makes of the file, and no other
-- file; making folders changes no file.
pub record Host : Type 1 where
  pub Files : Type 0
  pub content : Files → List Text → Option (List ℕ)
  pub create_dir_all : List Text → Files → Option Files
  pub nasm : List Text → List Text → Files → Option (Option ℕ × Files)
  pub assembled : Option (List ℕ) → Option (List ℕ)
  pub creates_no_file :
      (d p : List Text) (s t : Files) → create_dir_all d s ≡ some t → content t p ≡ content s p
  pub writes :
      (out file : List Text) (s t : Files)
      → nasm out file s ≡ some (some 0, t)
      → content t out ≡ assembled (content s file)
  pub writes_only :
      (out file p : List Text) (s t : Files)
      → nasm out file s ≡ some (some 0, t)
      → p ≢ out
      → content t p ≡ content s p

module _ (H : Host) where
  -- The exit code must be there, and be 0.
  abbrev pub exit_code : Option ℕ × H.Files → Outcome H.Files
  exit_code (none, t) = panics
  exit_code (some c, t) = if c == 0 then returns t else panics

  abbrev pub create_parent : List Text → H.Files → Outcome H.Files
  create_parent output s = elim (parent output) [
    | none ↦ returns s
    | some p ↦ unwrap (H.create_dir_all p s)
  ]

  -- A path that is not absolute keeps its name only.
  abbrev pub output_file : List Text → FilePath → List Text → Outcome (List Text)
  output_file out_dir file relative =
      let moved = path_with_extension relative (codes "bin") in
      if file.is_absolute
      then returns (out_dir ++ moved)
      else (do name ← unwrap (file_name moved); returns (out_dir ++ (name ∷ [])))

  abbrev pub build_assembly_file :
      List Text → FilePath → List Text → H.Files → Outcome (List Text × H.Files)
  build_assembly_file out_dir file base_path s = do
    relative ← unwrap (strip_prefix base_path file.names)
    output ← output_file out_dir file relative
    s₁ ← create_parent output s
    status ← unwrap (H.nasm output file.names s₁)
    s₂ ← exit_code status
    returns (output, s₂)

  abbrev pub build_files : List Text → List Text → List FilePath → H.Files → Outcome H.Files
  build_files out_dir base_path [] s = returns s
  build_files out_dir base_path (f ∷ fs) s = do
    done ← build_assembly_file out_dir f base_path s
    build_files out_dir base_path fs done.1

  -- `walk` is what the walk over the folder gives.
  abbrev pub build_assembly :
      List Text → List Text → List (Option DirEntry) → H.Files → Outcome H.Files
  build_assembly out_dir base_path walk s = build_files out_dir base_path (sources walk) s

-- The start-up code's place in the folder, and the file that arch/arch_x86_64/cpu/mod.rs includes.
abbrev pub trampoline : List Text
trampoline =
    codes "src" ∷ codes "arch" ∷ codes "arch_x86_64" ∷ codes "cpu" ∷ codes "trampoline.nasm" ∷ []

abbrev pub bootstrap_code : List Text → List Text
bootstrap_code out_dir =
    out_dir
    ++ (codes "src"
        ∷ codes "arch"
        ∷ codes "arch_x86_64"
        ∷ codes "cpu"
        ∷ codes "trampoline.bin"
        ∷ [])
