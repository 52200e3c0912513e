-- ===== src/Build.antt =====
-- kernel/build.rs: the assembler files of the kernel's folder, each assembled beside its place under
-- OUT_DIR, and the file of constants that kernel/src/main.rs includes. Paths are lists of names; the walk
-- over the folder (walkdir), the folders and the assembler (nasm) are a parameter.
mod Tests
pub mod Paths
pub mod Assembly
pub mod Constants
use oxidized.Common.{
  ℕ, zero, suc, ◌≡◌, ◌==◌, if◌then◌else◌, Bool, true, false, ◌&&◌, ◌||◌, Option, none, some, List,
  [], ◌∷◌, ◌++◌, map, Outcome, returns, panics, ◌>>=◌, unwrap,
}
use oxidized.Devices.{codes}

abbrev pub Text : Type 0
Text = List ℕ

abbrev pub eq_text : Text → Text → Bool
eq_text [] [] = true
eq_text [] (d ∷ ds) = false
eq_text (c ∷ cs) [] = false
eq_text (c ∷ cs) (d ∷ ds) = (c == d) && eq_text cs ds

abbrev pub dot : ℕ
dot = 46

-- Before and after the last dot.
abbrev before_dot : ℕ → Text → Option (Text × Text) → Option (Text × Text)
before_dot c cs none = if c == dot then some ([], cs) else none
before_dot c cs (some (b, a)) = some (c ∷ b, a)

abbrev pub rsplit_dot : Text → Option (Text × Text)
rsplit_dot [] = none
rsplit_dot (c ∷ cs) = before_dot c cs (rsplit_dot cs)

-- `Path::extension` and `Path::file_stem` of a name: one that only begins with a dot has no extension.
abbrev pub extension_of : Option (Text × Text) → Option Text
extension_of none = none
extension_of (some ([], a)) = none
extension_of (some (c ∷ b, a)) = some a

abbrev pub stem_of : Text → Option (Text × Text) → Text
stem_of name none = name
stem_of name (some ([], a)) = name
stem_of name (some (c ∷ b, a)) = c ∷ b

abbrev pub with_extension : Text → Text → Text
with_extension name ext = stem_of name (rsplit_dot name) ++ (dot ∷ ext)

abbrev pub file_name : List Text → Option Text
file_name [] = none
file_name (n ∷ []) = some n
file_name (n ∷ m ∷ ns) = file_name (m ∷ ns)

abbrev pub parent : List Text → Option (List Text)
parent [] = none
parent (n ∷ []) = some []
parent (n ∷ m ∷ ns) = elim (parent (m ∷ ns)) [ none ↦ none | some p ↦ some (n ∷ p) ]

abbrev pub path_with_extension : List Text → Text → List Text
path_with_extension [] ext = []
path_with_extension (n ∷ []) ext = with_extension n ext ∷ []
path_with_extension (n ∷ m ∷ ns) ext = n ∷ path_with_extension (m ∷ ns) ext

abbrev pub strip_prefix : List Text → List Text → Option (List Text)
strip_prefix [] names = some names
strip_prefix (b ∷ base) [] = none
strip_prefix (b ∷ base) (n ∷ names) = if eq_text b n then strip_prefix base names else none

pub record FilePath : Type 0 where
  pub is_absolute : Bool
  pub names : List Text

-- What the walk meets.
pub record DirEntry : Type 0 where
  pub path : FilePath
  pub is_file : Bool

abbrev pub is_assembly : Option Text → Bool
is_assembly none = false
is_assembly (some ext) =
    eq_text ext (codes "nasm") || (eq_text ext (codes "s") || eq_text ext (codes "asm"))

abbrev pub extension : List Text → Option Text
extension names = elim (file_name names) [ none ↦ none | some n ↦ extension_of (rsplit_dot n) ]

-- The files of the walk that are assembled; an error of the walk is passed over.
abbrev pub sources : List (Option DirEntry) → List FilePath
sources [] = []
sources (none ∷ es) = sources es
sources (some e ∷ es) =
    let rest = sources es in
    if e.is_file && is_assembly (extension e.path.names) then e.path ∷ rest else rest
