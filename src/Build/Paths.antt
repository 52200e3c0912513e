-- ===== src/Build/Paths.antt =====
-- What is put under OUT_DIR, and where.
use oxidized.Common.{
  ◌≡◌, refl, sym, ◌∙◌, ap, ==_refl, true, Option, none, some, List, [], ◌∷◌, ◌++◌,
}
use oxidized.Devices.{codes}
use oxidized.Build.{
  Text, eq_text, dot, rsplit_dot, extension_of, stem_of, file_name, path_with_extension,
  strip_prefix, extension,
}

pub eq_text_refl : (t : Text) → eq_text t t ≡ true
eq_text_refl [] = refl
eq_text_refl (c ∷ t) = rw (==_refl c) (eq_text_refl t)

pub strip_prefix-++ : (base rel : List Text) → strip_prefix base (base ++ rel) ≡ some rel
strip_prefix-++ [] rel = refl
strip_prefix-++ (b ∷ base) rel = rw (eq_text_refl b) (strip_prefix-++ base rel)

-- The path without the extension of its last name.
abbrev pub bare : List Text → List Text
bare [] = []
bare (n ∷ []) = stem_of n (rsplit_dot n) ∷ []
bare (n ∷ m ∷ ns) = n ∷ bare (m ∷ ns)

abbrev pub bin : Text
bin = codes "bin"

rsplit_bin : (s : Text) → rsplit_dot (s ++ (dot ∷ bin)) ≡ some (s, bin)
rsplit_bin [] = refl
rsplit_bin (c ∷ s) = rw (rsplit_bin s) refl

-- The path of an output without its extension.
abbrev cut_name : Text → Option (Text × Text) → Text
cut_name n none = n
cut_name n (some (b, a)) = b

abbrev cut : List Text → List Text
cut [] = []
cut (n ∷ []) = cut_name n (rsplit_dot n) ∷ []
cut (n ∷ m ∷ ns) = n ∷ cut (m ∷ ns)

cut-bin : (p : List Text) → cut (path_with_extension p bin) ≡ bare p
cut-bin [] = refl
cut-bin (n ∷ []) = rw (rsplit_bin (stem_of n (rsplit_dot n))) refl
cut-bin (n ∷ m ∷ []) = ap (λ q. n ∷ q) (cut-bin (m ∷ []))
cut-bin (n ∷ m ∷ k ∷ ns) = ap (λ q. n ∷ q) (cut-bin (m ∷ k ∷ ns))

-- Paths that differ in more than the extension have different outputs.
pub bin-injective :
    (out p q : List Text)
    → out ++ path_with_extension p bin ≡ out ++ path_with_extension q bin
    → bare p ≡ bare q
bin-injective [] p q h = sym (cut-bin p) ∙ ap cut h ∙ cut-bin q
bin-injective (n ∷ out) p q h = bin-injective out p q (tail_eq h)
  where
    tail_eq : {a b : List Text} → n ∷ a ≡ n ∷ b → a ≡ b
    tail_eq e = cc

file_name-++ :
    (p : List Text) (n : Text) (ns : List Text) → file_name (p ++ (n ∷ ns)) ≡ file_name (n ∷ ns)
file_name-++ [] n ns = refl
file_name-++ (m ∷ []) n ns = refl
file_name-++ (m ∷ k ∷ p) n ns = file_name-++ (k ∷ p) n ns

-- The extension of a path is that of what stands in its folder.
pub extension-++ :
    (p : List Text) (n : Text) (ns : List Text) → extension (p ++ (n ∷ ns)) ≡ extension (n ∷ ns)
extension-++ p n ns = rw (extension, file_name-++ p n ns) refl

name_bin :
    (n : Text) (r : Option (Text × Text)) (e : Text)
    → extension_of r ≡ some e
    → extension_of (rsplit_dot (stem_of n r ++ (dot ∷ bin))) ≡ some bin
name_bin n none e h = absurd cc
name_bin n (some ([], a)) e h = absurd cc
name_bin n (some (c ∷ b, a)) e h = rw (rsplit_bin (c ∷ b)) refl

pub extension-bin :
    (p : List Text) (e : Text)
    → extension p ≡ some e
    → extension (path_with_extension p bin) ≡ some bin
extension-bin [] e h = absurd cc
extension-bin (n ∷ []) e h = name_bin n (rsplit_dot n) e h
extension-bin (n ∷ m ∷ []) e h = extension-bin (m ∷ []) e h
extension-bin (n ∷ m ∷ k ∷ ns) e h = extension-bin (m ∷ k ∷ ns) e h
