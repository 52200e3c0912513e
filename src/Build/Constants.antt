-- ===== src/Build/Constants.antt =====
-- create_metadata_constants of kernel/build.rs.
use oxidized.Common.{
  ℕ, ◌≡◌, refl, sym, ◌∙◌, ap, subst, ◌==◌, if◌then◌else◌, Bool, Bool-cases, false, ◌||◌, inl, inr,
  Option, Option-cases, none, some, List, [], ◌∷◌, ◌++◌, map, append_assoc,
}
use mathlib.Core.Option
use oxidized.Common.Predicates.{In}
use oxidized.Devices.{codes}
use oxidized.Build.{Text}

abbrev constant_prefix : Text
constant_prefix = codes "METADATA_"

-- The variables and what their constants are called. The map gives them in any order.
abbrev pub constant_map : List (Text × Text)
constant_map =
    (codes "CARGO_CFG_TARGET_ARCH", codes "BUILD_ARCH")
    ∷ (codes "TARGET", codes "BUILD_TARGET")
    ∷ (codes "PROFILE", codes "PROFILE")
    ∷ []

-- A variable that is not set is the empty text.
abbrev pub env_val : (Text → Option Text) → Text → Text
env_val env name = elim (env name) [ none ↦ [] | some val ↦ val ]

abbrev pub newline : ℕ
newline = 10

abbrev quote : ℕ
quote = 34

-- One constant, without the end of the line.
pub constant_line : Text → Text → Text
constant_line value os_value =
    codes "pub const "
    ++ (constant_prefix
        ++ (value ++ (codes ": &str = " ++ (quote ∷ (os_value ++ (quote ∷ codes ";"))))))

pub version_line : Text
version_line =
    codes "const "
    ++ (constant_prefix
        ++ (codes "VERSION: Option<&str> = option_env!("
            ++ (quote ∷ (codes "CARGO_PKG_VERSION" ++ (quote ∷ codes ");")))))

-- The loop puts a line behind the text so far.
abbrev pub add_constants : (Text → Option Text) → Text → List (Text × Text) → Text
add_constants env last [] = last
add_constants env last ((key, value) ∷ entries) =
    add_constants env (last ++ (constant_line value (env_val env key) ++ (newline ∷ []))) entries

-- The text of metadata_constants.rs, for the entries in the order that the map gives.
abbrev pub create_metadata_constants : (Text → Option Text) → List (Text × Text) → Text
create_metadata_constants env entries =
    add_constants env [] entries ++ (version_line ++ (newline ∷ []))

-- The lines of a text, each without its end.
abbrev attach : ℕ → List Text → List Text
attach c [] = (c ∷ []) ∷ []
attach c (l ∷ ls) = (c ∷ l) ∷ ls

abbrev pub lines : Text → List Text
lines [] = []
lines (c ∷ cs) = let rest = lines cs in if c == newline then [] ∷ rest else attach c rest

abbrev pub has_newline : Text → Bool
has_newline [] = false
has_newline (c ∷ cs) = (c == newline) || has_newline cs

has_newline-++ :
    (a b : Text) → has_newline a ≡ false → has_newline b ≡ false → has_newline (a ++ b) ≡ false
has_newline-++ [] b h k = k
has_newline-++ (c ∷ a) b h k = elim (Bool-cases (c == newline)) [
  | inl e ↦ absurd (let wrong = subst (λ x. (x || has_newline a) ≡ false) e h in cc)
  | inr e ↦ rw e (has_newline-++ a b (subst (λ x. (x || has_newline a) ≡ false) e h) k)
]

-- A line without an end in it comes off whole.
lines-line :
    (l rest : Text) → has_newline l ≡ false → lines (l ++ (newline ∷ rest)) ≡ l ∷ lines rest
lines-line [] rest h = refl
lines-line (c ∷ l) rest h = elim (Bool-cases (c == newline)) [
  | inl e ↦ absurd (let wrong = subst (λ x. (x || has_newline l) ≡ false) e h in cc)
  | inr e ↦ rw e (ap (attach c) (lines-line l rest (subst (λ x. (x || has_newline l) ≡ false) e h)))
]

constant_line-whole :
    (value os_value : Text)
    → has_newline value ≡ false
    → has_newline os_value ≡ false
    → has_newline (constant_line value os_value) ≡ false
unfolding constant_line
constant_line-whole value os_value h k =
    has_newline-++ value (codes ": &str = " ++ (quote ∷ (os_value ++ (quote ∷ codes ";")))) h
      (has_newline-++ os_value (quote ∷ codes ";") k refl)

-- What a line declares: the name behind the prefix, and the value of the variable in quotes.
abbrev pub declaration : (Text → Option Text) → Text × Text → Text
declaration env (key, name) =
    codes "pub const METADATA_"
    ++ (name ++ (codes ": &str = \"" ++ (Option.get_or (env key) [] ++ codes "\";")))

abbrev pub version_declaration : Text
version_declaration =
    codes "const METADATA_VERSION: Option<&str> = option_env!(\"CARGO_PKG_VERSION\");"

-- The entries, in the order in which they come, as lines.
abbrev pub constants : (Text → Option Text) → List (Text × Text) → List Text
constants env entries = map (declaration env) entries

constant_line-declares :
    (env : Text → Option Text) (e : Text × Text)
    → constant_line e.1 (env_val env e.0) ≡ declaration env e
unfolding constant_line
constant_line-declares env (key, name) = elim (Option-cases (env key)) [
  | inl q ↦ rw (env_val, q) refl
  | inr (v, q) ↦ rw (env_val, q) refl
]

module _ (env : Text → Option Text)
    (whole : (key : Text) → has_newline (env_val env key) ≡ false) where
  add_constants_lem :
      (last rest : Text) (entries : List (Text × Text)) (ls : List Text)
      → ((e : Text × Text) → In e entries → has_newline e.1 ≡ false)
      → ((after : Text) → lines (last ++ after) ≡ ls ++ lines after)
      → lines (add_constants env last entries ++ rest) ≡ ls ++ (constants env entries ++ lines rest)
  add_constants_lem last rest [] ls named before = before rest
  add_constants_lem last rest (e ∷ entries) ls named before =
      let l = constant_line e.1 (env_val env e.0) in
      let d = declaration env e in
      let free = constant_line-whole e.1 (env_val env e.0) (named e (inl refl)) (whole e.0) in
      let more : (after : Text)
          → lines ((last ++ (l ++ (newline ∷ []))) ++ after) ≡ (ls ++ (d ∷ [])) ++ lines after =
        λ after.
          ap lines (
            append_assoc last (l ++ (newline ∷ [])) after
            ∙ ap (λ x. last ++ x) (append_assoc l (newline ∷ []) after))
          ∙ before (l ++ (newline ∷ after))
          ∙ ap (λ x. ls ++ x) (lines-line l after free)
          ∙ ap (λ d. ls ++ (d ∷ lines after)) (constant_line-declares env e)
          ∙ sym (append_assoc ls (d ∷ []) (lines after)) in
      add_constants_lem (last ++ (l ++ (newline ∷ []))) rest entries (ls ++ (d ∷ []))
        (λ k m. named k (inr m)) more
      ∙ append_assoc ls (d ∷ []) (constants env entries ++ lines rest)

names-whole : (e : Text × Text) → In e constant_map → has_newline e.1 ≡ false
names-whole e (inl p) = subst (λ e. has_newline e.1 ≡ false) (sym p) refl
names-whole e (inr (inl p)) = subst (λ e. has_newline e.1 ≡ false) (sym p) refl
names-whole e (inr (inr (inl p))) = subst (λ e. has_newline e.1 ≡ false) (sym p) refl
names-whole e (inr (inr (inr p))) = absurd p

-- In whatever order the map gives its entries, if no variable's value has an end of line in it, then the
-- lines of the file are `pub const METADATA_<name>: &str = "<value>";` for each entry, in that order,
-- with the value of the variable or nothing where it is not set, and then the declaration of
-- METADATA_VERSION from CARGO_PKG_VERSION.
pub create_metadata_constants_lem :
    (env : Text → Option Text) (entries : List (Text × Text))
    → ((e : Text × Text) → In e entries → In e constant_map)
    → ((key : Text) → has_newline (env_val env key) ≡ false)
    → lines (create_metadata_constants env entries)
      ≡ constants env entries ++ (version_declaration ∷ [])
unfolding version_line
create_metadata_constants_lem env entries known whole =
    add_constants_lem env whole [] (version_line ++ (newline ∷ [])) entries []
      (λ e m. names-whole e (known e m)) (λ after. refl)
    ∙ ap (λ x. constants env entries ++ x) (lines-line version_line [] refl)
