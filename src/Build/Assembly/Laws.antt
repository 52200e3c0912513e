-- ===== src/Build/Assembly/Laws.antt =====
-- What the build of the assembler files leaves under OUT_DIR.
use oxidized.Common.{
  ◌≡◌, ◌≢◌, refl, sym, ◌∙◌, ap, subst, if◌then◌else◌, Bool, Bool-cases, true, false, ◌&&◌, inl, inr,
  Option, Option-cases, none, some, List, [], ◌∷◌, ◌++◌, map, returns,
}
use oxidized.Common.Predicates.{In, Distinct}
use oxidized.Build.{
  Text, FilePath, DirEntry, parent, path_with_extension, sources, extension, is_assembly,
}
use oxidized.Build.Paths.{strip_prefix-++, bare, bin, bin-injective, extension-++, extension-bin}
use oxidized.Build.Assembly.{Host, create_parent, build_assembly_file, build_files, build_assembly}

-- The file at `r` below the folder.
abbrev pub below : List Text → List Text → FilePath
below base r = record { is_absolute = true; names = base ++ r }

abbrev pub output : List Text → List Text → List Text
output out_dir r = out_dir ++ path_with_extension r bin

-- An assembler file below the folder, by its path there.
abbrev IsSource : List Text → Type 0
IsSource r = (r ≢ []) × (is_assembly (extension r) ≡ true)

has_extension : (o : Option Text) → is_assembly o ≡ true → (e : Text) × (o ≡ some e)
has_extension none h = absurd cc
has_extension (some e) h = (e, refl)

extension-below : (base r : List Text) → r ≢ [] → extension (base ++ r) ≡ extension r
extension-below base [] ne = absurd (ne refl)
extension-below base (n ∷ r) ne = extension-++ base n r

moved-nonempty : (r : List Text) → r ≢ [] → path_with_extension r bin ≢ []
moved-nonempty [] ne = absurd (ne refl)
moved-nonempty (n ∷ []) ne = λ e. absurd cc
moved-nonempty (n ∷ m ∷ r) ne = λ e. absurd cc

-- No output is a source.
output-apart :
    (base out_dir r q : List Text) → IsSource r → IsSource q → base ++ q ≢ output out_dir r
output-apart base out_dir r q source other same =
    let (e, x) = has_extension (extension r) source.1 in
    let moved =
      extension-below out_dir (path_with_extension r bin) (moved-nonempty r source.0)
      ∙ extension-bin r e x in
    let here = sym (extension-below base q other.0) ∙ ap extension same ∙ moved in
    let wrong : is_assembly (some bin) ≡ true = subst (λ o. is_assembly o ≡ true) here other.1 in cc

In-map : {A B : Type 0} (f : A → B) (x : A) (xs : List A) → In x xs → In (f x) (map f xs)
In-map f x [] m = m
In-map f x (y ∷ xs) (inl e) = inl (ap f e)
In-map f x (y ∷ xs) (inr m) = inr (In-map f x xs m)

module _ (H : Host) (out_dir base : List Text) where
  -- Folders can be made, and nasm accepts the file.
  abbrev pub MakesFolders : Type 0
  MakesFolders = (d : List Text) (s : H.Files) → (t : H.Files) × (H.create_dir_all d s ≡ some t)

  abbrev pub Accepts : List Text → Type 0
  Accepts r =
      (out : List Text) (s : H.Files)
      → (t : H.Files) × (H.nasm out (base ++ r) s ≡ some (some 0, t))

  create_parent_lem :
      (o : List Text) (s : H.Files)
      → MakesFolders
      → (t : H.Files) × (create_parent H o s ≡ returns t)
        × ((p : List Text) → H.content t p ≡ H.content s p)
  create_parent_lem o s makes = elim (Option-cases (parent o)) [
    | inl e ↦ (s, rw (create_parent, e) refl, λ p. refl)
    | inr (d, e) ↦
        let (t, made) = makes d s in
        (t, rw (create_parent, e, made) refl, λ p. H.creates_no_file d p s t made)
  ]

  build_assembly_file_lem :
      (r : List Text) (s : H.Files)
      → MakesFolders
      → Accepts r
      → (t : H.Files) × (build_assembly_file H out_dir (below base r) base s
          ≡ returns (output out_dir r, t))
        × (H.content t (output out_dir r) ≡ H.assembled (H.content s (base ++ r)))
        × ((p : List Text) → p ≢ output out_dir r → H.content t p ≡ H.content s p)
  build_assembly_file_lem r s makes accepts =
      let (s₁, e₁, same) = create_parent_lem (output out_dir r) s makes in
      let (t, e₂) = accepts (output out_dir r) s₁ in
      (
        t,
        rw (strip_prefix-++ base r, e₁, e₂) refl,
        H.writes (output out_dir r) (base ++ r) s₁ t e₂ ∙ ap H.assembled (same (base ++ r)),
        λ p ne. H.writes_only (output out_dir r) (base ++ r) p s₁ t e₂ ne ∙ same p,
      )

  -- What holds after the files of `rs`, in their order.
  pub record Built (rs : List (List Text)) (s t : H.Files) : Type 0 where
    pub made :
        (r : List Text)
        → In r rs
        → H.content t (output out_dir r) ≡ H.assembled (H.content s (base ++ r))
    pub kept :
        (p : List Text)
        → ((r : List Text) → In r rs → p ≢ output out_dir r)
        → H.content t p ≡ H.content s p

  build_files_lem :
      (rs : List (List Text)) (s : H.Files)
      → MakesFolders
      → ((r : List Text) → In r rs → IsSource r × Accepts r)
      → Distinct (map bare rs)
      → (t : H.Files) × (build_files H out_dir base (map (below base) rs) s ≡ returns t)
        × Built rs s t
  build_files_lem [] s makes ready apart =
      (s, refl, record { made = λ r m. absurd m; kept = λ p ne. refl })
  build_files_lem (r ∷ rs) s makes ready apart =
      let (t, run, made, kept) = build_assembly_file_lem r s makes (ready r (inl refl)).1 in
      let (u, rest, built) = build_files_lem rs t makes (λ q m. ready q (inr m)) apart.1 in
      let differs : (q : List Text) → In q rs → output out_dir r ≢ output out_dir q = λ q m e.
        apart.0 (
          subst (λ k. In k (map bare rs)) (sym (bin-injective out_dir r q e))
            (In-map bare q rs m)) in
      (
        u,
        rw (run, rest) refl,
        record {
          made = λ q m. elim m [
            | inl e ↦
                subst (λ k. H.content u (output out_dir k) ≡ H.assembled (H.content s (base ++ k)))
                  (sym e) (built.kept (output out_dir r) differs ∙ made)
            | inr m ↦
                built.made q m
                ∙ ap H.assembled (
                    kept (base ++ q)
                      (output-apart base out_dir r q (ready r (inl refl)).0 (ready q (inr m)).0))
          ];
          kept = λ p ne. built.kept p (λ q m. ne q (inr m)) ∙ kept p (ne r (inl refl));
        },
      )

-- What is assembled has one of the three extensions.
sources-assembly :
    (walk : List (Option DirEntry)) (f : FilePath)
    → In f (sources walk)
    → is_assembly (extension f.names) ≡ true
sources-assembly [] f m = absurd m
sources-assembly (none ∷ es) f m = sources-assembly es f m
sources-assembly (some e ∷ es) f m =
    elim (Bool-cases (e.is_file && is_assembly (extension e.path.names))) [
      | inl hit ↦ elim (subst (λ b. In f (if b then e.path ∷ sources es else sources es)) hit m) [
        | inl same ↦
            subst (λ q. is_assembly (extension q.names) ≡ true) (sym same) (second e.is_file _ hit)
        | inr m ↦ sources-assembly es f m
      ]
      | inr miss ↦
          sources-assembly es f
            (subst (λ b. In f (if b then e.path ∷ sources es else sources es)) miss m)
    ]
  where
    second : (a b : Bool) → (a && b) ≡ true → b ≡ true
    second true b h = h
    second false b h = absurd cc

-- The assembler files of the kernel's folder are those at `rs` below it; no two of them differ only in the
-- extension. Where folders can be made and nasm accepts each of these files, build_assembly returns, and
-- then each file has under OUT_DIR, at its own place and with the extension bin, what nasm makes of it; no
-- other file has changed.
pub build_assembly_lem :
    (H : Host) (out_dir base : List Text) (walk : List (Option DirEntry)) (rs : List (List Text))
    (s : H.Files)
    → sources walk ≡ map (below base) rs
    → ((r : List Text) → In r rs → r ≢ [])
    → Distinct (map bare rs)
    → MakesFolders H out_dir base
    → ((r : List Text) → In r rs → Accepts H out_dir base r)
    → (t : H.Files) × (build_assembly H out_dir base walk s ≡ returns t)
      × Built H out_dir base rs s t
build_assembly_lem H out_dir base walk rs s found inside apart makes accepts =
    let ready : (r : List Text) → In r rs → IsSource r × Accepts H out_dir base r = λ r m.
      (let f = subst (λ fs. In (below base r) fs) (sym found) (In-map (below base) r rs m) in
        let named =
          subst (λ o. is_assembly o ≡ true) (extension-below base r (inside r m))
            (sources-assembly walk (below base r) f) in
        ((inside r m, named), accepts r m)) in
    let (t, run, built) = build_files_lem H out_dir base rs s makes ready apart in
    (t, ap (λ fs. build_files H out_dir base fs s) found ∙ run, built)
