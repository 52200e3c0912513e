-- ===== src/Build/Assembly/Failure.antt =====
-- A file that nasm does not accept stops the build.
use oxidized.Common.{
  ℕ, ◌≡◌, ◌≢◌, refl, ◌∙◌, ap, subst, ◌==◌, ne→==, Bool-cases, inl, inr, Option, Option-cases, none,
  some, List, [], ◌∷◌, ◌++◌, map, Outcome, returns, panics, ◌>>=◌, unwrap,
}
use oxidized.Common.Predicates.{In}
use oxidized.Build.{Text, DirEntry, parent, sources}
use oxidized.Build.Paths.{strip_prefix-++}
use oxidized.Build.Assembly.{
  Host, exit_code, create_parent, build_assembly_file, build_files, build_assembly,
}
use oxidized.Build.Assembly.Laws.{below, output}

-- A value or a panic, but not a loop.
data Settles {A : Type 0} : Outcome A → Type 0 where
  with_value : (a : A) → Settles (returns a)
  with_panic : Settles panics

>>=-Settles :
    {A B : Type 0} {o : Outcome A} {k : A → Outcome B}
    → Settles o
    → ((a : A) → Settles (k a))
    → Settles (o >>= k)
>>=-Settles (with_value a) h = h a
>>=-Settles with_panic h = with_panic

unwrap-Settles : {A : Type 0} (o : Option A) → Settles (unwrap o)
unwrap-Settles none = with_panic
unwrap-Settles (some a) = with_value a

settled_panics :
    {A B : Type 0} {o : Outcome A} {k : A → Outcome B}
    → Settles o
    → ((a : A) → k a ≡ panics)
    → (o >>= k) ≡ panics
settled_panics (with_value a) h = h a
settled_panics with_panic h = refl

module _ (H : Host) (out_dir base : List Text) where
  -- Nothing that nasm does with the file ends with 0.
  abbrev pub Rejects : List Text → Type 0
  Rejects r = (out : List Text) (s t : H.Files) → H.nasm out (base ++ r) s ≢ some (some 0, t)

  exit_code-Settles : (o : Option ℕ × H.Files) → Settles (exit_code H o)
  exit_code-Settles (none, t) = with_panic
  exit_code-Settles (some c, t) = elim (Bool-cases (c == 0)) [
    | inl e ↦ rw e (with_value t)
    | inr e ↦ rw e with_panic
  ]

  create_parent-Settles : (o : List Text) (s : H.Files) → Settles (create_parent H o s)
  create_parent-Settles o s = elim (Option-cases (parent o)) [
    | inl e ↦ rw (create_parent, e) (with_value s)
    | inr (d, e) ↦ rw (create_parent, e) (unwrap-Settles (H.create_dir_all d s))
  ]

  file-Settles :
      (r : List Text) (s : H.Files) → Settles (build_assembly_file H out_dir (below base r) base s)
  file-Settles r s = rw (strip_prefix-++ base r) (
      >>=-Settles (create_parent-Settles (output out_dir r) s) (λ s₁.
        >>=-Settles (unwrap-Settles (H.nasm (output out_dir r) (base ++ r) s₁)) (λ status.
          >>=-Settles (exit_code-Settles status) (λ s₂. with_value (output out_dir r, s₂)))))

  exit_code_lem :
      (o : Option ℕ × H.Files) → ((t : H.Files) → o ≢ (some 0, t)) → exit_code H o ≡ panics
  exit_code_lem (none, t) ne = refl
  exit_code_lem (some c, t) ne = rw (ne→== c 0 (λ e. ne t (ap (λ c. (some c, t)) e))) refl

  status_lem :
      {A : Type 0} (o : Option (Option ℕ × H.Files)) (k : H.Files → Outcome A)
      → ((t : H.Files) → o ≢ some (some 0, t))
      → (unwrap o >>= λ status. exit_code H status >>= k) ≡ panics
  status_lem none k ne = refl
  status_lem (some o) k ne = rw (exit_code_lem o (λ t e. ne t (ap some e))) refl

  rejected :
      (r : List Text) (s : H.Files)
      → Rejects r
      → build_assembly_file H out_dir (below base r) base s ≡ panics
  rejected r s bad = rw (strip_prefix-++ base r) (
      settled_panics (create_parent-Settles (output out_dir r) s) (λ s₁.
        status_lem (H.nasm (output out_dir r) (base ++ r) s₁) (λ s₂. returns (output out_dir r, s₂))
          (bad (output out_dir r) s₁)))

  build_files-panics :
      (rs : List (List Text)) (r : List Text) (s : H.Files)
      → In r rs
      → Rejects r
      → build_files H out_dir base (map (below base) rs) s ≡ panics
  build_files-panics [] r s m bad = absurd m
  build_files-panics (q ∷ rs) r s (inl e) bad = rw (rejected q s (subst Rejects e bad)) refl
  build_files-panics (q ∷ rs) r s (inr m) bad =
      settled_panics (file-Settles q s) (λ done. build_files-panics rs r done.1 m bad)

-- If nasm does not end with 0 on one of the assembler files, whether it cannot be run, is stopped by a
-- signal or reports an error, build_assembly panics, whatever becomes of the files before that one.
pub build_assembly-panics :
    (H : Host) (out_dir base : List Text) (walk : List (Option DirEntry)) (rs : List (List Text))
    (r : List Text) (s : H.Files)
    → sources walk ≡ map (below base) rs
    → In r rs
    → Rejects H out_dir base r
    → build_assembly H out_dir base walk s ≡ panics
build_assembly-panics H out_dir base walk rs r s found m bad =
    ap (λ fs. build_files H out_dir base fs s) found
    ∙ build_files-panics H out_dir base rs r s m bad
