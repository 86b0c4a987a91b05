-- ===== src/Attention/Receptor/Reading.antt =====
-- Which files a load of receptor packs reads, and what it reads from them.
use mathlib.Core.List.{append_assoc, append-nil}
use subspace_daemon.Base.{
  >>=-eq-ok, Bool, Bool-cases, List, Option, Option-cases, String, [], all, and_then, ap, arith,
  err-ne-ok, false, filter, inl, inr, is_ok, none, ok, ok-inj, refl, some, sym, true, ◌++◌, ◌↔◌,
  ◌∙◌, ◌∷◌, ◌≡◌,
}
use subspace_daemon.Attention.Receptor.{
  ReceptorDefinition, PackPath, PackFile, missing, other, file, dir, load_pack_file, load_files,
  load_path, load_paths,
}

-- The path is no directory, or a directory that can be read.
abbrev pub is_readable : PackPath → Bool
is_readable missing = true
is_readable other = true
is_readable (file f) = true
is_readable (dir none) = false
is_readable (dir (some fs)) = true

-- the JSON files of a path, in their order
abbrev pub packs_of : PackPath → List PackFile
packs_of missing = []
packs_of other = []
packs_of (file f) = filter (λ f. f.is_json) (f ∷ [])
packs_of (dir none) = []
packs_of (dir (some fs)) = filter (λ f. f.is_json) fs

abbrev pub all_packs_of : List PackPath → List PackFile
all_packs_of [] = []
all_packs_of (p ∷ ps) = packs_of p ++ all_packs_of ps

module _ {F : Type 0} (parse : String → Option (List (ReceptorDefinition F))) where
  -- Each of the files has a text, which parses, and the definitions of all are `rs`, in order.
  abbrev pub AreRead : List PackFile → List (ReceptorDefinition F) → Type 0
  AreRead [] rs = rs ≡ []
  AreRead (f ∷ fs) rs =
      (here : List (ReceptorDefinition F)) × (more : List (ReceptorDefinition F)) × (and_then
          f.content parse
        ≡ some here)
      × AreRead fs more
      × (rs ≡ here ++ more)

  load_pack_file-ok :
      (f : PackFile) {rs : List (ReceptorDefinition F)}
      → and_then f.content parse ≡ some rs
      → load_pack_file parse f ≡ ok rs
  unfolding load_pack_file
  load_pack_file-ok f {rs} h = elim (Option-cases f.content) [
    | inl e ↦ absurd (ground (arith, h, e))
    | inr (text, e) ↦ rw (load_pack_file, e) (rw (rw e at h) refl)
  ]

  load_pack_file-fails :
      (f : PackFile) → and_then f.content parse ≡ none → is_ok (load_pack_file parse f) ≡ false
  unfolding load_pack_file
  load_pack_file-fails f h = elim (Option-cases f.content) [
    | inl e ↦ rw (load_pack_file, e) refl
    | inr (text, e) ↦ rw (load_pack_file, e) (rw (rw e at h) refl)
  ]

  load_pack_file_iff :
      (f : PackFile) (rs : List (ReceptorDefinition F))
      → (load_pack_file parse f ≡ ok rs) ↔ (and_then f.content parse ≡ some rs)
  load_pack_file_iff f rs = (
    λ h. elim (Option-cases (and_then f.content parse)) [
      | inl e ↦ absurd (ground (arith, load_pack_file-fails f e, ap is_ok h))
      | inr (here, e) ↦ e ∙ ap some (ok-inj (sym (load_pack_file-ok f e) ∙ h))
    ],
    λ e. load_pack_file-ok f e,
  )

  AreRead-append :
      (fs gs : List PackFile) (rs : List (ReceptorDefinition F))
      → AreRead (fs ++ gs) rs ↔ (
          (here : List (ReceptorDefinition F)) × (more : List (ReceptorDefinition F)) × AreRead fs
            here
          × AreRead gs more
          × (rs ≡ here ++ more))
  AreRead-append [] gs rs =
      (λ h. ([], rs, refl, h, refl), λ (here, more, e, h, same). rw (same, e) h)
  AreRead-append (f ∷ fs) gs rs = (
    λ (here, more, e, h, same).
        let (a, b, read, rest, split) = (AreRead-append fs gs more).0 h in
        (
          here ++ a,
          b,
          (here, a, e, read, refl),
          rest,
          same ∙ ap (λ xs. here ++ xs) split ∙ sym (append_assoc here a b),
        ),
    λ (a, b, (here, more, e, read, split), rest, same). (
      here,
      more ++ b,
      e,
      (AreRead-append fs gs (more ++ b)).1 (more, b, read, rest, refl),
      same ∙ ap (λ xs. xs ++ b) split ∙ append_assoc here more b,
    ),
  )

  load_files_iff :
      (fs : List PackFile) (rs : List (ReceptorDefinition F))
      → (load_files parse fs ≡ ok rs) ↔ AreRead (filter (λ f. f.is_json) fs) rs
  unfolding load_files
  load_files_iff [] rs = (λ h. sym (ok-inj h), λ h. rw h refl)
  load_files_iff (f ∷ fs) rs = elim (Bool-cases f.is_json) [
    | inr n ↦ rw n (load_files_iff fs rs)
    | inl y ↦ rw y (
      λ h.
          let (here, one, rest) = >>=-eq-ok (load_pack_file parse f) _ h in
          let (more, others, same) = >>=-eq-ok (load_files parse fs) _ rest in
          (
            here,
            more,
            (load_pack_file_iff f here).0 one,
            (load_files_iff fs more).0 others,
            sym (ok-inj same),
          ),
      λ (here, more, one, others, same).
          rw (load_pack_file-ok f one, (load_files_iff fs more).1 others, same) refl,
    )
  ]

  load_path-file :
      (f : PackFile) (rs : List (ReceptorDefinition F))
      → (load_path parse (file f) ≡ ok rs) ↔ AreRead (filter (λ f. f.is_json) (f ∷ [])) rs
  unfolding load_path
  load_path-file f rs = elim (Bool-cases f.is_json) [
    | inr n ↦ rw n (λ h. sym (ok-inj h), λ h. rw h refl)
    | inl y ↦ rw y (
      λ h. (rs, [], (load_pack_file_iff f rs).0 h, refl, sym (append-nil rs)),
      λ (here, more, one, none_left, same).
          rw (load_pack_file-ok f one, same, none_left, append-nil here) refl,
    )
  ]

  load_path_iff :
      (p : PackPath) (rs : List (ReceptorDefinition F))
      → (load_path parse p ≡ ok rs) ↔ ((is_readable p ≡ true) × AreRead (packs_of p) rs)
  unfolding load_path
  load_path_iff missing rs = (λ h. (refl, sym (ok-inj h)), λ h. rw h.1 refl)
  load_path_iff other rs = (λ h. (refl, sym (ok-inj h)), λ h. rw h.1 refl)
  load_path_iff (file f) rs =
      (λ h. (refl, (load_path-file f rs).0 h), λ h. (load_path-file f rs).1 h.1)
  load_path_iff (dir none) rs = (λ h. absurd (err-ne-ok h), λ h. absurd (ground (arith, h.0)))
  load_path_iff (dir (some fs)) rs =
      (λ h. (refl, (load_files_iff fs rs).0 h), λ h. (load_files_iff fs rs).1 h.1)

  pub load_paths_iff :
      (ps : List PackPath) (rs : List (ReceptorDefinition F))
      → (load_paths parse ps ≡ ok rs) ↔ ((all is_readable ps ≡ true) × AreRead (all_packs_of ps) rs)
  unfolding load_paths
  load_paths_iff [] rs = (λ h. (refl, sym (ok-inj h)), λ h. rw h.1 refl)
  load_paths_iff (p ∷ ps) rs = (
    λ h.
        let (here, one, rest) = >>=-eq-ok (load_path parse p) _ h in
        let (more, others, same) = >>=-eq-ok (load_paths parse ps) _ rest in
        let a = (load_path_iff p here).0 one in
        let b = (load_paths_iff ps more).0 others in
        (
          ground (arith, a.0, b.0),
          (AreRead-append (packs_of p) (all_packs_of ps) rs).1
              (here, more, a.1, b.1, sym (ok-inj same)),
        ),
    λ (readable, read).
        let (here, more, one, others, same) =
          (AreRead-append (packs_of p) (all_packs_of ps) rs).0 read in
        rw
          (
            (load_path_iff p here).1 (ground (arith, readable), one),
            (load_paths_iff ps more).1 (ground (arith, readable), others),
            same,
          )
          refl,
  )
