-- ===== src/Attention/Receptor/Loading.antt =====
-- What a successful load of receptor packs guarantees.
use subspace_daemon.Base.{
  >>=-eq-ok, All, Bool-cases, List, Option, Option-cases, String, [], all, any, arith, false, inl,
  inr, is_empty_text, is_some, ok, refl, some, trim, true, ◌==◌, ◌>>◌, ◌↔◌, ◌∷◌, ◌≡◌,
}
use subspace_daemon.Attention.Receptor.Reading.{is_readable, all_packs_of, AreRead, load_paths_iff}
use subspace_daemon.Attention.Receptor.{
  ReceptorDefinition, PackPath, validate_receptor_definition, validate_all, load_paths,
  load_receptor_packs, is_wildcard_class,
}

-- What a receptor must have: a name, and unless it is a wildcard a query and a threshold, and no
-- blank space.
pub record IsWellFormed {F : Type 0} (r : ReceptorDefinition F) : Type 0 where
  pub named : is_empty_text (trim r.receptor_id) ≡ false
  pub scored :
      is_wildcard_class r.receptor_class ≡ false
      → (is_empty_text (trim r.query) ≡ false) × (is_some r.threshold ≡ true)
  pub spaced :
      is_wildcard_class r.receptor_class ≡ false
      → (s : String) → r.space_id ≡ some s
      → is_empty_text (trim s) ≡ false

-- The ids of the list are distinct, and none is in `seen`.
abbrev pub FreshIds : {F : Type 0} → List String → List (ReceptorDefinition F) → Type 0
FreshIds seen [] = Unit
FreshIds seen (r ∷ rs) =
    (any (λ s. s == r.receptor_id) seen ≡ false) × FreshIds (r.receptor_id ∷ seen) rs

module _ {F : Type 0} where
  pub IsWellFormed-iff :
      (r : ReceptorDefinition F) → (validate_receptor_definition r ≡ ok tt) ↔ IsWellFormed r
  unfolding validate_receptor_definition
  IsWellFormed-iff r = (
    λ h. record {
      named = ground arith;
      scored = λ w. (ground arith, ground arith);
      spaced = λ w s e. ground arith;
    },
    λ v. elim (Bool-cases (is_wildcard_class r.receptor_class)) [
      | inl w ↦ ground arith
      | inr n ↦ elim (Option-cases r.space_id) [
        | inl e ↦ ground (arith, v.scored n)
        | inr (s, e) ↦ ground (arith, v.scored n, v.spaced n s e)
      ]
    ],
  )

  -- The loop accepts exactly the lists of distinct, well-formed receptors.
  validate_all_iff :
      (seen : List String) (rs : List (ReceptorDefinition F))
      → (validate_all seen rs ≡ ok tt) ↔ (FreshIds seen rs × All IsWellFormed rs)
  unfolding validate_all
  validate_all_iff seen [] = (λ _. (tt, tt), λ _. refl)
  validate_all_iff seen (r ∷ rs) =
      let ih = validate_all_iff (r.receptor_id ∷ seen) rs in
      let here = IsWellFormed-iff r in
      (
        λ h. elim (Bool-cases (any (λ s. s == r.receptor_id) seen)) [
          | inl dup ↦ absurd (ground arith)
          | inr fresh ↦
              let (u, one, rest) =
                >>=-eq-ok (validate_receptor_definition r)
                  (λ _. validate_all (r.receptor_id ∷ seen) rs) (ground arith) in
              ((fresh, (ih.0 rest).0), (here.0 one, (ih.0 rest).1))
        ],
        λ h. let one = here.1 h.1.0 in let rest = ih.1 (h.0.1, h.1.1) in ground arith,
      )

  loaded_iff :
      (parse : String → Option (List (ReceptorDefinition F))) (ps : List PackPath)
      (rs : List (ReceptorDefinition F))
      → (load_receptor_packs parse ps ≡ ok rs)
        ↔ ((load_paths parse ps ≡ ok rs) × FreshIds [] rs × All IsWellFormed rs)
  unfolding load_receptor_packs
  loaded_iff parse ps rs = (
    λ h.
        let (found, read, checked) =
          >>=-eq-ok (load_paths parse ps) (λ l. validate_all [] l >> ok l) h in
        let (u, valid, same) = >>=-eq-ok (validate_all [] found) (λ _. ok found) checked in
        let e : found ≡ rs = cc in
        let all_valid = (validate_all_iff [] found).0 valid in
        (rw (← e) read, rw (← e) all_valid.0, rw (← e) all_valid.1),
    λ h. rw h.0 (rw ((validate_all_iff [] rs).1 (h.1, h.2)) refl),
  )

module _ {F : Type 0} (parse : String → Option (List (ReceptorDefinition F))) where
  -- A load succeeds exactly if every directory can be read, every JSON file among the paths and in
  -- the directories has a text that parses, and the definitions of all of them have distinct ids
  -- and are well formed; it returns those definitions in the order of the files.
  pub load_receptor_packs_iff :
      (ps : List PackPath) (rs : List (ReceptorDefinition F))
      → (load_receptor_packs parse ps ≡ ok rs) ↔ (
          (all is_readable ps ≡ true)
          × AreRead parse (all_packs_of ps) rs
          × FreshIds [] rs
          × All IsWellFormed rs)
  load_receptor_packs_iff ps rs = (
    λ h.
        let (read, fresh, valid) = (loaded_iff parse ps rs).0 h in
        let (readable, definitions) = (load_paths_iff parse ps rs).0 read in
        (readable, definitions, fresh, valid),
    λ (readable, definitions, fresh, valid).
        (loaded_iff parse ps rs).1
          ((load_paths_iff parse ps rs).1 (readable, definitions), fresh, valid),
  )
