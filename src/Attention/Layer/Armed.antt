-- ===== src/Attention/Layer/Armed.antt =====
-- What `AttentionLayer::new` guarantees of the receptors of the layer that it builds.
use mathlib.Core.List.{append-nil, append_assoc, map-append}
use subspace_daemon.Base.{
  Bool, List, Option, Option-cases, Result-cases, String, [], all, all-append, and_then, arith,
  false, get_or, inl, inr, is_empty, is_some, map, none, not, ok, option_map, refl, some, sym, true,
  ◌&&◌, ◌++◌, ◌==◌, ◌||◌, ◌∙◌, ◌∷◌, ◌≡◌,
}
use subspace_daemon.Attention.Float.{Float}
use subspace_daemon.Attention.Receptor.{
  ReceptorClass, ReceptorDefinition, ComputedReceptor, is_veto, is_veto_class, load_receptor_packs,
}
use subspace_daemon.Attention.Plugin.{EmbeddingBackendConfig}
use subspace_daemon.Attention.Layer.{
  AttentionConfig, Environment, AttentionLayer, push, has_veto, unscored, push_all,
  compute_receptor, compute_all, compute_receptors, configure_backend, load_receptors, new,
}

module _ {F : Type 0} where
  -- A veto receptor has a vector, and the vector is of the layer's space.
  unfoldable pub is_armed : Option String → ComputedReceptor F → Bool
  is_armed space r =
      not (is_veto r)
      || (is_some r.vector
          && get_or (and_then space (λ s. option_map (λ t. t == s) r.space_id)) false)

  abbrev pub computed_name : ComputedReceptor F → String × ReceptorClass
  computed_name r = (r.receptor_id, r.receptor_class)

  abbrev pub defined_name : ReceptorDefinition F → String × ReceptorClass
  defined_name d = (d.receptor_id, d.receptor_class)

  abbrev pub IsArmed : AttentionLayer F → Type 0
  IsArmed l = all (is_armed l.space_id) l.receptors ≡ true

push_name :
    {F : Type 0} (l : AttentionLayer F) (r : ComputedReceptor F) (d : ReceptorDefinition F)
    → computed_name r ≡ defined_name d
    → (names : List (String × ReceptorClass))
    → map computed_name (push r l).receptors ++ names
      ≡ map computed_name l.receptors ++ defined_name d ∷ names
push_name l r d e names = simp (map-append, append_assoc, e)

module _ (fl : Float) (env : Environment fl.F) where
  open fl use {F}

  compute_receptor-armed :
      (p : EmbeddingBackendConfig) (d : ReceptorDefinition F) {r : ComputedReceptor F}
      → compute_receptor fl env p d ≡ ok r
      → (is_armed (some p.default_space_id) r ≡ true) × (computed_name r ≡ defined_name d)
  unfolding compute_receptor is_armed is_veto
  compute_receptor-armed p d {r} h = (ground arith, ground arith)

  compute_all-IsArmed :
      (p : EmbeddingBackendConfig) (ds : List (ReceptorDefinition F)) (l : AttentionLayer F)
      → l.space_id ≡ some p.default_space_id
      → IsArmed l
      → ((compute_all fl env p ds l).0.space_id ≡ l.space_id)
        × IsArmed (compute_all fl env p ds l).0
  unfolding compute_all
  compute_all-IsArmed p [] l e h = (refl, h)
  compute_all-IsArmed p (d ∷ ds) l e h = elim (Result-cases (compute_receptor fl env p d)) [
    | inl (r, c) ↦
        let armed : IsArmed (push r l) = ground (
          arith,
          compute_receptor-armed p d c,
          all-append (is_armed l.space_id) l.receptors (r ∷ []),
        ) in
        rw (c, compute_all) (compute_all-IsArmed p ds (push r l) e armed)
    | inr (x, c) ↦ rw (c, compute_all) (refl, h)
  ]

  -- Without an error, every definition has its receptor, in order.
  compute_all_complete :
      (p : EmbeddingBackendConfig) (ds : List (ReceptorDefinition F)) (l : AttentionLayer F)
      → (compute_all fl env p ds l).1 ≡ none
      → map computed_name (compute_all fl env p ds l).0.receptors
        ≡ map computed_name l.receptors ++ map defined_name ds
  unfolding compute_all
  compute_all_complete p [] l h = sym (append-nil _)
  compute_all_complete p (d ∷ ds) l h = elim (Result-cases (compute_receptor fl env p d)) [
    | inl (r, c) ↦
        let rest : (compute_all fl env p ds (push r l)).1 ≡ none = ground arith in
        rw (c, compute_all)
          (compute_all_complete p ds (push r l) rest
            ∙ push_name l r d (compute_receptor-armed p d c).1 (map defined_name ds))
    | inr (x, c) ↦ absurd (ground arith)
  ]

  unscored-armed :
      (space : Option String) (d : ReceptorDefinition F)
      → is_veto_class d.receptor_class ≡ false
      → is_armed space (unscored fl env d) ≡ true
  unfolding is_armed is_veto
  unscored-armed space d e = ground arith

  push_all-IsArmed :
      (ds : List (ReceptorDefinition F)) (l : AttentionLayer F)
      → has_veto ds ≡ false
      → IsArmed l
      → ((push_all fl env ds l).space_id ≡ l.space_id) × IsArmed (push_all fl env ds l)
  unfolding push_all
  push_all-IsArmed [] l none_veto h = (refl, h)
  push_all-IsArmed (d ∷ ds) l none_veto h =
      let armed : IsArmed (push (unscored fl env d) l) = ground (
        arith,
        unscored-armed l.space_id d,
        all-append (is_armed l.space_id) l.receptors (unscored fl env d ∷ []),
      ) in
      push_all-IsArmed ds (push (unscored fl env d) l) (ground arith) armed

  -- The layer that the backend part builds: no receptor, and the space of its plugin.
  abbrev IsFresh : AttentionLayer F → Type 0
  IsFresh l =
      (l.receptors ≡ [])
      × ((p : EmbeddingBackendConfig) → l.plugin ≡ some p → l.space_id ≡ some p.default_space_id)

  configure_backend-IsFresh : (c : AttentionConfig) → IsFresh (configure_backend fl env c)
  unfolding configure_backend
  configure_backend-IsFresh c = (ground arith, λ p e. ground arith)

  compute_receptors-IsArmed :
      (ds : List (ReceptorDefinition F)) (l : AttentionLayer F)
      → IsFresh l
      → (compute_receptors fl env ds l).0.veto_enforcement_unavailable ≡ false
      → IsArmed (compute_receptors fl env ds l).0
  unfolding compute_receptors
  compute_receptors-IsArmed ds l fresh h = elim (Option-cases l.plugin) [
    | inl e ↦
        let empty : IsArmed l = ground (arith, fresh.0) in ground (arith, push_all-IsArmed ds l)
    | inr (p, e) ↦
        rw (e, compute_receptors) (compute_all-IsArmed p ds l (fresh.1 p e) (ground arith)).1
  ]

  -- Unless veto enforcement is given up, each veto receptor of a new layer has a vector of the
  -- layer's space.
  pub new-IsArmed :
      (c : AttentionConfig)
      → (new fl env c).veto_enforcement_unavailable ≡ false
      → IsArmed (new fl env c)
  unfolding new load_receptors
  new-IsArmed c h =
      let l = configure_backend fl env c in
      let fresh = configure_backend-IsFresh c in
      let empty : IsArmed l = ground (arith, fresh.0) in
      elim (Result-cases (load_receptor_packs env.parse_pack (map env.look c.local_pack_paths))) [
        | inl (ds, e) ↦ ground (arith, compute_receptors-IsArmed ds l fresh)
        | inr (x, e) ↦ ground arith
      ]

  configure_backend-plugin :
      (c : AttentionConfig)
      → is_empty c.local_pack_paths ≡ false
      → (configure_backend fl env c).plugin ≡ none
      → (configure_backend fl env c).degraded ≡ true
  unfolding configure_backend
  configure_backend-plugin c some_paths e = ground arith

  degraded-push_all :
      (ds : List (ReceptorDefinition F)) (l : AttentionLayer F)
      → (push_all fl env ds l).degraded ≡ l.degraded
  unfolding push_all
  degraded-push_all [] l = refl
  degraded-push_all (d ∷ ds) l = degraded-push_all ds (push (unscored fl env d) l)

  -- A new layer with receptor packs that is not degraded has read them all, and has one receptor
  -- for each definition.
  pub new_complete :
      (c : AttentionConfig)
      → is_empty c.local_pack_paths ≡ false
      → (new fl env c).degraded ≡ false
      → (ds : List (ReceptorDefinition F)) × (load_receptor_packs env.parse_pack
            (map env.look c.local_pack_paths)
          ≡ ok ds)
        × (map computed_name (new fl env c).receptors ≡ map defined_name ds)
  unfolding new load_receptors compute_receptors
  new_complete c some_paths h =
      let l = configure_backend fl env c in
      let empty = (configure_backend-IsFresh c).0 in
      elim (Result-cases (load_receptor_packs env.parse_pack (map env.look c.local_pack_paths))) [
        | inr (x, e) ↦ absurd (ground arith)
        | inl (ds, e) ↦ elim (Option-cases l.plugin) [
          | inl none_left ↦ absurd (
              ground
                (arith, configure_backend-plugin c some_paths none_left, degraded-push_all ds l))
          | inr (p, plug) ↦ (ds, e, ground (arith, compute_all_complete p ds l))
        ]
      ]
