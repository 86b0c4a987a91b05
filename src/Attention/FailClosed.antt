-- ===== src/Attention/FailClosed.antt =====
-- Veto enforcement from the configuration to the decision: src/attention/mod.rs, `new` and
-- `evaluate_with_embeddings` together.
use subspace_daemon.Base.{
  Bool, List, Option, Option-cases, String, [], all, any, arith, eq_iff, false, find?, find?-holds,
  get_or, inl, inr, is_empty, map, none, not, ok, option_map, refl, some, true, ◌&&◌, ◌==◌, ◌||◌,
  ◌∷◌, ◌≡◌,
}
use subspace_daemon.Attention.Float.{Float}
use subspace_daemon.Attention.Scoring.{cosine_similarity}
use subspace_daemon.Attention.Receptor.{
  ReceptorDefinition, ComputedReceptor, is_veto, load_receptor_packs,
}
use subspace_daemon.Attention.Layer.{AttentionConfig, Environment, AttentionLayer, new}
use subspace_daemon.Attention.Layer.Armed.{
  is_armed, computed_name, defined_name, new-IsArmed, new_complete,
}
use subspace_daemon.Attention.Evaluate.{
  MessageEmbedding, select_message_vector, evaluate_with_embeddings,
}
use subspace_daemon.Attention.Evaluate.Decision.{fires, accepts, deliver_iff}

module _ {F : Type 0} where
  -- The vector that is selected is of the layer's space.
  select_message_vector-space :
      (l : AttentionLayer F) (supplied : Option (List (MessageEmbedding F))) {v : List F}
      {space : String}
      → select_message_vector l supplied ≡ some (v, space)
      → l.space_id ≡ some space
  unfolding select_message_vector
  select_message_vector-space l supplied {v} {space} h = elim (Option-cases l.space_id) [
    | inl e ↦ absurd (ground arith)
    | inr (s, e) ↦ elim (Option-cases supplied) [
      | inl e' ↦ absurd (ground arith)
      | inr (es, e') ↦ elim (Option-cases (find? (λ m. m.space_id == s) es)) [
        | inl f ↦ absurd (ground arith)
        | inr (m, f) ↦ ground (arith, find?-holds (λ m. m.space_id == s) es f, eq_iff m.space_id s)
      ]
    ]
  ]

module _ (fl : Float) where
  open fl use {F, ge_f}

  -- The message's vector was compared with the veto receptor's, and stays below its threshold.
  unfoldable pub stays_below : List F → ComputedReceptor F → Bool
  stays_below v r =
      get_or (option_map (λ w. not (ge_f (cosine_similarity fl v w) r.threshold)) r.vector) false

  -- Every veto receptor was compared and stays below; with no vector there is no veto receptor.
  unfoldable pub is_cleared : List (ComputedReceptor F) → Option (List F × String) → Bool
  is_cleared rs none = not (any is_veto rs)
  is_cleared rs (some (v, space)) = all (λ r. not (is_veto r) || stays_below v r) rs

  armed-stays_below :
      (v : List F) (space : String) (r : ComputedReceptor F)
      → is_armed (some space) r ≡ true
      → (is_veto r && fires fl v space r) ≡ false
      → (not (is_veto r) || stays_below v r) ≡ true
  unfolding is_armed fires stays_below
  armed-stays_below v space r armed quiet = ground arith

  all-stays_below :
      (v : List F) (space : String) (rs : List (ComputedReceptor F))
      → all (is_armed (some space)) rs ≡ true
      → any (λ r. is_veto r && fires fl v space r) rs ≡ false
      → all (λ r. not (is_veto r) || stays_below v r) rs ≡ true
  all-stays_below v space [] armed quiet = refl
  all-stays_below v space (r ∷ rs) armed quiet =
      ground (arith, armed-stays_below v space r, all-stays_below v space rs)

  module _ (env : Environment F) (c : AttentionConfig) where
    -- A layer built from the configuration delivers a message only if every veto receptor of the
    -- layer was compared with the message and stays below its threshold, or there is no veto
    -- receptor and no vector.
    pub deliver-cleared :
        (supplied : Option (List (MessageEmbedding F)))
        → (evaluate_with_embeddings fl (new fl env c) supplied).deliver ≡ true
        → is_cleared (new fl env c).receptors (select_message_vector (new fl env c) supplied) ≡ true
    unfolding accepts is_cleared
    deliver-cleared supplied h =
        let l = new fl env c in
        let decision = deliver_iff fl l supplied in
        let armed = new-IsArmed fl env c in
        elim (Option-cases (select_message_vector l supplied)) [
          | inl e ↦ ground arith
          | inr ((v, space), e) ↦
              let same = select_message_vector-space l supplied e in
              ground (arith, armed, all-stays_below v space l.receptors)
        ]

    -- A layer with receptor packs that delivers anything has read all the packs, and its receptors
    -- are those that the packs define, in their order, with their classes.
    pub deliver_complete :
        (supplied : Option (List (MessageEmbedding F)))
        → is_empty c.local_pack_paths ≡ false
        → (evaluate_with_embeddings fl (new fl env c) supplied).deliver ≡ true
        → (ds : List (ReceptorDefinition F)) × (load_receptor_packs env.parse_pack
              (map env.look c.local_pack_paths)
            ≡ ok ds)
          × (map computed_name (new fl env c).receptors ≡ map defined_name ds)
    deliver_complete supplied some_paths h =
        let decision = deliver_iff fl (new fl env c) supplied in
        new_complete fl env c some_paths (ground arith)
