-- ===== src/Attention/Evaluate/Decision.antt =====
-- The delivery decision of the attention layer against a description without loops or early exits.
use subspace_daemon.Base.{
  Bool, List, Option, Option-cases, String, [], any, arith, false, get_or, inl, inr, is_empty, none,
  not, option_map, refl, some, ◌&&◌, ◌==◌, ◌||◌, ◌∷◌, ◌≡◌,
}
use subspace_daemon.Attention.Float.{Float}
use subspace_daemon.Attention.Scoring.{cosine_similarity}
use subspace_daemon.Attention.Receptor.{ComputedReceptor, is_wildcard, is_veto}
use subspace_daemon.Attention.Layer.{AttentionLayer}
use subspace_daemon.Attention.Evaluate.{
  MessageEmbedding, ReceptorMatch, select_message_vector, has_interest, has_veto_receptor,
  score_receptor, veto_scan, interest_matches, wildcard_matches, is_above, evaluate_without_vector,
  evaluate_with_vector, evaluate_with_embeddings,
}

module _ (fl : Float) where
  open fl use {F, ge_f}

  -- The receptor has a vector of the space, and the message's vector reaches its threshold.
  unfoldable pub fires : List F → String → ComputedReceptor F → Bool
  fires v space r =
      get_or (option_map (λ s. s == space) r.space_id) false
      && get_or (option_map (λ w. ge_f (cosine_similarity fl v w) r.threshold) r.vector) false

  -- Whether a message with this vector is delivered, by the receptors alone.
  unfoldable pub accepts : List (ComputedReceptor F) → Option (List F × String) → Bool
  accepts rs none = not (any is_veto rs) && any is_wildcard rs
  accepts rs (some (v, space)) =
      not (any (λ r. is_veto r && fires v space r) rs)
      && any (λ r. not (is_veto r) && (is_wildcard r || fires v space r)) rs

  score_receptor-none :
      (v : List F) (space : String) (r : ComputedReceptor F)
      → score_receptor fl v space r ≡ none
      → fires v space r ≡ false
  unfolding score_receptor fires
  score_receptor-none v space r h = ground arith

  score_receptor-some :
      (v : List F) (space : String) (r : ComputedReceptor F) {m : ReceptorMatch F}
      → score_receptor fl v space r ≡ some m
      → fires v space r ≡ m.above_threshold
  unfolding score_receptor fires
  score_receptor-some v space r h = ground arith

  -- The loop over the veto receptors stops at a veto exactly if one of them fires.
  pub veto_scan-fires :
      (v : List F) (space : String) (rs : List (ComputedReceptor F))
      → (veto_scan fl v space rs).1 ≡ any (λ r. is_veto r && fires v space r) rs
  unfolding veto_scan
  veto_scan-fires v space [] = refl
  veto_scan-fires v space (r ∷ rs) = elim (Option-cases (score_receptor fl v space r)) [
    | inl e ↦ ground (arith, score_receptor-none v space r e, veto_scan-fires v space rs)
    | inr (m, e) ↦ ground (arith, score_receptor-some v space r e, veto_scan-fires v space rs)
  ]

  pub interest_matches-fires :
      (v : List F) (space : String) (rs : List (ComputedReceptor F))
      → any is_above (interest_matches fl v space rs)
        ≡ any (λ r. not (is_veto r) && fires v space r) rs
  unfolding interest_matches
  interest_matches-fires v space [] = refl
  interest_matches-fires v space (r ∷ rs) = elim (Option-cases (score_receptor fl v space r)) [
    | inl e ↦ ground (arith, score_receptor-none v space r e, interest_matches-fires v space rs)
    | inr (m, e) ↦
        ground (arith, score_receptor-some v space r e, interest_matches-fires v space rs)
  ]

  pub wildcard_matches-any :
      (rs : List (ComputedReceptor F))
      → is_empty (wildcard_matches fl rs) ≡ not (any is_wildcard rs)
  unfolding wildcard_matches
  wildcard_matches-any [] = refl
  wildcard_matches-any (r ∷ rs) = ground (arith, wildcard_matches-any rs)

  -- No receptor is a wildcard and a veto.
  wildcard-not-veto : (r : ComputedReceptor F) → (is_wildcard r && is_veto r) ≡ false
  unfolding is_wildcard is_veto
  wildcard-not-veto r = ground arith

  any-interest :
      (v : List F) (space : String) (rs : List (ComputedReceptor F))
      → any (λ r. not (is_veto r) && (is_wildcard r || fires v space r)) rs
        ≡ (any (λ r. not (is_veto r) && fires v space r) rs || any is_wildcard rs)
  any-interest v space [] = refl
  any-interest v space (r ∷ rs) = ground (arith, wildcard-not-veto r, any-interest v space rs)

  no_interest :
      (v : List F) (space : String) (rs : List (ComputedReceptor F))
      → any (λ r. not (is_veto r)) rs ≡ false
      → any (λ r. not (is_veto r) && (is_wildcard r || fires v space r)) rs ≡ false
  no_interest v space [] h = refl
  no_interest v space (r ∷ rs) h = ground (arith, no_interest v space rs)

  no_wildcard :
      (rs : List (ComputedReceptor F))
      → any (λ r. not (is_veto r)) rs ≡ false
      → any is_wildcard rs ≡ false
  no_wildcard [] h = refl
  no_wildcard (r ∷ rs) h = ground (arith, wildcard-not-veto r, no_wildcard rs)

  deliver-without_vector :
      (l : AttentionLayer F) → (evaluate_without_vector fl l).deliver ≡ accepts l.receptors none
  unfolding evaluate_without_vector accepts has_interest has_veto_receptor
  deliver-without_vector l =
      ground (arith, no_wildcard l.receptors, wildcard_matches-any l.receptors)

  deliver-with_vector :
      (l : AttentionLayer F) (v : List F) (space : String)
      → (evaluate_with_vector fl l v space).deliver ≡ accepts l.receptors (some (v, space))
  unfolding evaluate_with_vector accepts has_interest
  deliver-with_vector l v space = ground (
    arith,
    veto_scan-fires v space l.receptors,
    interest_matches-fires v space l.receptors,
    wildcard_matches-any l.receptors,
    any-interest v space l.receptors,
    no_interest v space l.receptors,
  )

  accepts-nil : (selected : Option (List F × String)) → accepts [] selected ≡ false
  unfolding accepts
  accepts-nil none = refl
  accepts-nil (some (v, space)) = refl

  -- A message is delivered exactly if the layer is neither degraded nor without its vetoes, and:
  -- with a supplied vector of the layer's space no veto receptor reaches its threshold and some
  -- other receptor does or is a wildcard; without one there is no veto receptor and there is a
  -- wildcard.
  pub deliver_iff :
      (l : AttentionLayer F) (supplied : Option (List (MessageEmbedding F)))
      → (evaluate_with_embeddings fl l supplied).deliver ≡ (
          not l.veto_enforcement_unavailable
          && not l.degraded
          && accepts l.receptors (select_message_vector l supplied))
  unfolding evaluate_with_embeddings
  deliver_iff l supplied = elim (Option-cases (select_message_vector l supplied)) [
    | inl e ↦ ground (arith, deliver-without_vector l, accepts-nil none)
    | inr ((v, space), e) ↦
        ground (arith, deliver-with_vector l v space, accepts-nil (some (v, space)))
  ]
