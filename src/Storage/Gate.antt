-- ===== src/Storage/Gate.antt =====
-- The gate of the sinks against the decision of the attention layer.
use subspace_daemon.Base.{
  List, Option, Option-cases, String, any, any-append, arith, inl, inr, is_empty, is_ok, not, true,
  ◌++◌, ◌||◌, ◌≡◌,
}
use subspace_daemon.Attention.Float.{Float}
use subspace_daemon.Attention.Layer.{AttentionLayer}
use subspace_daemon.Attention.Evaluate.{
  MessageEmbedding, is_above, select_message_vector, veto_scan, interest_matches, wildcard_matches,
  sort_matches, evaluate_without_vector, evaluate_with_vector, evaluate_with_embeddings,
}
use subspace_daemon.Attention.Evaluate.Matches.{
  is_accepted, any-sort_matches, interest_matches-accepted, wildcard_matches-accepted,
}
use subspace_daemon.Storage.Store.{ensure_receptor_accepted_for_sink_delivery}

module _ (fl : Float) where
  open fl use {F}

  gate-without_vector :
      (l : AttentionLayer F)
      → is_ok (ensure_receptor_accepted_for_sink_delivery (evaluate_without_vector fl l))
        ≡ (evaluate_without_vector fl l).deliver
  unfolding evaluate_without_vector ensure_receptor_accepted_for_sink_delivery
  gate-without_vector l = ground (
    arith,
    any-sort_matches fl is_accepted (wildcard_matches fl l.receptors),
    wildcard_matches-accepted fl l.receptors,
  )

  accepted-append :
      (v : List F) (space : String) (l : AttentionLayer F)
      → (any is_above (interest_matches fl v space l.receptors)
          || not (is_empty (wildcard_matches fl l.receptors)))
        ≡ true
      → any is_accepted (
          sort_matches fl (
            ((veto_scan fl v space l.receptors).0 ++ interest_matches fl v space l.receptors)
            ++ wildcard_matches fl l.receptors))
        ≡ true
  accepted-append v space l h =
      let scan = (veto_scan fl v space l.receptors).0 in
      let interest = interest_matches fl v space l.receptors in
      let wild = wildcard_matches fl l.receptors in
      ground (
        arith,
        any-sort_matches fl is_accepted ((scan ++ interest) ++ wild),
        any-append is_accepted (scan ++ interest) wild,
        any-append is_accepted scan interest,
        interest_matches-accepted fl v space l.receptors,
        wildcard_matches-accepted fl l.receptors,
      )

  gate-with_vector :
      (l : AttentionLayer F) (v : List F) (space : String)
      → is_ok (ensure_receptor_accepted_for_sink_delivery (evaluate_with_vector fl l v space))
        ≡ (evaluate_with_vector fl l v space).deliver
  unfolding evaluate_with_vector ensure_receptor_accepted_for_sink_delivery
  gate-with_vector l v space = ground (arith, accepted-append v space l)

  -- The sinks take exactly the messages that the attention layer delivers: the four guards before
  -- a sink delivery pass for a result of the evaluation if its `deliver` is true, and only then.
  pub gate-deliver :
      (l : AttentionLayer F) (supplied : Option (List (MessageEmbedding F)))
      → is_ok (ensure_receptor_accepted_for_sink_delivery (evaluate_with_embeddings fl l supplied))
        ≡ (evaluate_with_embeddings fl l supplied).deliver
  unfolding evaluate_with_embeddings ensure_receptor_accepted_for_sink_delivery
  gate-deliver l supplied = elim (Option-cases (select_message_vector l supplied)) [
    | inl e ↦ ground (arith, gate-without_vector l)
    | inr ((v, space), e) ↦ ground (arith, gate-with_vector l v space)
  ]
