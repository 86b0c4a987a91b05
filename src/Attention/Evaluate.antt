-- ===== src/Attention/Evaluate.antt =====
-- src/attention/mod.rs, `evaluate_with_embeddings`: the decision whether a message is delivered.
pub mod Decision
pub mod Matches
use subspace_daemon.Base.{
  Bool, List, Option, String, [], any, false, find?, get_or, if◌then◌else◌, is_empty, none, not,
  option_map, some, true, ◌++◌, ◌==◌, ◌||◌, ◌∷◌,
}
use subspace_daemon.Attention.Float.{Float}
use subspace_daemon.Attention.Scoring.{cosine_similarity}
use subspace_daemon.Attention.Receptor.{
  ReceptorClass, ComputedReceptor, is_wildcard, is_veto, as_str,
}
use subspace_daemon.Attention.Layer.{AttentionLayer}

pub record MessageEmbedding (F : Type 0) : Type 0 where
  pub space_id : String
  pub vector : List F

pub data AttentionDisposition : Type 0 where
  deliver filtered no_active_receptor vetoed : AttentionDisposition
  evaluation_unavailable veto_enforcement_unavailable : AttentionDisposition

pub record ReceptorMatch (F : Type 0) : Type 0 where
  pub receptor_id : String
  pub receptor_class : ReceptorClass
  pub score : F
  pub threshold : F
  pub above_threshold : Bool

pub record AttentionResult (F : Type 0) : Type 0 where
  pub deliver : Bool
  pub matches : List (ReceptorMatch F)
  pub space_id : Option String
  pub fallback : Bool
  pub disposition : AttentionDisposition
  pub veto_not_evaluated : Bool

module _ {F : Type 0} where
  -- The supplied embedding of the layer's own space; the text itself is never embedded here.
  unfoldable pub select_message_vector :
      AttentionLayer F → Option (List (MessageEmbedding F)) → Option (List F × String)
  select_message_vector l supplied = elim l.space_id [
    | none ↦ none
    | some space ↦ elim supplied [
      | none ↦ none
      | some embeddings ↦
          option_map (λ e. (e.vector, e.space_id)) (find? (λ e. e.space_id == space) embeddings)
    ]
  ]

  unfoldable pub has_interest : AttentionLayer F → Bool
  has_interest l = any (λ r. not (is_veto r)) l.receptors

  unfoldable pub has_veto_receptor : AttentionLayer F → Bool
  has_veto_receptor l = any is_veto l.receptors

abbrev pub is_above : {F : Type 0} → ReceptorMatch F → Bool
is_above m = m.above_threshold

module _ (fl : Float) where
  open fl use {F, one_f, ge_f, lt_f}

  -- `matches.sort_by(score_desc)`: stable, the highest score first
  unfoldable pub insert_match : ReceptorMatch F → List (ReceptorMatch F) → List (ReceptorMatch F)
  insert_match m [] = m ∷ []
  insert_match m (x ∷ xs) = if lt_f m.score x.score then x ∷ insert_match m xs else m ∷ x ∷ xs

  unfoldable pub sort_matches : List (ReceptorMatch F) → List (ReceptorMatch F)
  unfolding insert_match
  sort_matches [] = []
  sort_matches (m ∷ ms) = insert_match m (sort_matches ms)

  -- the match of one receptor; nothing if it has no vector or a vector of another space
  unfoldable pub score_receptor : List F → String → ComputedReceptor F → Option (ReceptorMatch F)
  score_receptor v space r = elim r.vector [
    | none ↦ none
    | some w ↦
        if get_or (option_map (λ s. s == space) r.space_id) false
        then (let score = cosine_similarity fl v w in
            some (record {
              receptor_id = r.receptor_id;
              receptor_class = r.receptor_class;
              score = score;
              threshold = r.threshold;
              above_threshold = ge_f score r.threshold;
            }))
        else none
  ]

  -- The loop over the veto receptors: the matches, and whether it stopped at a veto.
  unfoldable pub veto_scan :
      List F → String → List (ComputedReceptor F) → List (ReceptorMatch F) × Bool
  veto_scan v space [] = ([], false)
  veto_scan v space (r ∷ rs) =
      let rest = veto_scan v space rs in
      if not (is_veto r) then rest else elim (score_receptor v space r) [
        | none ↦ rest
        | some m ↦ if m.above_threshold then (m ∷ [], true) else (m ∷ rest.0, rest.1)
      ]

  -- The loop over the other receptors.
  unfoldable pub interest_matches :
      List F → String → List (ComputedReceptor F) → List (ReceptorMatch F)
  interest_matches v space [] = []
  interest_matches v space (r ∷ rs) =
      let rest = interest_matches v space rs in
      if is_veto r
      then rest
      else elim (score_receptor v space r) [ none ↦ rest | some m ↦ m ∷ rest ]

  abbrev pub wildcard_match : ComputedReceptor F → ReceptorMatch F
  wildcard_match r = record {
    receptor_id = r.receptor_id;
    receptor_class = r.receptor_class;
    score = one_f;
    threshold = r.threshold;
    above_threshold = true;
  }

  -- what the first wildcard receptor adds to the matches
  unfoldable pub wildcard_matches : List (ComputedReceptor F) → List (ReceptorMatch F)
  wildcard_matches rs = elim (find? is_wildcard rs) [ none ↦ [] | some r ↦ wildcard_match r ∷ [] ]

  -- The part after the guards, where no vector of the layer's space was supplied.
  unfoldable pub evaluate_without_vector : AttentionLayer F → AttentionResult F
  unfolding has_interest has_veto_receptor wildcard_matches sort_matches
  evaluate_without_vector l =
      if not (has_interest l)
      then record {
        deliver = false;
        matches = [];
        space_id = none;
        fallback = true;
        disposition = no_active_receptor;
        veto_not_evaluated = has_veto_receptor l;
      }
      else if has_veto_receptor l
      then record {
        deliver = false;
        matches = [];
        space_id = none;
        fallback = false;
        disposition = evaluation_unavailable;
        veto_not_evaluated = true;
      }
      else let wild = wildcard_matches l.receptors in
        record {
          deliver = not (is_empty wild);
          matches = sort_matches wild;
          space_id = none;
          fallback = false;
          disposition = if is_empty wild then filtered else deliver;
          veto_not_evaluated = false;
        }

  -- The part after the guards, with a message vector.
  unfoldable pub evaluate_with_vector : AttentionLayer F → List F → String → AttentionResult F
  unfolding has_interest veto_scan interest_matches wildcard_matches sort_matches
  evaluate_with_vector l v space =
      let scan = veto_scan v space l.receptors in
      if scan.1
      then record {
        deliver = false;
        matches = sort_matches scan.0;
        space_id = some space;
        fallback = false;
        disposition = vetoed;
        veto_not_evaluated = false;
      }
      else if not (has_interest l)
      then record {
        deliver = false;
        matches = sort_matches scan.0;
        space_id = some space;
        fallback = true;
        disposition = no_active_receptor;
        veto_not_evaluated = false;
      }
      else let interest = interest_matches v space l.receptors in
        let wild = wildcard_matches l.receptors in
        let above = any is_above interest || not (is_empty wild) in
        record {
          deliver = above;
          matches = sort_matches ((scan.0 ++ interest) ++ wild);
          space_id = some space;
          fallback = false;
          disposition = if above then deliver else filtered;
          veto_not_evaluated = false;
        }

  -- `AttentionLayer::evaluate_with_embeddings`
  unfoldable pub evaluate_with_embeddings :
      AttentionLayer F → Option (List (MessageEmbedding F)) → AttentionResult F
  evaluate_with_embeddings l supplied =
      if l.veto_enforcement_unavailable
      then record {
        deliver = false;
        matches = [];
        space_id = l.space_id;
        fallback = false;
        disposition = veto_enforcement_unavailable;
        veto_not_evaluated = false;
      }
      else if l.degraded
      then record {
        deliver = false;
        matches = [];
        space_id = l.space_id;
        fallback = false;
        disposition = evaluation_unavailable;
        veto_not_evaluated = false;
      }
      else if is_empty l.receptors
      then record {
        deliver = false;
        matches = [];
        space_id = none;
        fallback = true;
        disposition = no_active_receptor;
        veto_not_evaluated = false;
      }
      else elim (select_message_vector l supplied) [
        | none ↦ evaluate_without_vector l
        | some (v, space) ↦ evaluate_with_vector l v space
      ]

  -- `AttentionLayer::evaluate`
  unfoldable pub evaluate : AttentionLayer F → List (MessageEmbedding F) → AttentionResult F
  evaluate l embeddings = evaluate_with_embeddings l (some embeddings)
