-- ===== src/Examples/Layers.antt =====
-- The attention layer on small vectors of natural numbers.
use Prim.Native.Nat.{◌/◌}
use subspace_daemon.Base.{
  All, List, Option, String, [], all, decimal, eqb, false, if◌then◌else◌, is_ok, leb, ltb, map,
  none, not, ok, refl, some, trim, true, ℕ, ◌&&◌, ◌*◌, ◌+◌, ◌==◌, ◌↔◌, ◌∷◌, ◌≡◌,
}
use subspace_daemon.Attention.Float.{Float}
use subspace_daemon.Attention.Scoring.{dot_from, cosine_similarity}
use subspace_daemon.Attention.Receptor.{
  broad, veto, ReceptorDefinition, PackPath, file, missing, load_receptor_packs, is_veto,
  is_wildcard,
}
use subspace_daemon.Attention.Receptor.Loading.{IsWellFormed, FreshIds, load_receptor_packs_iff}
use subspace_daemon.Attention.Receptor.Reading.{is_readable, AreRead, all_packs_of}
use subspace_daemon.Attention.Plugin.{EmbeddingBackendConfig, VectorResult, embed}
use subspace_daemon.Attention.Layer.{
  AttentionConfig, Environment, new, load_receptors, configure_backend, compute_receptors,
  compute_receptor, compute_all,
}
use subspace_daemon.Attention.Layer.Armed.{
  IsArmed, computed_name, defined_name, new-IsArmed, new_complete,
}
use subspace_daemon.Attention.Evaluate.{
  MessageEmbedding, ReceptorMatch, evaluate_with_embeddings, evaluate_with_vector,
  select_message_vector, score_receptor, sort_matches,
}
use subspace_daemon.Attention.Evaluate.Decision.{accepts, deliver_iff}
use subspace_daemon.Attention.FailClosed.{is_cleared, deliver-cleared, deliver_complete}
use subspace_daemon.Storage.Store.{ensure_receptor_accepted_for_sink_delivery}
use subspace_daemon.Storage.Gate.{gate-deliver}

abbrev pub small : Float
small = record {
  F = ℕ;
  zero_f = 0;
  one_f = 1;
  add = λ a b. a + b;
  mul = λ a b. a * b;
  div = λ a b. a / b;
  sqrt = λ a. a;
  eq_f = eqb;
  ge_f = λ a b. leb b a;
  lt_f = ltb;
}

abbrev backend : EmbeddingBackendConfig
backend = record {
  backend_id = "local";
  exec_path = "/bin/embed";
  args = [];
  default_space_id = "local";
  enabled = true;
  env = [];
}

abbrev answers : List (String × String) → List (VectorResult ℕ)
answers [] = []
answers ((id, text) ∷ rest) =
    record { input_id = id; vector = if text == "spam" then 0 ∷ 1 ∷ [] else 1 ∷ 0 ∷ [] }
    ∷ answers rest

abbrev definitions : List (ReceptorDefinition ℕ)
definitions =
    record {
      receptor_id = "food";
      receptor_class = broad;
      query = "food";
      threshold = some 1;
      space_id = none;
    }
    ∷ record {
      receptor_id = "no-spam";
      receptor_class = veto;
      query = "spam";
      threshold = some 1;
      space_id = none;
    }
    ∷ []

abbrev look : String → PackPath
look path =
    if path == "pack.json" then file (record { is_json = true; content = some "pack" }) else missing

abbrev pub machine : Environment ℕ
machine = record {
  exists = λ path. true;
  invoke = λ config inputs. some (answers inputs);
  look = look;
  parse_pack = λ text. some definitions;
  parse_json = λ text. none;
}

abbrev pub config : AttentionConfig
config = record { local_pack_paths = "pack.json" ∷ []; embedding_backends = backend ∷ [] }

abbrev message : List ℕ → Option (List (MessageEmbedding ℕ))
message v = some (record { space_id = "local"; vector = v } ∷ [])

delivered_here :
    (evaluate_with_embeddings small (new small machine config) (message (1 ∷ 0 ∷ []))).deliver
    ≡ true
unfolding evaluate_with_embeddings new load_receptors configure_backend compute_receptors
    load_receptor_packs compute_receptor compute_all embed select_message_vector
    evaluate_with_vector score_receptor cosine_similarity trim decimal is_veto is_wildcard dot_from
delivered_here = refl

vetoed_here :
    (evaluate_with_embeddings small (new small machine config) (message (1 ∷ 1 ∷ []))).deliver
    ≡ false
unfolding evaluate_with_embeddings new load_receptors configure_backend compute_receptors
    load_receptor_packs compute_receptor compute_all embed select_message_vector
    evaluate_with_vector score_receptor cosine_similarity trim decimal is_veto is_wildcard dot_from
vetoed_here = refl

armed_here : (new small machine config).veto_enforcement_unavailable ≡ false
unfolding evaluate_with_embeddings new load_receptors configure_backend compute_receptors
    load_receptor_packs compute_receptor compute_all embed select_message_vector
    evaluate_with_vector score_receptor cosine_similarity trim decimal is_veto is_wildcard dot_from
armed_here = refl

complete_here : (new small machine config).degraded ≡ false
unfolding evaluate_with_embeddings new load_receptors configure_backend compute_receptors
    load_receptor_packs compute_receptor compute_all embed select_message_vector
    evaluate_with_vector score_receptor cosine_similarity trim decimal is_veto is_wildcard dot_from
complete_here = refl

loaded_here :
    load_receptor_packs (λ text. some definitions) (map look ("pack.json" ∷ [])) ≡ ok definitions
unfolding load_receptor_packs trim
loaded_here = refl

deliver_iff_example :
    (evaluate_with_embeddings small (new small machine config) (message (1 ∷ 0 ∷ []))).deliver ≡ (
      not (new small machine config).veto_enforcement_unavailable
      && not (new small machine config).degraded
      && accepts small
          (new small machine config).receptors
          (select_message_vector (new small machine config) (message (1 ∷ 0 ∷ []))))
deliver_iff_example = deliver_iff small (new small machine config) (message (1 ∷ 0 ∷ []))

deliver-cleared_example :
    is_cleared small
      (new small machine config).receptors
      (select_message_vector (new small machine config) (message (1 ∷ 0 ∷ [])))
    ≡ true
deliver-cleared_example = deliver-cleared small machine config (message (1 ∷ 0 ∷ [])) delivered_here

deliver_complete_example :
    (ds : List (ReceptorDefinition ℕ)) × (load_receptor_packs
        (λ text. some definitions)
        (map look ("pack.json" ∷ []))
      ≡ ok ds)
    × (map computed_name (new small machine config).receptors ≡ map defined_name ds)
deliver_complete_example =
    deliver_complete small machine config (message (1 ∷ 0 ∷ [])) refl delivered_here

new-IsArmed_example : IsArmed (new small machine config)
new-IsArmed_example = new-IsArmed small machine config armed_here

new_complete_example :
    (ds : List (ReceptorDefinition ℕ)) × (load_receptor_packs
        (λ text. some definitions)
        (map look ("pack.json" ∷ []))
      ≡ ok ds)
    × (map computed_name (new small machine config).receptors ≡ map defined_name ds)
new_complete_example = new_complete small machine config refl complete_here

load_receptor_packs_iff_example :
    (load_receptor_packs (λ text. some definitions) (map look ("pack.json" ∷ [])) ≡ ok definitions)
    ↔ ((all is_readable (map look ("pack.json" ∷ [])) ≡ true)
        × AreRead
            (λ text. some definitions)
            (all_packs_of (map look ("pack.json" ∷ [])))
            definitions
        × FreshIds [] definitions
        × All IsWellFormed definitions)
load_receptor_packs_iff_example =
    load_receptor_packs_iff (λ text. some definitions) (map look ("pack.json" ∷ [])) definitions

gate-deliver_example :
    is_ok (
      ensure_receptor_accepted_for_sink_delivery
        (evaluate_with_embeddings small (new small machine config) (message (1 ∷ 0 ∷ []))))
    ≡ (evaluate_with_embeddings small (new small machine config) (message (1 ∷ 0 ∷ []))).deliver
gate-deliver_example = gate-deliver small (new small machine config) (message (1 ∷ 0 ∷ []))

abbrev match_of : String → ℕ → ReceptorMatch ℕ
match_of id score = record {
  receptor_id = id;
  receptor_class = broad;
  score = score;
  threshold = 1;
  above_threshold = true;
}

sort_matches_here :
    sort_matches small (match_of "a" 1 ∷ match_of "b" 5 ∷ match_of "c" 3 ∷ [])
    ≡ match_of "b" 5 ∷ match_of "c" 3 ∷ match_of "a" 1 ∷ []
unfolding sort_matches
sort_matches_here = refl
