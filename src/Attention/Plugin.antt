-- ===== src/Attention/Plugin.antt =====
-- src/attention/embedding_plugin.rs: the client of an embedding executable. Running the executable
-- and reading its answer (`invoke`) is a parameter; the choice of the vectors is modelled.
use subspace_daemon.Base.{
  Bool, List, Option, Result, String, [], append_text, decimal, err, find?, none, ok, some, ℕ, ◌+◌,
  ◌==◌, ◌>>=◌, ◌∷◌,
}

pub record EmbeddingBackendConfig : Type 0 where
  pub backend_id : String
  pub exec_path : String
  pub args : List String
  pub default_space_id : String
  pub enabled : Bool
  pub env : List (String × String)

pub record VectorResult (F : Type 0) : Type 0 where
  pub input_id : String
  pub vector : List F

pub data PluginError : Type 0 where
  invoke_failed : PluginError
  missing_vector : String → PluginError

-- The ids `input_0`, `input_1`, … beside the texts, from the number `i` on.
unfoldable pub inputs_from : ℕ → List String → List (String × String)
inputs_from i [] = []
inputs_from i (t ∷ ts) = (append_text "input_" (decimal i), t) ∷ inputs_from (i + 1) ts

module _ {F : Type 0} where
  -- The vectors in the order of the inputs, whatever the order of the answer.
  unfoldable pub reorder :
      List (VectorResult F) → List (String × String) → Result PluginError (List (List F))
  reorder vectors [] = ok []
  reorder vectors ((id, text) ∷ rest) = do
    v ← elim (find? (λ r. r.input_id == id) vectors) [
      | none ↦ err (missing_vector id)
      | some r ↦ ok r.vector
    ]
    more ← reorder vectors rest
    ok (v ∷ more)

  module _
      (invoke : EmbeddingBackendConfig
        → List (String × String)
        → Option (List (VectorResult F))) where
    -- `EmbeddingPluginClient::embed`
    unfoldable pub embed : EmbeddingBackendConfig → List String → Result PluginError (List (List F))
    unfolding inputs_from reorder
    embed config [] = ok []
    embed config (t ∷ ts) = elim (invoke config (inputs_from 0 (t ∷ ts))) [
      | none ↦ err invoke_failed
      | some vectors ↦ reorder vectors (inputs_from 0 (t ∷ ts))
    ]
