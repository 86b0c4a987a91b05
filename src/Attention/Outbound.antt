-- ===== src/Attention/Outbound.antt =====
-- src/attention/mod.rs: the embeddings of an outbound message, supplied and generated.
use subspace_daemon.Base.{
  Bool, List, Option, Result, String, [], all, any, arith, err, false, filter, if◌then◌else◌,
  insert, is_empty_text, lookup, lookup-insert, map, none, not, ok, or_else, refl, some, trim, true,
  values, ◌&&◌, ◌==◌, ◌||◌, ◌↔◌, ◌∷◌, ◌≡◌,
}
use subspace_daemon.Attention.Float.{Float}
use subspace_daemon.Attention.Plugin.{EmbeddingBackendConfig, embed}
use subspace_daemon.Attention.Layer.{AttentionConfig, Environment}
use subspace_daemon.Attention.Evaluate.{MessageEmbedding}

pub record OutboundEmbeddingRequest (F : Type 0) : Type 0 where
  pub embeddings : List (MessageEmbedding F)
  pub generate_for_spaces : List String
  pub generated_embeddings_override_supplied : Bool

pub data SpaceError : Type 0 where
  empty_space : SpaceError
  unsupported_space : String → SpaceError

abbrev pub small_space_id : String
small_space_id = "openai:text-embedding-3-small:1536:v1"

abbrev pub large_space_id : String
large_space_id = "openai:text-embedding-3-large:3072:v1"

unfoldable pub is_supported_generated_space : String → Bool
is_supported_generated_space s = s == small_space_id || s == large_space_id

unfoldable pub validate_generated_spaces : List String → Result SpaceError (Unit {0})
validate_generated_spaces [] = ok tt
validate_generated_spaces (raw ∷ rest) =
    let later = validate_generated_spaces rest in
    let space = trim raw in
    if is_empty_text space
    then err empty_space
    else if is_supported_generated_space space
    then later
    else err (unsupported_space space)

supported-not_empty : (s : String) → is_supported_generated_space s ≡ true → is_empty_text s ≡ false
unfolding is_supported_generated_space
supported-not_empty String.[] h = cc
supported-not_empty (String.◌∷◌ c s) h = refl

-- The accepted requests are those whose spaces are all supported, once trimmed.
pub validate_generated_spaces_iff :
    (spaces : List String)
    → (validate_generated_spaces spaces ≡ ok tt)
      ↔ (all (λ s. is_supported_generated_space (trim s)) spaces ≡ true)
unfolding validate_generated_spaces
validate_generated_spaces_iff [] = (λ _. refl, λ _. refl)
validate_generated_spaces_iff (raw ∷ rest) = (
  λ h. ground (arith, validate_generated_spaces_iff rest, supported-not_empty (trim raw)),
  λ h. ground (arith, validate_generated_spaces_iff rest, supported-not_empty (trim raw)),
)

-- A set of texts in their order, as `BTreeSet` holds it.
unfoldable pub to_set : List String → List (String × Unit {0})
to_set [] = []
to_set (s ∷ ss) = insert s tt (to_set ss)

module _ {F : Type 0} where
  -- the loop `for embedding in … { embeddings_by_space.insert(…) }`
  unfoldable pub insert_all :
      List (MessageEmbedding F)
      → List (String × MessageEmbedding F)
      → List (String × MessageEmbedding F)
  insert_all [] m = m
  insert_all (e ∷ es) m = insert_all es (insert e.space_id e m)

  unfoldable pub embeddings_by_space :
      List (MessageEmbedding F)
      → List (MessageEmbedding F)
      → Bool
      → List (String × MessageEmbedding F)
  unfolding insert_all
  embeddings_by_space supplied generated override =
      if override
      then insert_all generated (insert_all supplied [])
      else insert_all supplied (insert_all generated [])

  unfoldable pub merge_outbound_embeddings :
      List (MessageEmbedding F) → List (MessageEmbedding F) → Bool → List (MessageEmbedding F)
  unfolding embeddings_by_space
  merge_outbound_embeddings supplied generated override =
      values (embeddings_by_space supplied generated override)

  -- the last embedding of a space in a list
  unfoldable pub last_of : String → List (MessageEmbedding F) → Option (MessageEmbedding F)
  last_of space [] = none
  last_of space (e ∷ es) = or_else (last_of space es) (if e.space_id == space then some e else none)

  lookup-insert_all :
      (space : String) (es : List (MessageEmbedding F)) (m : List (String × MessageEmbedding F))
      → lookup space (insert_all es m) ≡ or_else (last_of space es) (lookup space m)
  unfolding insert_all last_of
  lookup-insert_all space [] m = refl
  lookup-insert_all space (e ∷ es) m = ground (
    arith,
    lookup-insert_all space es (insert e.space_id e m),
    lookup-insert e.space_id space e m,
  )

  -- For each space the message carries the last embedding of the side that wins, and that of the
  -- other side where the winner has none: the generated side wins exactly if it overrides.
  pub embeddings_by_space-wins :
      (supplied generated : List (MessageEmbedding F)) (override : Bool) (space : String)
      → lookup space (embeddings_by_space supplied generated override) ≡ (
          if override
          then or_else (last_of space generated) (last_of space supplied)
          else or_else (last_of space supplied) (last_of space generated))
  unfolding embeddings_by_space lookup
  embeddings_by_space-wins supplied generated override space = ground (
    arith,
    lookup-insert_all space generated (insert_all supplied []),
    lookup-insert_all space supplied [],
    lookup-insert_all space supplied (insert_all generated []),
    lookup-insert_all space generated [],
  )

module _ (fl : Float) (env : Environment fl.F) where
  open fl use {F}

  -- the clients by space, of the enabled backends of a supported space whose executable exists
  unfoldable pub configured_generated_embedding_clients :
      AttentionConfig → List (String × EmbeddingBackendConfig)
  configured_generated_embedding_clients config = collect config.embedding_backends []
    where
      collect :
          List EmbeddingBackendConfig
          → List (String × EmbeddingBackendConfig)
          → List (String × EmbeddingBackendConfig)
      collect [] m = m
      collect (b ∷ bs) m = collect bs (
          if b.enabled && is_supported_generated_space b.default_space_id && env.exists b.exec_path
          then insert b.default_space_id b m
          else m)

  -- one round of the loop of `compose_outbound_embeddings`
  unfoldable pub generate_for :
      String
      → OutboundEmbeddingRequest F
      → List (String × EmbeddingBackendConfig)
      → String
      → Option (MessageEmbedding F)
  generate_for text request clients space =
      if not request.generated_embeddings_override_supplied
        && any (λ e. e.space_id == space) request.embeddings
      then none
      else elim (lookup space clients) [
        | none ↦ none
        | some client ↦ elim (embed env.invoke client (text ∷ [])) [
          | err e ↦ none
          | ok vectors ↦ elim vectors [
            | [] ↦ none
            | v ∷ vs ↦ some (record { space_id = space; vector = v })
          ]
        ]
      ]

  unfoldable pub generate_all :
      String
      → OutboundEmbeddingRequest F
      → List (String × EmbeddingBackendConfig)
      → List (String × Unit {0})
      → List (MessageEmbedding F)
  unfolding generate_for
  generate_all text request clients [] = []
  generate_all text request clients ((space, _) ∷ spaces) =
      let rest = generate_all text request clients spaces in
      elim (generate_for text request clients space) [ none ↦ rest | some e ↦ e ∷ rest ]

  unfoldable pub compose_outbound_embeddings :
      String
      → OutboundEmbeddingRequest F
      → List (String × EmbeddingBackendConfig)
      → List (MessageEmbedding F)
  unfolding to_set generate_all merge_outbound_embeddings
  compose_outbound_embeddings text request clients =
      merge_outbound_embeddings request.embeddings
        (generate_all text request clients (
          to_set
            (filter (λ s. not (is_empty_text s)) (map (λ s. trim s) request.generate_for_spaces))))
        request.generated_embeddings_override_supplied
