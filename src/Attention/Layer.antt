-- ===== src/Attention/Layer.antt =====
-- src/attention/mod.rs, `AttentionLayer`: its state, its construction from the configuration and
-- the counts that the health report reads.
pub mod Armed
use text.Mathlib.Text.{find? as find_text?}
use subspace_daemon.Base.{
  Bool, List, Option, Result, String, [], and_then, any, eqb, err, false, filter, find?, get_or,
  if◌then◌else◌, is_empty, is_some, length, map, none, not, ok, option_map, some, trim, true, ℕ,
  ◌&&◌, ◌++◌, ◌==◌, ◌∷◌,
}
use subspace_daemon.Base.Json
use subspace_daemon.Base.Json.{Json}
use subspace_daemon.Attention.Float.{Float}
use subspace_daemon.Attention.Receptor.{
  ReceptorDefinition, ComputedReceptor, PackFile, PackPath, missing, other, file, dir, is_wildcard,
  is_veto, is_wildcard_class, is_veto_class, load_receptor_packs,
}
use subspace_daemon.Attention.Plugin.{EmbeddingBackendConfig, VectorResult, embed}

pub record AttentionConfig : Type 0 where
  pub local_pack_paths : List String
  pub embedding_backends : List EmbeddingBackendConfig

-- What the process sees of its machine: which executables exist, what an embedding executable
-- answers, what a path is, and what the JSON library reads in a text.
pub record Environment (F : Type 0) : Type 0 where
  pub exists : String → Bool
  pub invoke : EmbeddingBackendConfig → List (String × String) → Option (List (VectorResult F))
  pub look : String → PackPath
  pub parse_pack : String → Option (List (ReceptorDefinition F))
  pub parse_json : String → Option (Json F)

pub record AttentionLayer (F : Type 0) : Type 0 where
  pub receptors : List (ComputedReceptor F)
  pub plugin : Option EmbeddingBackendConfig
  pub space_id : Option String
  pub degraded : Bool
  pub veto_enforcement_unavailable : Bool

-- `threshold_missing` is the panic of `expect("validated receptor threshold")`.
pub data ComputeError : Type 0 where
  no_backend_for_space : String → String → ComputeError
  embed_failed no_vector threshold_missing : String → ComputeError

unfoldable pub first_enabled_backend : List EmbeddingBackendConfig → Option EmbeddingBackendConfig
first_enabled_backend = find? (λ b. b.enabled)

module _ {F : Type 0} where
  unfoldable pub passthrough : AttentionLayer F
  passthrough = record {
    receptors = [];
    plugin = none;
    space_id = none;
    degraded = false;
    veto_enforcement_unavailable = false;
  }

  -- `self.receptors.push(…)`
  abbrev pub push : ComputedReceptor F → AttentionLayer F → AttentionLayer F
  push r l = record l { receptors = l.receptors ++ r ∷ [] }

  abbrev pub has_veto : List (ReceptorDefinition F) → Bool
  has_veto = any (λ d. is_veto_class d.receptor_class)

module _ (fl : Float) (env : Environment fl.F) where
  open fl use {F, one_f}

  -- a receptor with no vector, as a wildcard or as any receptor where there is no backend
  abbrev pub unscored : ReceptorDefinition F → ComputedReceptor F
  unscored d = record {
    receptor_id = d.receptor_id;
    receptor_class = d.receptor_class;
    threshold = get_or d.threshold one_f;
    vector = none;
    space_id = none;
  }

  abbrev pub scored : ReceptorDefinition F → F → List F → String → ComputedReceptor F
  scored d t v space = record {
    receptor_id = d.receptor_id;
    receptor_class = d.receptor_class;
    threshold = t;
    vector = some v;
    space_id = some space;
  }

  unfoldable pub push_all : List (ReceptorDefinition F) → AttentionLayer F → AttentionLayer F
  push_all [] l = l
  push_all (d ∷ ds) l = push_all ds (push (unscored d) l)

  -- `Vec::pop`
  unfoldable pub last : List (List F) → Option (List F)
  last [] = none
  last (v ∷ []) = some v
  last (v ∷ w ∷ vs) = last (w ∷ vs)

  -- One round of the loop: the receptor that is computed, or the error that ends the loop.
  unfoldable pub compute_receptor :
      EmbeddingBackendConfig → ReceptorDefinition F → Result ComputeError (ComputedReceptor F)
  unfolding last
  compute_receptor plugin d =
      if is_wildcard_class d.receptor_class
      then ok (unscored d)
      else let space = get_or d.space_id plugin.default_space_id in
        if not (space == plugin.default_space_id)
        then err (no_backend_for_space d.receptor_id space)
        else elim (embed env.invoke plugin (trim d.query ∷ [])) [
          | err e ↦ err (embed_failed d.receptor_id)
          | ok vectors ↦ elim (last vectors) [
            | none ↦ err (no_vector d.receptor_id)
            | some v ↦ elim d.threshold [
              | none ↦ err (threshold_missing d.receptor_id)
              | some t ↦ ok (scored d t v space)
            ]
          ]
        ]

  -- What was pushed before an error stays.
  unfoldable pub compute_all :
      EmbeddingBackendConfig
      → List (ReceptorDefinition F)
      → AttentionLayer F
      → AttentionLayer F × Option ComputeError
  compute_all plugin [] l = (l, none)
  compute_all plugin (d ∷ ds) l = elim (compute_receptor plugin d) [
    | err e ↦ (l, some e)
    | ok r ↦ compute_all plugin ds (push r l)
  ]

  -- the layer that `&mut self` is left as, and the error if there is one
  unfoldable pub compute_receptors :
      List (ReceptorDefinition F) → AttentionLayer F → AttentionLayer F × Option ComputeError
  compute_receptors ds l = elim l.plugin [
    | none ↦
        let pushed = push_all ds l in
        (
          (if has_veto ds then record pushed { veto_enforcement_unavailable = true } else pushed),
          none,
        )
    | some plugin ↦ compute_all plugin ds l
  ]

  -- `file_contains_veto` of `paths_contain_veto_receptor`
  unfoldable pub file_contains_veto : PackFile → Bool
  file_contains_veto f = elim f.content [
    | none ↦ false
    | some text ↦ elim (env.parse_json text) [
      | some value ↦ elim (and_then (Json.get "receptors" value) Json.as_array) [
        | none ↦ false
        | some receptors ↦
            any
              (λ r.
                get_or (option_map (λ c. c == "veto") (and_then (Json.get "class" r) Json.as_str))
                  false)
              receptors
      ]
      | none ↦ is_some (find_text? text "\"class\"") && is_some (find_text? text "\"veto\"")
    ]
  ]

  unfoldable pub path_contains_veto : PackPath → Bool
  unfolding file_contains_veto
  path_contains_veto missing = false
  path_contains_veto other = false
  path_contains_veto (file f) = f.is_json && file_contains_veto f
  path_contains_veto (dir none) = false
  path_contains_veto (dir (some fs)) = any (λ f. f.is_json && file_contains_veto f) fs

  unfoldable pub paths_contain_veto_receptor : List String → Bool
  unfolding path_contains_veto
  paths_contain_veto_receptor paths = any (λ p. path_contains_veto (env.look p)) paths

  -- The first part of `AttentionLayer::new`: the backend.
  unfoldable pub configure_backend : AttentionConfig → AttentionLayer F
  unfolding passthrough first_enabled_backend
  configure_backend config = elim (first_enabled_backend config.embedding_backends) [
    | some backend ↦
        if env.exists backend.exec_path
        then record passthrough { plugin = some backend; space_id = some backend.default_space_id }
        else record passthrough { degraded = true }
    | none ↦ record passthrough { degraded = not (is_empty config.local_pack_paths) }
  ]

  -- The second part: the receptors.
  unfoldable pub load_receptors : AttentionConfig → AttentionLayer F → AttentionLayer F
  load_receptors config l =
      if is_empty config.local_pack_paths
      then l
      else elim (load_receptor_packs env.parse_pack (map env.look config.local_pack_paths)) [
        | ok definitions ↦
            let computed = compute_receptors definitions l in
            elim computed.1 [
              | none ↦ computed.0
              | some e ↦ record (computed.0) {
                degraded = true;
                veto_enforcement_unavailable =
                    if has_veto definitions
                    then true
                    else (computed.0).veto_enforcement_unavailable;
              }
            ]
        | err e ↦ record l {
          degraded = true;
          veto_enforcement_unavailable =
              if paths_contain_veto_receptor config.local_pack_paths
              then true
              else l.veto_enforcement_unavailable;
        }
      ]

  -- `AttentionLayer::new`
  unfoldable pub new : AttentionConfig → AttentionLayer F
  new config = load_receptors config (configure_backend config)

module _ {F : Type 0} where
  unfoldable pub receptor_count : AttentionLayer F → ℕ
  receptor_count l = length l.receptors

  unfoldable pub interest_receptor_count : AttentionLayer F → ℕ
  interest_receptor_count l = length (filter (λ r. not (is_veto r)) l.receptors)

  unfoldable pub veto_receptor_count : AttentionLayer F → ℕ
  veto_receptor_count l = length (filter is_veto l.receptors)

  unfoldable pub wildcard_receptor_count : AttentionLayer F → ℕ
  wildcard_receptor_count l = length (filter is_wildcard l.receptors)

  unfoldable pub delivery_mode : AttentionLayer F → String
  unfolding interest_receptor_count
  delivery_mode l =
      if l.veto_enforcement_unavailable
      then "veto_enforcement_unavailable"
      else if l.degraded
      then "evaluation_unavailable"
      else if is_empty l.receptors
      then "no_active_receptors"
      else if eqb (interest_receptor_count l) 0
      then "veto_only_no_positive_receptors"
      else "receptor_gated"

  -- `AttentionLayer::veto_enforcement_state`
  unfoldable pub veto_enforcement_state : AttentionLayer F → String
  veto_enforcement_state l =
      if l.veto_enforcement_unavailable
      then "unavailable"
      else if any is_veto l.receptors
      then "ready"
      else "not_configured"
