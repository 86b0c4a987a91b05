-- ===== src/Attention/Receptor.antt =====
-- src/attention/receptor.rs: receptor definitions, and the loading and validation of packs.
pub mod Reading
pub mod Loading
use subspace_daemon.Base.{
  Bool, List, Option, Result, String, [], any, err, false, get_or, if◌then◌else◌, is_empty_text,
  is_none, none, ok, option_map, some, trim, true, ◌++◌, ◌==◌, ◌>>=◌, ◌>>◌, ◌∷◌,
}

pub data ReceptorClass : Type 0 where
  broad intersection project wildcard veto : ReceptorClass

-- `ReceptorClass::as_str`
unfoldable pub as_str : ReceptorClass → String
as_str broad = "broad"
as_str intersection = "intersection"
as_str project = "project"
as_str wildcard = "wildcard"
as_str veto = "veto"

abbrev pub is_wildcard_class : ReceptorClass → Bool
is_wildcard_class wildcard = true
is_wildcard_class _ = false

abbrev pub is_veto_class : ReceptorClass → Bool
is_veto_class veto = true
is_veto_class _ = false

pub record ReceptorDefinition (F : Type 0) : Type 0 where
  pub receptor_id : String
  pub receptor_class : ReceptorClass
  pub query : String
  pub threshold : Option F
  pub space_id : Option String

pub record ComputedReceptor (F : Type 0) : Type 0 where
  pub receptor_id : String
  pub receptor_class : ReceptorClass
  pub threshold : F
  pub vector : Option (List F)
  pub space_id : Option String

-- The failures of loading; the texts name the receptor.
pub data LoadError : Type 0 where
  read_failed parse_failed read_dir_failed empty_receptor_id : LoadError
  duplicate_receptor_id requires_query requires_threshold empty_space_id : String → LoadError

-- A file as the file system shows it: whether its extension is `json`, and its text if it can be
-- read.
pub record PackFile : Type 0 where
  pub is_json : Bool
  pub content : Option String

-- What a configured path is, once `~` is expanded. A directory that cannot be read has no entries;
-- an entry that is no file is left out.
pub data PackPath : Type 0 where
  missing other : PackPath
  file : PackFile → PackPath
  dir : Option (List PackFile) → PackPath

-- `ComputedReceptor::is_wildcard` and `is_veto`
module _ {F : Type 0} where
  unfoldable pub is_wildcard : ComputedReceptor F → Bool
  is_wildcard r = is_wildcard_class r.receptor_class

  unfoldable pub is_veto : ComputedReceptor F → Bool
  is_veto r = is_veto_class r.receptor_class

  unfoldable pub validate_receptor_definition : ReceptorDefinition F → Result LoadError (Unit {0})
  validate_receptor_definition r =
      if is_empty_text (trim r.receptor_id)
      then err empty_receptor_id
      else if is_wildcard_class r.receptor_class
      then ok tt
      else if is_empty_text (trim r.query)
      then err (requires_query r.receptor_id)
      else if is_none r.threshold
      then err (requires_threshold r.receptor_id)
      else if get_or (option_map (λ s. is_empty_text (trim s)) r.space_id) false
      then err (empty_space_id r.receptor_id)
      else ok tt

  -- the loop of `load_receptor_packs` over what was read; `seen` is the set of the ids so far
  unfoldable pub validate_all :
      List String → List (ReceptorDefinition F) → Result LoadError (Unit {0})
  unfolding validate_receptor_definition
  validate_all seen [] = ok tt
  validate_all seen (r ∷ rs) =
      let rest = validate_all (r.receptor_id ∷ seen) rs in
      if any (λ s. s == r.receptor_id) seen
      then err (duplicate_receptor_id r.receptor_id)
      else do validate_receptor_definition r; rest

-- `parse` is `serde_json::from_str` at `ReceptorPack`, with the pack's receptors.
module _ {F : Type 0} (parse : String → Option (List (ReceptorDefinition F))) where
  unfoldable pub load_pack_file : PackFile → Result LoadError (List (ReceptorDefinition F))
  load_pack_file f = elim f.content [
    | none ↦ err read_failed
    | some text ↦ elim (parse text) [ none ↦ err parse_failed | some receptors ↦ ok receptors ]
  ]

  unfoldable pub load_files : List PackFile → Result LoadError (List (ReceptorDefinition F))
  unfolding load_pack_file
  load_files [] = ok []
  load_files (f ∷ fs) =
      let rest = load_files fs in
      if f.is_json then (do rs ← load_pack_file f; more ← rest; ok (rs ++ more)) else rest

  unfoldable pub load_path : PackPath → Result LoadError (List (ReceptorDefinition F))
  unfolding load_pack_file load_files
  load_path missing = ok []
  load_path other = ok []
  load_path (file f) = if f.is_json then load_pack_file f else ok []
  load_path (dir none) = err read_dir_failed
  load_path (dir (some fs)) = load_files fs

  unfoldable pub load_paths : List PackPath → Result LoadError (List (ReceptorDefinition F))
  unfolding load_path
  load_paths [] = ok []
  load_paths (p ∷ ps) = do rs ← load_path p; more ← load_paths ps; ok (rs ++ more)

  unfoldable pub load_receptor_packs :
      List PackPath → Result LoadError (List (ReceptorDefinition F))
  unfolding load_paths validate_all
  load_receptor_packs ps = do rs ← load_paths ps; validate_all [] rs; ok rs
