-- ===== src/Subspace/Identity.antt =====
-- src/subspace/identity.rs: the named identities and the session of a server, in their files. `K` is
-- the type of the signing keys; the Ed25519, base64 and path libraries are parameters, and so is
-- what `serde_json` reads of a file, which is taken to be what was written.
pub mod Laws
use subspace_daemon.Base.{
  Bool, List, Option, Result, String, append_text, bail_if, err, false, insert, is_empty_text,
  lookup, none, not, ok, some, trim, true, ℕ, ◌==◌, ◌>>=◌,
}

-- Texts of keys that cannot be read give the text of the error.
pub record Keys (K : Type 0) : Type 0 where
  pub verifying_key : K → String
  pub sign : K → String → String
  pub encode : K → String
  pub decode : String → Result String K
  pub encode_pkcs8 : K → String
  pub decode_pkcs8 : String → Result String K

pub record Paths : Type 0 where
  pub join_path : String → String → String
  pub file_stem : String → String

pub record IdentityFile : Type 0 where
  pub name : String
  pub created_at : String
  pub public_key : String
  pub private_key : String

pub record NamedIdentityRecord (K : Type 0) : Type 0 where
  pub name : String
  pub public_key : String
  pub signing_key : K

pub record SubspaceSessionRecord : Type 0 where
  pub identity : String
  pub agent_id : String
  pub session_token : Option String
  pub session_expires_at : Option String

pub record LegacySessionFile : Type 0 where
  pub version : ℕ
  pub public_key : String
  pub private_key : String
  pub owner : String
  pub name : String
  pub session_token : Option String
  pub session_expires_at : Option String

pub record LegacySubspaceSessionRecord (K : Type 0) : Type 0 where
  pub agent_id : String
  pub registration_name : String
  pub session_token : Option String
  pub session_expires_at : Option String
  pub signing_key : K

pub data LoadedSessionRecord (K : Type 0) : Type 0 where
  current : SubspaceSessionRecord → LoadedSessionRecord K
  legacy : LegacySubspaceSessionRecord K → LoadedSessionRecord K

-- What a file holds, and the files by their paths. A file of one kind is not read as another: each
-- kind has a member that the others do not have.
pub data Content : Type 0 where
  identity_file : IdentityFile → Content
  session_file : SubspaceSessionRecord → Content
  legacy_file : LegacySessionFile → Content
  unreadable : Content

abbrev pub Disk : Type 0
Disk = List (String × Content)

pub data IdentityError : Type 0 where
  empty_name : IdentityError
  name_mismatch : String → String → IdentityError
  agent_mismatch : String → String → IdentityError
  bad_key : String → IdentityError
  not_read not_written : IdentityError

abbrev pub as_identity : Content → Result IdentityError IdentityFile
as_identity (identity_file f) = ok f
as_identity _ = err not_read

-- `map_err`
abbrev pub key_of : {K : Type 0} → Result String K → Result IdentityError K
key_of (ok k) = ok k
key_of (err e) = err (bad_key e)

-- `write_json_atomic`, which may fail and then leaves the files as they are
abbrev pub write_file : Bool → String → Content → Disk → Disk × Result IdentityError (Unit {0})
write_file true path c disk = (insert path c disk, ok tt)
write_file false path c disk = (disk, err not_written)

unfoldable pub validate_name : String → Result IdentityError String
unfolding trim
validate_name raw = bail_if (is_empty_text (trim raw)) empty_name >>= λ _. ok (trim raw)

-- `SubspaceSessionRecord::new`
unfoldable pub new_session : String → String → SubspaceSessionRecord
new_session identity agent_id = record {
  identity = identity;
  agent_id = agent_id;
  session_token = none;
  session_expires_at = none;
}

unfoldable pub clear_session_token : SubspaceSessionRecord → SubspaceSessionRecord
clear_session_token s = record s { session_token = none; session_expires_at = none }

unfoldable pub update_session_token :
    String → Option String → SubspaceSessionRecord → SubspaceSessionRecord
update_session_token token expires_at s = record s {
  session_token = some token;
  session_expires_at = expires_at;
}

module _ {K : Type 0} where
  unfoldable pub clear_legacy_token : LegacySubspaceSessionRecord K → LegacySubspaceSessionRecord K
  clear_legacy_token s = record s { session_token = none; session_expires_at = none }

  unfoldable pub update_legacy_token :
      String → Option String → LegacySubspaceSessionRecord K → LegacySubspaceSessionRecord K
  update_legacy_token token expires_at s = record s {
    session_token = some token;
    session_expires_at = expires_at;
  }

  unfoldable pub ensure_matches_agent_id :
      NamedIdentityRecord K → String → Result IdentityError (Unit {0})
  ensure_matches_agent_id i agent_id =
      bail_if (not (i.public_key == agent_id)) (agent_mismatch i.name agent_id)

module _ {K : Type 0} (keys : Keys K) (paths : Paths) where
  -- `sign_canonical_payload`
  unfoldable pub sign_canonical_payload : NamedIdentityRecord K → String → String
  sign_canonical_payload i payload = keys.sign i.signing_key payload

  -- the part of `NamedIdentityRecord::load` after the file is parsed
  unfoldable pub read_identity :
      String → IdentityFile → Result IdentityError (NamedIdentityRecord K)
  read_identity path f =
      bail_if (not (f.name == paths.file_stem path)) (name_mismatch (paths.file_stem path) f.name)
      >>= λ _. key_of (keys.decode f.private_key) >>= λ key.
          ok (record { name = f.name; public_key = f.public_key; signing_key = key })

  unfoldable pub load : String → Disk → Result IdentityError (Option (NamedIdentityRecord K))
  unfolding read_identity
  load path disk = elim (lookup path disk) [
    | none ↦ ok none
    | some c ↦ as_identity c >>= λ f. read_identity path f >>= λ i. ok (some i)
  ]

  -- `NamedIdentityRecord::persist`; `now` is the text of the current time.
  unfoldable pub persist :
      Bool → String → String → NamedIdentityRecord K → Disk → Disk × Result IdentityError (Unit {0})
  persist writable now path i disk =
      write_file writable path
        (identity_file (record {
          name = i.name;
          created_at = now;
          public_key = i.public_key;
          private_key = keys.encode i.signing_key;
        }))
        disk

  abbrev pub identity_path : String → String → String
  identity_path dir name = paths.join_path dir (append_text name ".json")

  -- a record that is written where there is none yet
  abbrev pub persisted :
      Bool
      → String
      → String
      → NamedIdentityRecord K
      → Disk
      → Disk × Result IdentityError (NamedIdentityRecord K)
  persisted writable now path i disk =
      let written = persist writable now path i disk in (written.0, written.1 >>= λ _. ok i)

  -- the part of `load_or_create` after the name is validated; `key` is the generated key
  unfoldable pub load_or_create_named :
      Bool
      → String
      → K
      → String
      → String
      → Disk
      → Disk × Result IdentityError (NamedIdentityRecord K)
  unfolding load persist
  load_or_create_named writable now key dir name disk =
      let path = identity_path dir name in
      elim (load path disk) [
        | err e ↦ (disk, err e)
        | ok (some existing) ↦ (disk, ok existing)
        | ok none ↦
            persisted writable now path
              (record { name = name; public_key = keys.verifying_key key; signing_key = key }) disk
      ]

  unfoldable pub load_or_create :
      Bool
      → String
      → K
      → String
      → String
      → Disk
      → Disk × Result IdentityError (NamedIdentityRecord K)
  unfolding validate_name load_or_create_named
  load_or_create writable now key dir raw disk = elim (validate_name raw) [
    | err e ↦ (disk, err e)
    | ok name ↦ load_or_create_named writable now key dir name disk
  ]

  unfoldable pub load_or_create_from_legacy :
      Bool
      → String
      → String
      → String
      → LegacySubspaceSessionRecord K
      → Disk
      → Disk × Result IdentityError (NamedIdentityRecord K)
  unfolding validate_name load persist ensure_matches_agent_id
  load_or_create_from_legacy writable now dir raw old disk = elim (validate_name raw) [
    | err e ↦ (disk, err e)
    | ok name ↦ elim (load (identity_path dir name) disk) [
      | err e ↦ (disk, err e)
      | ok (some existing) ↦
          (disk, ensure_matches_agent_id existing old.agent_id >>= λ _. ok existing)
      | ok none ↦
          persisted writable now (identity_path dir name)
            (record { name = name; public_key = old.agent_id; signing_key = old.signing_key }) disk
    ]
  ]

  -- the session of `migrate_to_identity`, with the token that there is
  unfoldable pub migrated :
      LegacySubspaceSessionRecord K → String → Option String → SubspaceSessionRecord
  unfolding new_session update_session_token
  migrated old name none = new_session name old.agent_id
  migrated old name (some token) =
      update_session_token token old.session_expires_at (new_session name old.agent_id)

  unfoldable pub migrate_to_identity :
      LegacySubspaceSessionRecord K
      → NamedIdentityRecord K
      → Result IdentityError SubspaceSessionRecord
  unfolding ensure_matches_agent_id migrated
  migrate_to_identity old i =
      ensure_matches_agent_id i old.agent_id >>= λ _. ok (migrated old i.name old.session_token)

  -- `LegacySubspaceSessionRecord::persist`
  unfoldable pub legacy_content : LegacySubspaceSessionRecord K → Content
  legacy_content s = legacy_file (record {
    version = 1;
    public_key = s.agent_id;
    private_key = keys.encode_pkcs8 s.signing_key;
    owner = "openclaw";
    name = s.registration_name;
    session_token = s.session_token;
    session_expires_at = s.session_expires_at;
  })

  unfoldable pub load_session_record :
      String → Disk → Result IdentityError (Option (LoadedSessionRecord K))
  load_session_record path disk = elim (lookup path disk) [
    | none ↦ ok none
    | some (session_file s) ↦ ok (some (current s))
    | some (legacy_file f) ↦ key_of (keys.decode_pkcs8 f.private_key) >>= λ key. ok (
        some (
          legacy (record {
            agent_id = f.public_key;
            registration_name = f.name;
            session_token = f.session_token;
            session_expires_at = f.session_expires_at;
            signing_key = key;
          })))
    | some (identity_file f) ↦ err not_read
    | some unreadable ↦ err not_read
  ]
