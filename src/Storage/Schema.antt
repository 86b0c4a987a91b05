-- ===== src/Storage/Schema.antt =====
-- src/storage.rs: the check of the database's schema, and its migration.
pub mod Ready
use subspace_daemon.Base.{
  Bool, List, Result, String, [], any, err, filter, if◌then◌else◌, is_empty, not, ok, ◌&&◌, ◌++◌,
  ◌==◌, ◌∷◌,
}

-- What the code reads of `sqlite_master` and of `PRAGMA table_info(daemon_event)`.
pub record Schema : Type 0 where
  pub tables : List String
  pub event_columns : List String

pub data StorageError : Type 0 where
  legacy_schema : StorageError
  missing_tables missing_after_migration missing_columns : List String → StorageError
  not_delivered incomplete_veto implicit_fallback no_accepted_match : StorageError
  empty_destination row_not_found null_value : StorageError

abbrev pub required_tables : List String
required_tables =
    "ingress_source" ∷ "attention_decision" ∷ "daemon_event" ∷ "event_idempotency"
    ∷ "receptor_match" ∷ "sink_target" ∷ "sink_delivery" ∷ "event_artifact" ∷ []

-- the tables of the batch of `CREATE TABLE IF NOT EXISTS`, in its order
abbrev pub created_tables : List String
created_tables =
    "ingress_source" ∷ "attention_decision" ∷ "daemon_event" ∷ "event_idempotency"
    ∷ "receptor_match" ∷ "sink_target" ∷ "sink_delivery" ∷ "event_artifact" ∷ []

-- the columns that an older `daemon_event` lacks
abbrev pub added_columns : List String
added_columns = "attention_disposition" ∷ "attention_delivery_mode" ∷ []

-- the columns of the `CREATE TABLE` of `daemon_event`
abbrev pub created_columns : List String
created_columns =
    "id" ∷ "ingress_source_id" ∷ "message_id" ∷ "message_timestamp" ∷ "inbound_event" ∷ "author_id"
    ∷ "author_name" ∷ "text" ∷ "sender_embeddings_json" ∷ "attention_space_id"
    ∷ "attention_fallback" ∷ "attention_disposition" ∷ "attention_delivery_mode" ∷ "payload_json"
    ∷ "raw_body" ∷ "accepted_at" ∷ []

unfoldable pub contains : String → List String → Bool
contains x xs = any (λ y. y == x) xs

-- The names that `have` lacks, in the order of `wanted`.
unfoldable pub missing_from : List String → List String → List String
unfolding contains
missing_from have wanted = filter (λ x. not (contains x have)) wanted

unfoldable pub missing_required_tables : Schema → List String
unfolding missing_from
missing_required_tables s = missing_from s.tables required_tables

unfoldable pub legacy_schema_present : Schema → Bool
unfolding contains
legacy_schema_present s = contains "accepted_message" s.tables

-- the batch of `CREATE TABLE IF NOT EXISTS`
unfoldable pub create_tables : Schema → Schema
unfolding contains missing_from
create_tables s = record {
  tables = s.tables ++ missing_from s.tables created_tables;
  event_columns = if contains "daemon_event" s.tables then s.event_columns else created_columns;
}

unfoldable pub ensure_daemon_event_columns : Schema → Bool → Schema × Result StorageError (Unit {0})
unfolding missing_from
ensure_daemon_event_columns s auto_migrate =
    let missing = missing_from s.event_columns added_columns in
    if is_empty missing
    then (s, ok tt)
    else if not auto_migrate
    then (s, err (missing_columns missing))
    else (record { tables = s.tables; event_columns = s.event_columns ++ missing }, ok tt)

-- The end of `ensure_schema`, after the tables were made.
unfoldable pub check_columns : Schema → Bool → Schema × Result StorageError (Unit {0})
unfolding ensure_daemon_event_columns missing_required_tables
check_columns s auto_migrate =
    let columns = ensure_daemon_event_columns s auto_migrate in
    let missing = missing_required_tables columns.0 in
    elim columns.1 [
      | err e ↦ (columns.0, err e)
      | ok u ↦
          if is_empty missing
          then (columns.0, ok tt)
          else (columns.0, err (missing_after_migration missing))
    ]

unfoldable pub ensure_schema : Schema → Bool → Schema × Result StorageError (Unit {0})
unfolding legacy_schema_present missing_required_tables create_tables check_columns
ensure_schema s auto_migrate =
    let missing = missing_required_tables s in
    if legacy_schema_present s
    then (s, err legacy_schema)
    else if not (is_empty missing) && not auto_migrate
    then (s, err (missing_tables missing))
    else check_columns (if is_empty missing then s else create_tables s) auto_migrate
