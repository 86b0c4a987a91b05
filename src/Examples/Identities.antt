-- ===== src/Examples/Identities.antt =====
-- Identities and sessions on concrete files. A key is a text, its own encoding.
use subspace_daemon.Base.{
  String, [], append_text, err, if◌then◌else◌, insert, lookup, none, ok, refl, some, trim, true,
  ◌==◌, ◌≡◌,
}
use subspace_daemon.Subspace.Identity.{
  Keys, Paths, NamedIdentityRecord, SubspaceSessionRecord, LegacySubspaceSessionRecord,
  name_mismatch, load, load_or_create, migrate_to_identity,
}
use subspace_daemon.Subspace.Identity.Laws.{Keeps, load-load_or_create, migrate_to_identity-Keeps}

abbrev pub keys : Keys String
keys = record {
  verifying_key = λ k. k;
  sign = λ k payload. payload;
  encode = λ k. k;
  decode = λ text. ok text;
  encode_pkcs8 = λ k. k;
  decode_pkcs8 = λ text. ok text;
}

-- The files of the directory, whose paths end after a name without a slash.
abbrev stem : String → String
stem path = if path == "dir/a.json" then "a" else if path == "dir/a/b.json" then "b" else ""

abbrev pub paths : Paths
paths = record { join_path = λ dir name. append_text dir (append_text "/" name); file_stem = stem }

abbrev pub identity : NamedIdentityRecord String
identity = record { name = "a"; public_key = "k"; signing_key = "k" }

made_here : (load_or_create keys paths true "now" "k" "dir" " a " []).1 ≡ ok identity
unfolding load_or_create lookup
made_here = refl

load-load_or_create_example :
    load keys paths "dir/a.json" (load_or_create keys paths true "now" "k" "dir" " a " []).0
    ≡ ok (some identity)
unfolding trim
load-load_or_create_example =
    load-load_or_create keys paths true "now" "k" "dir" " a " [] identity refl refl made_here

-- A name with a slash is accepted, and its file is not loaded afterwards.
slash_here :
    load keys paths "dir/a/b.json" (load_or_create keys paths true "now" "k" "dir" "a/b" []).0
    ≡ err (name_mismatch "b" "a/b")
unfolding load lookup load_or_create insert
slash_here = refl

abbrev old : LegacySubspaceSessionRecord String
old = record {
  agent_id = "k";
  registration_name = "me";
  session_token = some "t";
  session_expires_at = none;
  signing_key = "k";
}

abbrev session : SubspaceSessionRecord
session = record {
  identity = "a";
  agent_id = "k";
  session_token = some "t";
  session_expires_at = none;
}

migrated_here : migrate_to_identity keys paths old identity ≡ ok session
unfolding migrate_to_identity
migrated_here = refl

migrate_to_identity-Keeps_example : Keeps keys paths old identity session
migrate_to_identity-Keeps_example =
    migrate_to_identity-Keeps keys paths old identity session migrated_here
