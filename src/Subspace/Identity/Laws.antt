-- ===== src/Subspace/Identity/Laws.antt =====
-- What is loaded again after an identity was created or a session migrated.
use mathlib.Core.Path.{subst}
use subspace_daemon.Base.{
  >>=-eq-ok, Bool, Bool-cases, Option, Option-cases, Result, Result-cases, String, ap, arith,
  bail_if, bail_if-ok, eq_iff, eq_refl, err, err-ne-ok, false, inl, inr, insert, is_empty_text,
  lookup, lookup-insert_self, none, not, ok, ok-inj, refl, some, sym, trim, true, ◌==◌, ◌>>=◌, ◌∙◌,
  ◌≡◌,
}
use subspace_daemon.Subspace.Identity.{
  Keys, Paths, IdentityFile, NamedIdentityRecord, SubspaceSessionRecord,
  LegacySubspaceSessionRecord, Content, identity_file, Disk, IdentityError, name_mismatch,
  agent_mismatch, as_identity, key_of, validate_name, new_session, update_session_token,
  ensure_matches_agent_id, read_identity, load, persist, identity_path, persisted,
  load_or_create_named, load_or_create, migrated, migrate_to_identity,
}

module _ {K : Type 0} (keys : Keys K) (paths : Paths) where
  read_identity-name :
      (path : String) (f : IdentityFile) {i : NamedIdentityRecord K}
      → read_identity keys paths path f ≡ ok i
      → i.name ≡ paths.file_stem path
  unfolding read_identity
  read_identity-name path f h =
      let mismatch = name_mismatch (paths.file_stem path) f.name in
      let (u, named, h1) =
        >>=-eq-ok (bail_if (not (f.name == paths.file_stem path)) mismatch) _ h in
      let (key, decoded, h2) = >>=-eq-ok (key_of (keys.decode f.private_key)) _ h1 in
      ap (λ x. x.name) (sym (ok-inj h2))
      ∙ (eq_iff f.name (paths.file_stem path)).0 (ground (arith, bail_if-ok mismatch named))

  some-inj : {A : Type 0} {x y : A} → Path (Option A) (some x) (some y) → x ≡ y
  some-inj h = cc h

  load_nothing :
      (path : String) (disk : Disk) → lookup path disk ≡ none → load keys paths path disk ≡ ok none
  unfolding load
  load_nothing path disk h = rw (load, h) refl

  load_found :
      (path : String) (disk : Disk) {c : Content}
      → lookup path disk ≡ some c
      → load keys paths path disk
        ≡ (as_identity c >>= λ f. read_identity keys paths path f >>= λ i. ok (some i))
  unfolding load
  load_found path disk h = rw (load, h) refl

  -- An identity that is loaded has the name of its file.
  load-name :
      (path : String) (disk : Disk) {i : NamedIdentityRecord K}
      → load keys paths path disk ≡ ok (some i)
      → i.name ≡ paths.file_stem path
  load-name path disk {i} h = elim (Option-cases (lookup path disk)) [
    | inl none_there ↦ absurd (ground (arith, ok-inj (sym (load_nothing path disk none_there) ∙ h)))
    | inr (c, found) ↦
        let (f, parsed, h1) = >>=-eq-ok (as_identity c) _ (sym (load_found path disk found) ∙ h) in
        let (j, read, h2) = >>=-eq-ok (read_identity keys paths path f) _ h1 in
        ap (λ x. x.name) (sym (some-inj (ok-inj h2))) ∙ read_identity-name path f read
  ]

  abbrev pub file_of : String → NamedIdentityRecord K → IdentityFile
  file_of now i = record {
    name = i.name;
    created_at = now;
    public_key = i.public_key;
    private_key = keys.encode i.signing_key;
  }

  -- What was written is read again, where the file is named after the identity.
  load-persist :
      (now path : String) (i : NamedIdentityRecord K) (disk : Disk)
      → keys.decode (keys.encode i.signing_key) ≡ ok i.signing_key
      → paths.file_stem path ≡ i.name
      → load keys paths path (persist keys paths true now path i disk).0 ≡ ok (some i)
  unfolding persist read_identity
  load-persist now path i disk decodes named =
      load_found path (insert path (identity_file (file_of now i)) disk)
        (lookup-insert_self path (identity_file (file_of now i)) disk)
      ∙ rw (read_identity, named, eq_refl i.name, decodes) refl

  load_or_create_named-keeps :
      (writable : Bool) (now : String) (key : K) (dir name : String) (disk : Disk)
      {i : NamedIdentityRecord K}
      → load keys paths (identity_path keys paths dir name) disk ≡ ok (some i)
      → load_or_create_named keys paths writable now key dir name disk ≡ (disk, ok i)
  unfolding load_or_create_named
  load_or_create_named-keeps writable now key dir name disk h = rw (load_or_create_named, h) refl

  load_or_create_named-fails :
      (writable : Bool) (now : String) (key : K) (dir name : String) (disk : Disk)
      {e : IdentityError}
      → load keys paths (identity_path keys paths dir name) disk ≡ err e
      → load_or_create_named keys paths writable now key dir name disk ≡ (disk, err e)
  unfolding load_or_create_named
  load_or_create_named-fails writable now key dir name disk h = rw (load_or_create_named, h) refl

  abbrev fresh_identity : String → K → NamedIdentityRecord K
  fresh_identity name key = record {
    name = name;
    public_key = keys.verifying_key key;
    signing_key = key;
  }

  load_or_create_named-writes :
      (writable : Bool) (now : String) (key : K) (dir name : String) (disk : Disk)
      → load keys paths (identity_path keys paths dir name) disk ≡ ok none
      → load_or_create_named keys paths writable now key dir name disk
        ≡ persisted keys paths writable now
            (identity_path keys paths dir name)
            (fresh_identity name key)
            disk
  unfolding load_or_create_named
  load_or_create_named-writes writable now key dir name disk h = rw (load_or_create_named, h) refl

  -- What was made is what is loaded of its file.
  abbrev pub IsLoadedAt : String → Disk × Result IdentityError (NamedIdentityRecord K) → Type 0
  IsLoadedAt dir made =
      (i : NamedIdentityRecord K)
      → made.1 ≡ ok i
      → load keys paths (identity_path keys paths dir i.name) made.0 ≡ ok (some i)

  persisted-IsLoadedAt :
      (writable : Bool) (now : String) (key : K) (dir name : String) (disk : Disk)
      → keys.decode (keys.encode key) ≡ ok key
      → paths.file_stem (identity_path keys paths dir name) ≡ name
      → IsLoadedAt dir (
          persisted keys paths writable now
            (identity_path keys paths dir name)
            (fresh_identity name key)
            disk)
  unfolding persist
  persisted-IsLoadedAt false now key dir name disk decodes named i h = absurd (err-ne-ok h)
  persisted-IsLoadedAt true now key dir name disk decodes named i h = rw (sym (ok-inj h)) (
      load-persist now (identity_path keys paths dir name) (fresh_identity name key) disk decodes
        named)

  load_or_create_named-IsLoadedAt :
      (writable : Bool) (now : String) (key : K) (dir name : String) (disk : Disk)
      → keys.decode (keys.encode key) ≡ ok key
      → paths.file_stem (identity_path keys paths dir name) ≡ name
      → IsLoadedAt dir (load_or_create_named keys paths writable now key dir name disk)
  load_or_create_named-IsLoadedAt writable now key dir name disk decodes named =
      elim (Result-cases (load keys paths (identity_path keys paths dir name) disk)) [
        | inr (e, h) ↦
            rw (load_or_create_named-fails writable now key dir name disk h)
              (λ i g. absurd (err-ne-ok g))
        | inl (o, h) ↦ elim (Option-cases o) [
          | inl e ↦
              rw (load_or_create_named-writes writable now key dir name disk (h ∙ ap ok e))
                (persisted-IsLoadedAt writable now key dir name disk decodes named)
          | inr (j, e) ↦
              rw (load_or_create_named-keeps writable now key dir name disk (h ∙ ap ok e)) (λ i g.
                let same = load-name (identity_path keys paths dir name) disk (h ∙ ap ok e) in
                rw (sym (ok-inj g)) (
                  subst (λ n. load keys paths (identity_path keys paths dir n) disk ≡ ok (some j))
                    (sym (same ∙ named)) (h ∙ ap ok e)))
        ]
      ]

  load_or_create-IsLoadedAt :
      (writable : Bool) (now : String) (key : K) (dir raw : String) (disk : Disk)
      → keys.decode (keys.encode key) ≡ ok key
      → paths.file_stem (identity_path keys paths dir (trim raw)) ≡ trim raw
      → IsLoadedAt dir (load_or_create keys paths writable now key dir raw disk)
  unfolding load_or_create validate_name
  load_or_create-IsLoadedAt writable now key dir raw disk decodes named =
      elim (Bool-cases (is_empty_text (trim raw))) [
        | inl blank ↦ rw (load_or_create, validate_name, blank) (λ i g. absurd (err-ne-ok g))
        | inr filled ↦
            rw (load_or_create, validate_name, filled)
              (load_or_create_named-IsLoadedAt writable now key dir (trim raw) disk decodes named)
      ]

  -- An identity that was created, or that was there before, is loaded again from the file of its
  -- name, where the key library reads what it wrote and the path library gives the trimmed name
  -- back as the stem of that file.
  pub load-load_or_create :
      (writable : Bool) (now : String) (key : K) (dir raw : String) (disk : Disk)
      (i : NamedIdentityRecord K)
      → keys.decode (keys.encode key) ≡ ok key
      → paths.file_stem (identity_path keys paths dir (trim raw)) ≡ trim raw
      → (load_or_create keys paths writable now key dir raw disk).1 ≡ ok i
      → load keys paths
          (identity_path keys paths dir i.name)
          (load_or_create keys paths writable now key dir raw disk).0
        ≡ ok (some i)
  load-load_or_create writable now key dir raw disk i decodes named made =
      load_or_create-IsLoadedAt writable now key dir raw disk decodes named i made

  -- What a migrated session keeps of the legacy one.
  abbrev pub Keeps :
      LegacySubspaceSessionRecord K → NamedIdentityRecord K → SubspaceSessionRecord → Type 0
  Keeps old i session =
      (session.identity ≡ i.name)
      × (session.agent_id ≡ old.agent_id)
      × (i.public_key ≡ old.agent_id)
      × (session.session_token ≡ old.session_token)

  matches-same :
      (i : NamedIdentityRecord K) (agent_id : String) {u : Unit {0}}
      → ensure_matches_agent_id i agent_id ≡ ok u
      → i.public_key ≡ agent_id
  unfolding ensure_matches_agent_id
  matches-same i agent_id h =
      (eq_iff i.public_key agent_id).0
        (ground (arith, bail_if-ok (agent_mismatch i.name agent_id) h))

  migrated-Keeps :
      (old : LegacySubspaceSessionRecord K) (i : NamedIdentityRecord K) (token : Option String)
      → i.public_key ≡ old.agent_id
      → token ≡ old.session_token
      → Keeps old i (migrated keys paths old i.name token)
  unfolding migrated new_session update_session_token
  migrated-Keeps old i none same e = (refl, refl, same, e)
  migrated-Keeps old i (some token) same e = (refl, refl, same, e)

  -- A migration that succeeds keeps the agent and the token of the legacy session, and only an
  -- identity with the key of that agent is taken for it.
  pub migrate_to_identity-Keeps :
      (old : LegacySubspaceSessionRecord K) (i : NamedIdentityRecord K)
      (session : SubspaceSessionRecord)
      → migrate_to_identity keys paths old i ≡ ok session
      → Keeps old i session
  unfolding migrate_to_identity
  migrate_to_identity-Keeps old i session h =
      let (u, matched, h1) = >>=-eq-ok (ensure_matches_agent_id i old.agent_id) _ h in
      subst (Keeps old i) (ok-inj h1)
        (migrated-Keeps old i old.session_token (matches-same i old.agent_id matched) refl)
