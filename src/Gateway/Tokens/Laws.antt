-- ===== src/Gateway/Tokens/Laws.antt =====
-- What is loaded after a token was stored wanted cleared.
use subspace_daemon.Base.{
  Bool, Bool-cases, Option, String, ap, arith, eq_iff, err, err-ne-ok, false, if◌then◌else◌, inl,
  inr, lookup, lookup-remove, none, ok, refl, remove, sym, true, ◌&&◌, ◌==◌, ◌∙◌, ◌≡◌,
}
use subspace_daemon.Gateway.Tokens.{
  DeviceAuthEntry, DeviceAuthFile, AuthPath, missing, unreadable, unparsable, holds, load_token,
  clear_token, write_failed,
}

-- the entry of a role in the file, whichever device it names
unfoldable pub held : String → AuthPath → Option DeviceAuthEntry
held role missing = none
held role unreadable = none
held role unparsable = none
held role (holds file) = lookup role file.tokens

clear_token-unwritten :
    (device_id role : String) (file : DeviceAuthFile)
    → (file.device_id == device_id) ≡ true
    → (clear_token false device_id role (holds file)).1 ≡ err write_failed
unfolding clear_token
clear_token-unwritten device_id role file same = rw (clear_token, same) refl

clear_token-written :
    (device_id role : String) (file : DeviceAuthFile)
    → (file.device_id == device_id) ≡ true
    → clear_token true device_id role (holds file)
      ≡ (holds (record file { tokens = remove role file.tokens }), ok tt)
unfolding clear_token
clear_token-written device_id role file same = rw (clear_token, same) refl

clear_token-other_device :
    (writable : Bool) (device_id role : String) (file : DeviceAuthFile)
    → (file.device_id == device_id) ≡ false
    → clear_token writable device_id role (holds file) ≡ (holds file, ok tt)
unfolding clear_token
clear_token-other_device writable device_id role file differs = rw (clear_token, differs) refl

load_token-removed :
    (device_id role : String) (file : DeviceAuthFile)
    → (file.device_id == device_id) ≡ true
    → (other wanted : String)
    → load_token other wanted (holds (record file { tokens = remove role file.tokens })) ≡ (
        if device_id == other && role == wanted then none else load_token other wanted (holds file))
unfolding load_token
load_token-removed device_id role file same other wanted =
    rw (lookup-remove role wanted file.tokens, sym ((eq_iff file.device_id device_id).0 same))
      (ground arith)

load_token-other_device :
    (device_id role : String) (file : DeviceAuthFile)
    → (file.device_id == device_id) ≡ false
    → (other wanted : String)
    → load_token other wanted (holds file) ≡ (
        if device_id == other && role == wanted then none else load_token other wanted (holds file))
unfolding load_token
load_token-other_device device_id role file differs other wanted =
    elim (Bool-cases (file.device_id == other)) [
      | inr e ↦ rw (load_token, e) (ground arith)
      | inl e ↦ ground (
        arith,
        e,
        differs,
        eq_iff file.device_id other,
        eq_iff file.device_id device_id,
        eq_iff device_id other,
      )
    ]

-- A token that was cleared is not loaded; those of the other roles and devices are as before.
pub load_token-clear_token :
    (device_id role : String) (path : AuthPath) (writable : Bool)
    → (clear_token writable device_id role path).1 ≡ ok tt
    → (other_device other_role : String)
    → load_token other_device other_role (clear_token writable device_id role path).0 ≡ (
        if device_id == other_device && role == other_role
        then none
        else load_token other_device other_role path)
unfolding load_token clear_token
load_token-clear_token device_id role missing writable h other wanted = ground arith
load_token-clear_token device_id role unreadable writable h other wanted = ground arith
load_token-clear_token device_id role unparsable writable h other wanted = ground arith
load_token-clear_token device_id role (holds file) writable h other wanted =
    elim (Bool-cases (file.device_id == device_id)) [
      | inr differs ↦
          rw (clear_token-other_device writable device_id role file differs)
            (load_token-other_device device_id role file differs other wanted)
      | inl same ↦ elim (Bool-cases writable) [
        | inl w ↦
            rw (w, clear_token-written device_id role file same)
              (load_token-removed device_id role file same other wanted)
        | inr w ↦ absurd (
            err-ne-ok (
              sym (clear_token-unwritten device_id role file same)
              ∙ ap (λ x. (clear_token x device_id role (holds file)).1) (sym w)
              ∙ h))
      ]
    ]
