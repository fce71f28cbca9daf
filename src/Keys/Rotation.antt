-- ===== src/Keys/Rotation.antt =====
-- backend/src/keys/service.rs: rotation requests, the deadlines of rotations, and revocation.
use mcp_host.Prelude.{
  ℕ, Bool, true, Option, none, some, List, [], ◌∷◌, ◌++◌, String, object, string, bool, entry,
  no_entry, pos, ◌+ℤ◌, ◌==◌, str_eq, trim, ◌&&◌, ◌||◌, if◌then◌else◌, find, update_where, Result,
  ok, err,
}
use mcp_host.Keys.Models.{
  ProviderKeyRow, ProviderKeyRecord, from, pending_approval, ProviderKeyRotationRecord,
}
use mcp_host.Keys.Events.{
  rotation_requested, revocation_initiated, revocation_completed, ProviderKeyAuditEvent, KeyDb,
  insert_event, dispatch_notification,
}
use mcp_host.Keys.Register.{attested, encoded, text_or_null}

pub record RequestKeyRotation : Type 0 where
  pub attestation_digest : Option String
  pub attestation_signature : Option String
  pub request_actor_ref : Option String

abbrev pub bind_ok {ℓ κ} :
    {A : Type ℓ} {B : Type κ} → Result A String → (A → Result B String) → Result B String
bind_ok (ok a) f = f a
bind_ok (err e) f = err e

abbrev pub actor : Option String → Result String String
actor none = err "rotation actor reference required"
actor (some s) = if str_eq (trim s) "" then err "rotation actor reference required" else ok (trim s)

-- The test of the key's state.
unfoldable pub rotatable : String → Result (Unit {0}) String
rotatable state =
    if str_eq state "active" || str_eq state "rotating"
    then ok tt
    else if str_eq state "pending_registration"
    then err "provider key not active; cannot request rotation"
    else if str_eq state "retired"
    then err "provider key retired"
    else if str_eq state "compromised"
    then err "provider key compromised"
    else err "provider key state invalid for rotation"

abbrev found_key : String → Option ProviderKeyRow → Result ProviderKeyRow String
found_key e none = err e
found_key e (some k) = ok k

abbrev pub set_state : (now : ℕ) → String → ProviderKeyRow → ProviderKeyRow
set_state now state k = record k { state = state; updated_at = now; version = k.version +ℤ pos 1 }

-- The key, if it is the provider's and in a state to be rotated.
abbrev pub key_to_rotate : ℕ → ℕ → KeyDb → Result ProviderKeyRow String
key_to_rotate provider key db =
    bind_ok
      (found_key "provider key not found for rotation request"
        (find (λ k. (k.id == key) && (k.provider_id == provider)) db.keys))
      (λ k. bind_ok (rotatable k.state) (λ _. ok k))

module _ (decodes : String → Bool) (uuid rfc3339 : ℕ → String) where
  -- What the request must pass: its attestation, its actor, and the key with its state.
  abbrev pub rotation_of :
      ℕ → ℕ → RequestKeyRotation → KeyDb → Result (String × String × String × ProviderKeyRow) String
  rotation_of provider key request db =
      bind_ok
        (attested decodes rfc3339 "rotation attestation digest required"
          "rotation attestation signature required" request.attestation_digest
          request.attestation_signature)
        (λ pair. bind_ok (actor request.request_actor_ref) (λ by.
          bind_ok (encoded decodes rfc3339 pair)
            (λ _. bind_ok (key_to_rotate provider key db) (λ k. ok (pair.0, pair.1, by, k)))))

  abbrev rotation_event :
      (now event_id rotation_id : ℕ) → ℕ → ProviderKeyRow → String → ProviderKeyAuditEvent
  rotation_event now event_id rotation_id provider k by = record {
    id = event_id;
    provider_id = provider;
    provider_key_id = some k.id;
    event_type = rotation_requested;
    payload = object (
        entry "rotation_id" (string (uuid rotation_id)) (
          entry "previous_state" (string k.state) (
            entry "request_actor_ref" (string by)
              (entry "attestation_registered" (bool true) no_entry))));
    occurred_at = now;
  }

  abbrev rotation_row :
      (now rotation_id : ℕ) → ProviderKeyRow → String → String → ProviderKeyRotationRecord
  rotation_row now rotation_id k by digest = record {
    id = rotation_id;
    provider_key_id = k.id;
    requested_at = now;
    approved_at = none;
    status = pending_approval;
    evidence_uri = none;
    request_actor_ref = some by;
    approval_actor_ref = none;
    failure_reason = none;
    attestation_digest = some digest;
    attestation_signature_verified = true;
    metadata = object (
        entry "attestation_digest" (string digest)
          (entry "attestation_signature_registered" (bool true) no_entry));
  }

  -- if previous_state != "rotating"
  abbrev pub keys_rotating : (now : ℕ) → ProviderKeyRow → List ProviderKeyRow → List ProviderKeyRow
  keys_rotating now k keys =
      if str_eq k.state "rotating"
      then keys
      else update_where (λ x. x.id == k.id) (set_state now "rotating") keys

  abbrev pub store_rotation :
      (now event_id rotation_id : ℕ)
      → ℕ
      → KeyDb
      → Result (String × String × String × ProviderKeyRow) String
      → Result ProviderKeyRotationRecord String × KeyDb
  store_rotation now event_id rotation_id provider db (err e) = (err e, db)
  store_rotation now event_id rotation_id provider db (ok (digest, signature, by, k)) =
      let row = rotation_row now rotation_id k by digest in
      (
        ok row,
        insert_event (rotation_event now event_id rotation_id provider k by) (record db {
          rotations = db.rotations ++ row ∷ [];
          keys = keys_rotating now k db.keys;
        }),
      )

  unfoldable pub request_rotation :
      (now event_id rotation_id : ℕ)
      → ℕ
      → ℕ
      → RequestKeyRotation
      → KeyDb
      → Result ProviderKeyRotationRecord String × KeyDb
  request_rotation now event_id rotation_id provider key request db =
      store_rotation now event_id rotation_id provider db (rotation_of provider key request db)

  abbrev target_state : Bool → String
  target_state mark_compromised = if mark_compromised then "compromised" else "retired"

  abbrev pub revoked : (now : ℕ) → Bool → ProviderKeyRow → ProviderKeyRow
  revoked now mark_compromised k = record k {
    state = target_state mark_compromised;
    retired_at = some now;
    compromised_at = if mark_compromised then some now else k.compromised_at;
    updated_at = now;
    version = k.version +ℤ pos 1;
  }

  abbrev initiated :
      (now event_id : ℕ) → ℕ → ProviderKeyRow → Option String → Bool → ProviderKeyAuditEvent
  initiated now event_id provider k reason mark_compromised = record {
    id = event_id;
    provider_id = provider;
    provider_key_id = some k.id;
    event_type = revocation_initiated;
    payload = object (
        entry "previous_state" (string k.state) (
          entry "reason" (text_or_null reason)
            (entry "mark_compromised" (bool mark_compromised) no_entry)));
    occurred_at = now;
  }

  abbrev revocation_done :
      (now event_id : ℕ) → ℕ → ProviderKeyRow → Option String → Bool → ProviderKeyAuditEvent
  revocation_done now event_id provider k reason mark_compromised = record {
    id = event_id;
    provider_id = provider;
    provider_key_id = some k.id;
    event_type = revocation_completed;
    payload = object (
        entry "final_state" (string (target_state mark_compromised))
          (entry "reason" (text_or_null reason) no_entry));
    occurred_at = now;
  }

  -- The record that the caller sees keeps the version that was read.
  abbrev revoked_record : (now : ℕ) → Bool → ProviderKeyRow → ProviderKeyRecord
  revoked_record now mark_compromised k = record (from (revoked now mark_compromised k)) {
    version = k.version;
  }

  unfoldable pub revoke_key :
      String
      → (now first_event second_event : ℕ) → ℕ
      → ℕ
      → Option String
      → Bool
      → KeyDb
      → Result ProviderKeyRecord String × KeyDb
  revoke_key channel now first_event second_event provider key reason mark_compromised db =
      elim (find (λ k. k.id == key) db.keys) [
        | none ↦ (err "provider key not found for revocation", db)
        | some k ↦
            let one = initiated now first_event provider k reason mark_compromised in
            let two = revocation_done now second_event provider k reason mark_compromised in
            let written = insert_event two (
              insert_event one (record db {
                keys = update_where (λ x. x.id == k.id) (revoked now mark_compromised) db.keys;
              })) in
            if k.provider_id == provider
            then (
              ok (revoked_record now mark_compromised k),
              dispatch_notification channel two (dispatch_notification channel one written),
            )
            else (err "provider mismatch", db)
      ]
