-- ===== src/Keys/Register.antt =====
-- backend/src/keys/service.rs: registration, the listing, and the summary that the runtime policy asks
-- for. `now` is `Utc::now()`; `decodes` is whether base64 accepts a text, `uuid` and `rfc3339` print an
-- identifier and an instant.
use mcp_host.Prelude.{
  ℕ, ◌+◌, Bool, true, false, not, Option, none, some, List, [], ◌∷◌, ◌++◌, String, Value, object,
  string, bool, null, entry, no_entry, pos, ◌==◌, str_eq, ltb, leb, if◌then◌else◌, find, map,
  select, order_by, Result, ok, err,
}
use mcp_host.Keys.Models.{
  active, state_str, ProviderKeyState, ProviderKeyRow, ProviderKeyRecord, from, is_some,
  ProviderTierRequirement, ProviderKeyPolicySummary, no_summary, add_veto_note,
}
use mcp_host.Keys.Events.{registered, ProviderKeyAuditEvent, KeyDb, insert_event}

pub record RegisterProviderKey : Type 0 where
  pub alias : Option String
  pub attestation_digest : Option String
  pub attestation_signature : Option String
  pub rotation_due_at : Option ℕ

abbrev pub text_or_null : Option String → Value
text_or_null none = null
text_or_null (some s) = string s

module _ (decodes : String → Bool) (rfc3339 : ℕ → String) where
  abbrev pub time_or_null : Option ℕ → Value
  time_or_null none = null
  time_or_null (some t) = string (rfc3339 t)

  abbrev pub registered_row :
      (now new_id : ℕ) → ℕ → RegisterProviderKey → String → String → ProviderKeyRow
  registered_row now new_id provider request digest signature = record {
    id = new_id;
    provider_id = provider;
    alias = request.alias;
    state = state_str active;
    rotation_due_at = request.rotation_due_at;
    attestation_digest = some digest;
    attestation_signature = some signature;
    attestation_verified_at = some now;
    activated_at = some now;
    retired_at = none;
    compromised_at = none;
    version = pos 0;
    created_at = now;
    updated_at = now;
  }

  abbrev registered_event : (now event_id : ℕ) → ProviderKeyRow → ProviderKeyAuditEvent
  registered_event now event_id row = record {
    id = event_id;
    provider_id = row.provider_id;
    provider_key_id = some row.id;
    event_type = registered;
    payload = object (
        entry "alias" (text_or_null row.alias) (
          entry "rotation_due_at" (time_or_null row.rotation_due_at) (
            entry "attestation_registered" (bool true) (
              entry "attestation_signature_registered" (bool true) (
                entry "attestation_verified_at" (time_or_null row.attestation_verified_at)
                  no_entry)))));
    occurred_at = now;
  }

  -- What an attested request must bring, with the errors of the caller.
  abbrev pub attested :
      (no_digest no_signature : String)
      → Option String
      → Option String
      → Result (String × String) String
  attested no_digest no_signature none signature = err no_digest
  attested no_digest no_signature (some d) none = err no_signature
  attested no_digest no_signature (some d) (some s) = ok (d, s)

  abbrev pub encoded : String × String → Result (String × String) String
  encoded (d, s) =
      if not (decodes d)
      then err "invalid attestation digest encoding"
      else if not (decodes s)
      then err "invalid attestation signature encoding"
      else ok (d, s)

  -- The transaction of `register_key`.
  abbrev pub store_key :
      (now new_id event_id : ℕ)
      → ℕ
      → RegisterProviderKey
      → KeyDb
      → Result (String × String) String
      → Result ProviderKeyRecord String × KeyDb
  store_key now new_id event_id provider request db (err e) = (err e, db)
  store_key now new_id event_id provider request db (ok (d, s)) =
      let row = registered_row now new_id provider request d s in
      (
        ok (from row),
        insert_event (registered_event now event_id row) (record db { keys = db.keys ++ row ∷ [] }),
      )

  abbrev pub check_encoding : Result (String × String) String → Result (String × String) String
  check_encoding (err e) = err e
  check_encoding (ok p) = encoded p

  unfoldable pub register_key :
      (now new_id event_id : ℕ)
      → ℕ
      → RegisterProviderKey
      → KeyDb
      → Result ProviderKeyRecord String × KeyDb
  register_key now new_id event_id provider request db =
      store_key now new_id event_id provider request db (
        check_encoding (
          attested "attestation digest required" "attestation signature required"
            request.attestation_digest request.attestation_signature))

-- ORDER BY created_at DESC
abbrev pub newer : ProviderKeyRow → ProviderKeyRow → Bool
newer a b = ltb b.created_at a.created_at

unfoldable pub list_keys : ℕ → KeyDb → List ProviderKeyRecord
list_keys provider db = map from (order_by newer (select (λ k. k.provider_id == provider) db.keys))

abbrev pub state_active : ProviderKeyState → Bool
state_active active = true
state_active _ = false

-- `Duration::hours(24)`
abbrev pub hours_24 : ℕ
hours_24 = 86400000000000

abbrev pub veto_if : Bool → String → ProviderKeyPolicySummary → ProviderKeyPolicySummary
veto_if test n s = if test then add_veto_note n s else s

abbrev pub check_due : (now : ℕ) → Option ℕ → ProviderKeyPolicySummary → ProviderKeyPolicySummary
check_due now none s = s
check_due now (some due) s =
    if ltb due now
    then add_veto_note "rotation-overdue" s
    else if leb due (now + hours_24)
    then add_veto_note "rotation-approaching" s
    else s

abbrev pub summary_of_active : (now : ℕ) → ProviderKeyRecord → ProviderKeyPolicySummary
summary_of_active now k =
    let signed =
      veto_if (not k.attestation_signature_registered) "attestation-signature-missing" no_summary in
    let timed = check_due now k.rotation_due_at signed in
    let verified =
      veto_if (not (is_some k.attestation_verified_at)) "attestation-unverified" timed in
    record verified { record_of = some k }

abbrev pub summary_of_first : Option ProviderKeyRecord → ProviderKeyPolicySummary
summary_of_first none = no_summary
summary_of_first (some k) = add_veto_note "not-active" (record no_summary { record_of = some k })

abbrev pub summary_of : (now : ℕ) → List ProviderKeyRecord → ProviderKeyPolicySummary
summary_of now [] = add_veto_note "missing" no_summary
summary_of now (k ∷ ks) = elim (find (λ r. state_active r.state) (k ∷ ks)) [
  | some a ↦ summary_of_active now a
  | none ↦ summary_of_first (some k)
]

unfoldable pub summarize_for_policy : (now : ℕ) → ℕ → KeyDb → ProviderKeyPolicySummary
summarize_for_policy now provider db = summary_of now (list_keys provider db)

unfoldable pub tier_requirement : String → KeyDb → Option ProviderTierRequirement
tier_requirement tier db = find (λ t. str_eq t.tier tier) db.tiers
