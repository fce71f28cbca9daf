-- ===== src/Marketplace/Posture.antt =====
-- backend/src/marketplace.rs: whether a provider may submit.
use mcp_host.Prelude.{
  ℕ, Bool, false, not, Option, none, some, List, [], ◌∷◌, String, Value, object, array, string,
  bool, null, no_entry, entry, Elements, no_element, element, format, ◌==◌, ◌&&◌, if◌then◌else◌,
  Result, ok, err,
}
use mcp_host.Error.{AppError, bad_request, forbidden}
use mcp_host.Keys.Models.{
  ProviderKeyRecord, ProviderKeyPolicySummary, ProviderTierRequirement, is_some, state_str,
}
use mcp_host.Keys.Events.{KeyDb}
use mcp_host.Keys.Register.{summarize_for_policy, tier_requirement}
use mcp_host.Marketplace.Models.{ProviderPostureSnapshot}
use mcp_host.Policy.Backends.{join}

abbrev pub texts : List String → Elements
texts [] = no_element
texts (s ∷ ss) = element (string s) (texts ss)

abbrev pub vetoed_reason : List String → String
vetoed_reason [] = "provider posture vetoed"
vetoed_reason (n ∷ ns) = format ("provider posture vetoed: " ∷ join (n ∷ ns) ∷ [])

abbrev pub of_another : ℕ → Option ProviderTierRequirement → Bool
of_another provider none = false
of_another provider (some q) = not (q.provider_id == provider)

abbrev pub lacks_key : Option ProviderTierRequirement → ProviderKeyPolicySummary → Bool
lacks_key none s = false
lacks_key (some q) s = q.byok_required && not (is_some s.record_of)

module _ (uuid rfc3339 : ℕ → String) where
  abbrev pub instant : Option ℕ → Value
  instant none = null
  instant (some t) = string (rfc3339 t)

  abbrev requirement_payload : Option ProviderTierRequirement → Value
  requirement_payload none = null
  requirement_payload (some q) = object (
      entry "tier" (string q.tier) (
        entry "provider_id" (string (uuid q.provider_id))
          (entry "byok_required" (bool q.byok_required) no_entry)))

  abbrev record_payload : Option ProviderKeyRecord → Value
  record_payload none = null
  record_payload (some k) = object (
      entry "provider_key_id" (string (uuid k.id)) (
        entry "state" (string (state_str k.state)) (
          entry "rotation_due_at" (instant k.rotation_due_at) (
            entry "attestation_verified_at" (instant k.attestation_verified_at) (
              entry "attestation_signature_registered" (bool k.attestation_signature_registered) (
                entry "attestation_digest_present" (bool (is_some k.attestation_digest))
                  no_entry))))))

  unfoldable pub ensure_posture_summary_state :
      ℕ → String → ProviderKeyPolicySummary → Option ProviderTierRequirement → Value
  ensure_posture_summary_state provider tier s requirement = object (
      entry "provider_id" (string (uuid provider)) (
        entry "tier" (string tier) (
          entry "requirement" (requirement_payload requirement) (
            entry "notes" (array (texts s.notes)) (
              entry "vetoed" (bool s.vetoed)
                (entry "record" (record_payload s.record_of) no_entry))))))

  unfoldable pub ensure_provider_marketplace_eligible :
      (now : ℕ) → ℕ → String → KeyDb → Result ProviderPostureSnapshot AppError
  ensure_provider_marketplace_eligible now provider tier db =
      let s = summarize_for_policy now provider db in
      let requirement = tier_requirement tier db in
      if of_another provider requirement
      then err forbidden
      else if s.vetoed
      then err (bad_request (vetoed_reason s.notes))
      else if lacks_key requirement s
      then err (bad_request "provider must maintain an active BYOK key")
      else ok (record {
        state = ensure_posture_summary_state provider tier s requirement;
        vetoed = s.vetoed;
        notes = s.notes;
      })
