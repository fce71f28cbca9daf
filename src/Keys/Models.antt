-- ===== src/Keys/Models.antt =====
-- backend/src/keys/models.rs and policy.rs, and the tables of backend/src/keys/service.rs.
use mcp_host.Prelude.{
  ℕ, ◌≡◌, refl, Bool, true, false, Option, none, some, List, [], ◌∷◌, ◌++◌, String, str_eq, Value,
  ℤ, if◌then◌else◌,
}
use mcp_host.Trust.Outcome.{option_map}

pub data ProviderKeyState : Type 0 where
  pending_registration active rotating retired compromised : ProviderKeyState

-- `ProviderKeyState::as_str`
unfoldable pub state_str : ProviderKeyState → String
state_str pending_registration = "pending_registration"
state_str active = "active"
state_str rotating = "rotating"
state_str retired = "retired"
state_str compromised = "compromised"

-- `ProviderKeyState::from_str`: a text that is no state's is read as `PendingRegistration`.
unfoldable pub state_from_str : String → ProviderKeyState
state_from_str value =
    if str_eq value "active"
    then active
    else if str_eq value "rotating"
    then rotating
    else if str_eq value "retired"
    then retired
    else if str_eq value "compromised"
    then compromised
    else pending_registration

-- A row of provider_keys.
pub record ProviderKeyRow : Type 0 where
  pub id : ℕ
  pub provider_id : ℕ
  pub alias : Option String
  pub state : String
  pub rotation_due_at : Option ℕ
  pub attestation_digest : Option String
  pub attestation_signature : Option String
  pub attestation_verified_at : Option ℕ
  pub activated_at : Option ℕ
  pub retired_at : Option ℕ
  pub compromised_at : Option ℕ
  pub version : ℤ
  pub created_at : ℕ
  pub updated_at : ℕ

pub record ProviderKeyRecord : Type 0 where
  pub id : ℕ
  pub provider_id : ℕ
  pub alias : Option String
  pub state : ProviderKeyState
  pub rotation_due_at : Option ℕ
  pub attestation_digest : Option String
  pub attestation_signature_registered : Bool
  pub attestation_verified_at : Option ℕ
  pub activated_at : Option ℕ
  pub retired_at : Option ℕ
  pub compromised_at : Option ℕ
  pub version : ℤ
  pub created_at : ℕ
  pub updated_at : ℕ

abbrev pub is_some {ℓ} : {A : Type ℓ} → Option A → Bool
is_some none = false
is_some (some a) = true

-- `ProviderKeyRecord::from`, of a row that is selected with `attestation_signature IS NOT NULL`
abbrev pub from : ProviderKeyRow → ProviderKeyRecord
from row = record {
  id = row.id;
  provider_id = row.provider_id;
  alias = row.alias;
  state = state_from_str row.state;
  rotation_due_at = row.rotation_due_at;
  attestation_digest = row.attestation_digest;
  attestation_signature_registered = is_some row.attestation_signature;
  attestation_verified_at = row.attestation_verified_at;
  activated_at = row.activated_at;
  retired_at = row.retired_at;
  compromised_at = row.compromised_at;
  version = row.version;
  created_at = row.created_at;
  updated_at = row.updated_at;
}

pub record ProviderKeyBindingScope : Type 0 where
  pub binding_type : String
  pub binding_target_id : ℕ
  pub additional_context : Value

pub record ProviderKeyBindingRecord : Type 0 where
  pub id : ℕ
  pub provider_key_id : ℕ
  pub binding_type : String
  pub binding_target_id : ℕ
  pub binding_scope : Value
  pub created_at : ℕ
  pub revoked_at : Option ℕ
  pub revoked_reason : Option String
  pub version : ℤ

pub data ProviderKeyRotationStatus : Type 0 where
  pending_approval rotation_approved rotation_failed : ProviderKeyRotationStatus

pub record ProviderKeyRotationRecord : Type 0 where
  pub id : ℕ
  pub provider_key_id : ℕ
  pub requested_at : ℕ
  pub approved_at : Option ℕ
  pub status : ProviderKeyRotationStatus
  pub evidence_uri : Option String
  pub request_actor_ref : Option String
  pub approval_actor_ref : Option String
  pub failure_reason : Option String
  pub attestation_digest : Option String
  pub attestation_signature_verified : Bool
  pub metadata : Value

pub record ProviderTierRequirement : Type 0 where
  pub tier : String
  pub provider_id : ℕ
  pub byok_required : Bool

pub record ProviderKeyPolicySummary : Type 0 where
  pub record_of : Option ProviderKeyRecord
  pub notes : List String
  pub vetoed : Bool

-- `ProviderKeyPolicySummary::default`
abbrev pub no_summary : ProviderKeyPolicySummary
no_summary = record { record_of = none; notes = []; vetoed = false }

-- `add_note`, `add_veto_note` and `posture_state`
unfoldable pub add_note : String → ProviderKeyPolicySummary → ProviderKeyPolicySummary
add_note n s = record s { notes = s.notes ++ n ∷ [] }

unfoldable pub add_veto_note : String → ProviderKeyPolicySummary → ProviderKeyPolicySummary
add_veto_note n s = record s { vetoed = true; notes = s.notes ++ n ∷ [] }

unfoldable pub posture_state : ProviderKeyPolicySummary → Option ProviderKeyState
posture_state s = option_map (λ r. r.state) s.record_of

-- Every state is read back from its text.
pub state_from_str-state_str : (s : ProviderKeyState) → state_from_str (state_str s) ≡ s
unfolding state_from_str state_str
state_from_str-state_str pending_registration = refl
state_from_str-state_str active = refl
state_from_str-state_str rotating = refl
state_from_str-state_str retired = refl
state_from_str-state_str compromised = refl
