-- ===== src/Keys/Events.antt =====
-- backend/src/keys/events.rs, and the tables of the key service with the ways events reach them. An event
-- that the database announces on the service's channel is in `notified`.
use mcp_host.Prelude.{
  ℕ, ◌+◌, ◌≡◌, refl, Bool, Option, none, some, List, [], ◌∷◌, ◌++◌, String, str_eq, Value, ◌==◌,
  leb, ◌&&◌, any, if◌then◌else◌,
}
use mcp_host.Keys.Models.{
  ProviderKeyRow, ProviderKeyBindingRecord, ProviderKeyRotationRecord, ProviderTierRequirement,
}

pub data ProviderKeyAuditEventType : Type 0 where
  registered activation_approved rotation_requested rotation_approved rotation_failed
        rotation_sla_warning rotation_sla_breached compromised retired revocation_initiated
        revocation_completed binding_attached binding_revoked runtime_veto :
      ProviderKeyAuditEventType

unfoldable pub event_str : ProviderKeyAuditEventType → String
event_str registered = "registered"
event_str activation_approved = "activation_approved"
event_str rotation_requested = "rotation_requested"
event_str rotation_approved = "rotation_approved"
event_str rotation_failed = "rotation_failed"
event_str rotation_sla_warning = "rotation_sla_warning"
event_str rotation_sla_breached = "rotation_sla_breached"
event_str compromised = "compromised"
event_str retired = "retired"
event_str revocation_initiated = "revocation_initiated"
event_str revocation_completed = "revocation_completed"
event_str binding_attached = "binding_attached"
event_str binding_revoked = "binding_revoked"
event_str runtime_veto = "runtime_veto"

unfoldable pub event_from_str : String → Option ProviderKeyAuditEventType
event_from_str value =
    if str_eq value "registered"
    then some registered
    else if str_eq value "activation_approved"
    then some activation_approved
    else if str_eq value "rotation_requested"
    then some rotation_requested
    else if str_eq value "rotation_approved"
    then some rotation_approved
    else if str_eq value "rotation_failed"
    then some rotation_failed
    else if str_eq value "rotation_sla_warning"
    then some rotation_sla_warning
    else if str_eq value "rotation_sla_breached"
    then some rotation_sla_breached
    else if str_eq value "compromised"
    then some compromised
    else if str_eq value "retired"
    then some retired
    else if str_eq value "revocation_initiated"
    then some revocation_initiated
    else if str_eq value "revocation_completed"
    then some revocation_completed
    else if str_eq value "binding_attached"
    then some binding_attached
    else if str_eq value "binding_revoked"
    then some binding_revoked
    else if str_eq value "runtime_veto"
    then some runtime_veto
    else none

event_from_str-event_str : (t : ProviderKeyAuditEventType) → event_from_str (event_str t) ≡ some t
unfolding event_from_str event_str
event_from_str-event_str registered = refl
event_from_str-event_str activation_approved = refl
event_from_str-event_str rotation_requested = refl
event_from_str-event_str rotation_approved = refl
event_from_str-event_str rotation_failed = refl
event_from_str-event_str rotation_sla_warning = refl
event_from_str-event_str rotation_sla_breached = refl
event_from_str-event_str compromised = refl
event_from_str-event_str retired = refl
event_from_str-event_str revocation_initiated = refl
event_from_str-event_str revocation_completed = refl
event_from_str-event_str binding_attached = refl
event_from_str-event_str binding_revoked = refl
event_from_str-event_str runtime_veto = refl

-- A row of provider_key_audit_events; its type is kept as the source's enumeration, whose texts differ.
pub record ProviderKeyAuditEvent : Type 0 where
  pub id : ℕ
  pub provider_id : ℕ
  pub provider_key_id : Option ℕ
  pub event_type : ProviderKeyAuditEventType
  pub payload : Value
  pub occurred_at : ℕ

pub record KeyDb : Type 0 where
  pub keys : List ProviderKeyRow
  pub rotations : List ProviderKeyRotationRecord
  pub bindings : List ProviderKeyBindingRecord
  pub events : List ProviderKeyAuditEvent
  pub tiers : List ProviderTierRequirement
  pub notified : List ProviderKeyAuditEvent

abbrev pub insert_event : ProviderKeyAuditEvent → KeyDb → KeyDb
insert_event e db = record db { events = db.events ++ e ∷ [] }

-- `dispatch_notification`, given the configured channel
unfoldable pub dispatch_notification : String → ProviderKeyAuditEvent → KeyDb → KeyDb
dispatch_notification channel e db =
    if str_eq channel "" then db else record db { notified = db.notified ++ e ∷ [] }

abbrev pub is_key : ℕ → Option ℕ → Bool
is_key key none = Bool.false
is_key key (some id) = id == key

-- An event of the key and the type since `occurred_at - dedupe_interval`, written as a sum.
abbrev pub since : (dedupe_interval : ℕ) → ℕ → ProviderKeyAuditEvent → ProviderKeyAuditEvent → Bool
since dedupe_interval key e old =
    is_key key old.provider_key_id
    && str_eq (event_str old.event_type) (event_str e.event_type)
    && leb e.occurred_at (old.occurred_at + dedupe_interval)

-- `insert_audit_event_if_absent`, of an event that names its key; it answers whether it was inserted.
unfoldable pub insert_audit_event_if_absent :
    String → (dedupe_interval : ℕ) → ℕ → ProviderKeyAuditEvent → KeyDb → Bool × KeyDb
insert_audit_event_if_absent channel dedupe_interval key e db =
    if any (since dedupe_interval key e) db.events
    then (Bool.false, db)
    else (Bool.true, dispatch_notification channel e (insert_event e db))
