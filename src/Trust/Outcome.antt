-- ===== src/Trust/Outcome.antt =====
-- `persist_vm_attestation_outcome` of backend/src/policy/trust.rs, and the inserts that it calls, of
-- backend/src/db/runtime_vm_attestations.rs and backend/src/db/runtime_vm_trust_history.rs. Each
-- statement is committed on its own.
use mcp_host.Prelude.{
  ℕ, Bool, Option, none, some, List, [], ◌∷◌, ◌++◌, String, str_eq, format, ◌==◌, if◌then◌else◌,
  length, any, update_where, Value, string, object, no_entry, entry, Entries, ◌&&◌, ℤ, pos, ◌+ℤ◌,
  saturating_inc_i32, ok, err, Exec,
}
use mcp_host.Trust.Attestation.{
  AttestationStatus, trusted, untrusted, unknown, status_str, AttestationOutcome,
}
use mcp_host.Trust.Tables.{
  SqlError, database, RuntimeVmTrustEvent, RuntimeVmAttestationRecord, Certification, TrustDb,
}

pub record TrustTransition : Type 0 where
  pub vm_instance_id : ℕ
  pub server_id : ℕ
  pub previous_status : Option String
  pub current_status : String
  pub previous_lifecycle_state : Option String
  pub lifecycle_state : String
  pub posture_changed : Bool
  pub freshness_expires_at : Option ℕ
  pub remediation_attempts : ℤ
  pub provenance_ref : Option String
  pub provenance : Option Value
  pub attestation : RuntimeVmAttestationRecord
  pub trust_event : RuntimeVmTrustEvent

abbrev pub option_map {ℓ κ} : {A : Type ℓ} {B : Type κ} → (A → B) → Option A → Option B
option_map f none = none
option_map f (some a) = some (f a)

abbrev pub and_then {ℓ κ} : {A : Type ℓ} {B : Type κ} → Option A → (A → Option B) → Option B
and_then none f = none
and_then (some a) f = f a

abbrev pub first {ℓ} : {A : Type ℓ} → List A → Option A
first [] = none
first (x ∷ xs) = some x

abbrev pub or_else {ℓ} : {A : Type ℓ} → Option A → Option A → Option A
or_else none d = d
or_else (some a) d = some a

abbrev find_field : String → Entries → Option Value
find_field name no_entry = none
find_field name (entry key value rest) =
    let found = find_field name rest in if str_eq key name then some value else found

-- `value.get(name).and_then(as_str)`
abbrev pub text_field : String → Value → Option String
text_field name (object fields) = and_then (find_field name fields) as_str
  where
    as_str : Value → Option String
    as_str (string s) = some s
    as_str _ = none
text_field name _ = none

-- The columns of the table's insert, and the values that are given for them.
abbrev pub history_columns : List String
history_columns =
    "runtime_vm_instance_id" ∷ "attestation_id" ∷ "previous_status" ∷ "current_status"
    ∷ "previous_lifecycle_state" ∷ "current_lifecycle_state" ∷ "transition_reason"
    ∷ "remediation_state" ∷ "remediation_attempts" ∷ "freshness_deadline" ∷ "provenance_ref"
    ∷ "provenance" ∷ "metadata" ∷ []

abbrev pub history_values : List ℕ
history_values = 1 ∷ 2 ∷ 3 ∷ 4 ∷ 5 ∷ 6 ∷ 7 ∷ 8 ∷ 9 ∷ 10 ∷ 11 ∷ 12 ∷ []

-- INSERT INTO runtime_vm_trust_history (...) VALUES (...): the database refuses a statement whose
-- columns and values differ in number.
unfoldable pub insert_trust_event : RuntimeVmTrustEvent → Exec TrustDb SqlError RuntimeVmTrustEvent
insert_trust_event event db =
    if length history_columns == length history_values
    then (ok event, record db { history = db.history ++ event ∷ [] })
    else (err (database "INSERT has more target columns than expressions"), db)

unfoldable pub insert_attestation :
    RuntimeVmAttestationRecord → Exec TrustDb SqlError RuntimeVmAttestationRecord
insert_attestation row db = (ok row, record db { attestations = db.attestations ++ row ∷ [] })

-- UPDATE runtime_vm_instances SET attestation_status = $1, attestation_evidence = COALESCE($2, ...)
unfoldable pub set_instance_status : ℕ → AttestationOutcome → TrustDb → TrustDb
set_instance_status instance o db = record db {
  instances =
      update_where (λ r. r.id == instance)
        (λ r. record r {
          attestation_status = status_str o.status;
          attestation_evidence = or_else o.evidence r.attestation_evidence;
        })
        db.instances;
}

unfoldable pub attempts_after : AttestationStatus → ℤ → ℤ
attempts_after untrusted previous = saturating_inc_i32 previous
attempts_after trusted previous = pos 0
attempts_after unknown previous = previous

abbrev pub or_zero : Option ℤ → ℤ
or_zero none = pos 0
or_zero (some v) = v

abbrev pub is_status : Option String → String → Bool
is_status none s = Bool.false
is_status (some t) s = str_eq t s

-- CASE WHEN governance_notes IS NULL OR governance_notes = '' THEN $3 ELSE ... END
abbrev append_note : Option String → String → String
append_note none note = note
append_note (some old) note = if str_eq old "" then note else format (old ∷ "\n" ∷ note ∷ [])

unfoldable pub certified : (db_now : ℕ) → AttestationStatus → String → Certification → Certification
certified db_now status note c = record c {
  last_attestation_status = some (status_str status);
  fallback_launched_at = fallback status;
  remediation_attempts = attempts status;
  governance_notes = some (append_note c.governance_notes note);
  updated_at = db_now;
}
  where
    fallback : AttestationStatus → Option ℕ
    fallback untrusted = or_else c.fallback_launched_at (some db_now)
    fallback trusted = none
    fallback unknown = c.fallback_launched_at

    attempts : AttestationStatus → ℤ
    attempts untrusted = c.remediation_attempts +ℤ pos 1
    attempts _ = c.remediation_attempts

-- UPDATE evaluation_certifications ... WHERE build_artifact_run_id IN (...)
unfoldable pub certify : (db_now : ℕ) → ℕ → AttestationStatus → String → TrustDb → TrustDb
certify db_now server status note db = record db {
  certifications =
      update_where
        (λ c.
          any (λ a. (a.server_id == server) && (a.id == c.build_artifact_run_id)) db.artifact_runs)
        (certified db_now status note) db.certifications;
}
