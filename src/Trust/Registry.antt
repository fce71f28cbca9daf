-- ===== src/Trust/Registry.antt =====
-- backend/src/db/runtime_vm_trust_registry.rs. `db_now` is the database's `NOW()`.
use mcp_host.Prelude.{
  ℕ, Option, none, some, List, [], ◌∷◌, ◌++◌, String, Value, ◌==◌, if◌then◌else◌, find,
  update_where, ℤ, pos, negsuc, ◌+ℤ◌, eq_ℤ, Result, ok, err, Exec,
}
use mcp_host.Trust.Tables.{
  SqlError, row_not_found, RuntimeVmTrustRegistryState, RuntimeVmTrustEvent, TrustDb,
}

pub record UpsertRuntimeVmTrustRegistryState : Type 0 where
  pub runtime_vm_instance_id : ℕ
  pub attestation_status : String
  pub lifecycle_state : String
  pub remediation_state : Option String
  pub remediation_attempts : ℤ
  pub freshness_deadline : Option ℕ
  pub provenance_ref : Option String
  pub provenance : Option Value
  pub expected_version : Option ℤ

pub record ApplyRuntimeVmTrustTransition : Type 0 where
  pub state : UpsertRuntimeVmTrustRegistryState
  pub open state use *
  pub previous_status : Option String
  pub previous_lifecycle_state : Option String
  pub transition_reason : String
  pub metadata : Option Value

unfoldable pub get_state : TrustDb → ℕ → Option RuntimeVmTrustRegistryState
get_state db instance = find (λ r. r.runtime_vm_instance_id == instance) db.registry

abbrev pub or_minus_one : Option ℤ → ℤ
or_minus_one none = negsuc 0
or_minus_one (some v) = v

-- VALUES ($1, ..., $8, 0)
abbrev pub fresh_row :
    (db_now : ℕ) → UpsertRuntimeVmTrustRegistryState → RuntimeVmTrustRegistryState
fresh_row db_now i = record {
  runtime_vm_instance_id = i.runtime_vm_instance_id;
  attestation_status = i.attestation_status;
  lifecycle_state = i.lifecycle_state;
  remediation_state = i.remediation_state;
  remediation_attempts = i.remediation_attempts;
  freshness_deadline = i.freshness_deadline;
  provenance_ref = i.provenance_ref;
  provenance = i.provenance;
  version = pos 0;
  updated_at = db_now;
}

-- DO UPDATE SET ...
abbrev pub next_row :
    (db_now : ℕ)
    → UpsertRuntimeVmTrustRegistryState
    → RuntimeVmTrustRegistryState
    → RuntimeVmTrustRegistryState
next_row db_now i r = record (fresh_row db_now i) {
  runtime_vm_instance_id = r.runtime_vm_instance_id;
  version = r.version +ℤ pos 1;
}

abbrev pub set_registry : List RuntimeVmTrustRegistryState → TrustDb → TrustDb
set_registry rows db = record db { registry = rows }

-- INSERT ... ON CONFLICT DO UPDATE ... WHERE version = $9 RETURNING *: the row that was written.
unfoldable pub write_state :
    (db_now : ℕ)
    → UpsertRuntimeVmTrustRegistryState
    → TrustDb
    → Option RuntimeVmTrustRegistryState × TrustDb
write_state db_now i db = elim (get_state db i.runtime_vm_instance_id) [
  | none ↦ (some (fresh_row db_now i), set_registry (db.registry ++ fresh_row db_now i ∷ []) db)
  | some r ↦
      if eq_ℤ r.version (or_minus_one i.expected_version)
      then (
        some (next_row db_now i r),
        set_registry
            (update_where (λ t. t.runtime_vm_instance_id == i.runtime_vm_instance_id)
              (next_row db_now i) db.registry)
            db,
      )
      else (none, db)
]

abbrev or_not_found :
    Option RuntimeVmTrustRegistryState → Result RuntimeVmTrustRegistryState SqlError
or_not_found none = err row_not_found
or_not_found (some r) = ok r

unfoldable pub upsert_state :
    (db_now : ℕ)
    → UpsertRuntimeVmTrustRegistryState
    → Exec TrustDb SqlError RuntimeVmTrustRegistryState
upsert_state db_now i db = let (row, db') = write_state db_now i db in (or_not_found row, db')

abbrev pub append_history : RuntimeVmTrustEvent → TrustDb → TrustDb
append_history event db = record db { history = db.history ++ event ∷ [] }

-- The row of the common table expression `history`.
abbrev pub transition_event :
    (db_now : ℕ) → ApplyRuntimeVmTrustTransition → RuntimeVmTrustRegistryState → RuntimeVmTrustEvent
transition_event db_now i r = record {
  runtime_vm_instance_id = i.runtime_vm_instance_id;
  attestation_id = none;
  previous_status = i.previous_status;
  current_status = r.attestation_status;
  previous_lifecycle_state = i.previous_lifecycle_state;
  current_lifecycle_state = r.lifecycle_state;
  transition_reason = some i.transition_reason;
  remediation_state = r.remediation_state;
  remediation_attempts = i.remediation_attempts;
  freshness_deadline = r.freshness_deadline;
  provenance_ref = r.provenance_ref;
  provenance = r.provenance;
  metadata = i.metadata;
  triggered_at = db_now;
}

-- One statement: the history has a row exactly where the registry was written.
unfoldable pub apply_transition :
    (db_now : ℕ) → ApplyRuntimeVmTrustTransition → Exec TrustDb SqlError RuntimeVmTrustRegistryState
apply_transition db_now i db =
    let (row, db') = write_state db_now i.state db in
    elim row [
      | none ↦ (err row_not_found, db')
      | some r ↦ (ok r, append_history (transition_event db_now i r) db')
    ]
