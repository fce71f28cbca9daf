-- ===== src/Trust/Effects.antt =====
-- What `persist_vm_attestation_outcome` of backend/src/policy/trust.rs leaves in the tables.
use mcp_host.Prelude.{ℕ, ◌≡◌, refl, Option, some, List, [], ◌∷◌, ◌++◌, String, Result, err}
use mcp_host.Trust.Attestation.{status_str, AttestationOutcome}
use mcp_host.Trust.Lifecycle.{lifecycle_str, lifecycle_for_attestation}
use mcp_host.Trust.Tables.{SqlError, database, RuntimeVmTrustRegistryState, TrustDb}
use mcp_host.Trust.Registry.{get_state, upsert_state}
use mcp_host.Trust.Outcome.{
  TrustTransition, option_map, or_zero, attempts_after, set_instance_status, insert_attestation,
  insert_trust_event,
}
use mcp_host.Trust.Persist.{
  previous_lifecycle, registry_input, attestation_row, persist_registry,
  persist_vm_attestation_outcome,
}
use mcp_host.Trust.Versions.{upsert_state-own_version}

module _ (decode : String → Option (List ℕ)) (stamp : String) (db_now next_id server instance : ℕ)
    (o : AttestationOutcome) (notes : List String) (db : TrustDb) where
  abbrev before_write : TrustDb
  before_write = set_instance_status instance o (record db {
    attestations =
        db.attestations ++ attestation_row decode stamp db_now next_id instance o notes ∷ [];
  })

  abbrev persisted : Result TrustTransition SqlError × TrustDb
  persisted = persist_vm_attestation_outcome decode stamp db_now next_id server instance o notes db

  get_state-before_write : get_state before_write instance ≡ get_state db instance
  unfolding get_state set_instance_status
  get_state-before_write = refl

  -- Whatever the outcome of an attestation is, the database refuses the insert into the trust history,
  -- which names thirteen columns and gives twelve values: the call ends in that error. Before it, the
  -- registry was written with the lifecycle state and the attempts that follow from the outcome and
  -- the row that was there; the history and the certifications stay as they were.
  pub persist_refused :
      (r : RuntimeVmTrustRegistryState) × (persisted.0
        ≡ err (database "INSERT has more target columns than expressions"))
      × (get_state persisted.1 instance ≡ some r)
      × (r.lifecycle_state
          ≡ lifecycle_str
              (lifecycle_for_attestation o.status (previous_lifecycle (get_state db instance))))
      × (r.remediation_attempts
          ≡ attempts_after o.status (
              or_zero (
                option_map
                  (λ (t : RuntimeVmTrustRegistryState). t.remediation_attempts)
                  (get_state db instance))))
      × (r.attestation_status ≡ status_str o.status)
      × (r.freshness_deadline ≡ o.freshness_deadline)
      × (persisted.1.history ≡ db.history)
      × (persisted.1.certifications ≡ db.certifications)
      × (persisted.1.instances ≡ (set_instance_status instance o db).instances)
      × (persisted.1.runs ≡ db.runs)
  unfolding persist_vm_attestation_outcome persist_registry insert_attestation set_instance_status
      insert_trust_event registry_input get_state
  persist_refused =
      let (r, db', wrote, there, l, a, st, d, h, c, ins, runs) =
        upsert_state-own_version db_now (registry_input instance o notes (get_state db instance))
          before_write refl in
      rw (wrote, upsert_state) (r, refl, there, l, a, st, d, h, c, ins, runs)
