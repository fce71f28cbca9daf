-- ===== src/Trust/Versions.antt =====
-- The optimistic lock of the trust registry, backend/src/db/runtime_vm_trust_registry.rs.
use mcp_host.Prelude.{
  ℕ, ◌≡◌, ◌≢◌, refl, ◌∙◌, true, false, Option, none, some, List, [], ◌∷◌, ◌++◌, arith, ◌==◌, ==_iff,
  ==_refl, find, update_where, inl, inr, Bool-cases, Option-cases, ℤ, pos, ◌+ℤ◌, eq_ℤ, eq_ℤ_refl,
  +ℤ_parts, ok, err,
}
use mcp_host.Trust.Tables.{row_not_found, RuntimeVmTrustRegistryState, TrustDb}
use mcp_host.Trust.Registry.{
  UpsertRuntimeVmTrustRegistryState, get_state, or_minus_one, fresh_row, next_row, set_registry,
  write_state, upsert_state,
}
use mcp_host.Trust.Outcome.{option_map}

module _ (k : ℕ) (row : RuntimeVmTrustRegistryState) (here : row.runtime_vm_instance_id ≡ k) where
  find-append :
      (rows : List RuntimeVmTrustRegistryState)
      → find (λ r. r.runtime_vm_instance_id == k) rows ≡ none
      → find (λ r. r.runtime_vm_instance_id == k) (rows ++ row ∷ []) ≡ some row
  find-append [] e = rw (here, ==_refl k) refl
  find-append (x ∷ xs) e = ground (arith, find-append xs)

  find-append_other :
      (j : ℕ)
      → j ≢ k
      → (rows : List RuntimeVmTrustRegistryState)
      → find (λ r. r.runtime_vm_instance_id == j) (rows ++ row ∷ [])
        ≡ find (λ r. r.runtime_vm_instance_id == j) rows
  find-append_other j n [] = ground (arith, here)
  find-append_other j n (x ∷ xs) = rw (find-append_other j n xs) refl

module _ (k : ℕ) (change : RuntimeVmTrustRegistryState → RuntimeVmTrustRegistryState)
    (keeps : (r : RuntimeVmTrustRegistryState)
      → (change r).runtime_vm_instance_id ≡ r.runtime_vm_instance_id) where
  find-update :
      (rows : List RuntimeVmTrustRegistryState)
      → find
          (λ r. r.runtime_vm_instance_id == k)
          (update_where (λ r. r.runtime_vm_instance_id == k) change rows)
        ≡ option_map change (find (λ r. r.runtime_vm_instance_id == k) rows)
  find-update [] = refl
  find-update (x ∷ xs) = elim (Bool-cases (x.runtime_vm_instance_id == k)) [
    | inl e ↦ rw e (rw (keeps x) (rw e refl))
    | inr e ↦ rw e (rw e (find-update xs))
  ]

  find-update_other :
      (j : ℕ)
      → j ≢ k
      → (rows : List RuntimeVmTrustRegistryState)
      → find
          (λ r. r.runtime_vm_instance_id == j)
          (update_where (λ r. r.runtime_vm_instance_id == k) change rows)
        ≡ find (λ r. r.runtime_vm_instance_id == j) rows
  find-update_other j n [] = refl
  find-update_other j n (x ∷ xs) = elim (Bool-cases (x.runtime_vm_instance_id == k)) [
    | inl e ↦
        let away : (x.runtime_vm_instance_id == j) ≡ false =
          ground (arith, ==_iff x.runtime_vm_instance_id k) in
        rw e (rw (keeps x) (rw away (find-update_other j n xs)))
    | inr e ↦ rw e (rw (find-update_other j n xs) refl)
  ]

next_row-keeps :
    (db_now : ℕ) (i : UpsertRuntimeVmTrustRegistryState) (r : RuntimeVmTrustRegistryState)
    → (next_row db_now i r).runtime_vm_instance_id ≡ r.runtime_vm_instance_id
next_row-keeps db_now i r = refl

module _ (db_now : ℕ) (i : UpsertRuntimeVmTrustRegistryState) (db : TrustDb) where
  abbrev pub instance_id : ℕ
  instance_id = i.runtime_vm_instance_id

  abbrev pub inserted : TrustDb
  inserted = set_registry (db.registry ++ fresh_row db_now i ∷ []) db

  abbrev pub updated : TrustDb
  updated =
      set_registry
        (update_where (λ t. t.runtime_vm_instance_id == instance_id) (next_row db_now i)
          db.registry)
        db

  pub write-fresh :
      get_state db instance_id ≡ none
      → write_state db_now i db ≡ (some (fresh_row db_now i), inserted)
  unfolding write_state
  write-fresh n = rw (n, write_state) refl

  pub write-next :
      (s : RuntimeVmTrustRegistryState)
      → get_state db instance_id ≡ some s
      → eq_ℤ s.version (or_minus_one i.expected_version) ≡ true
      → write_state db_now i db ≡ (some (next_row db_now i s), updated)
  unfolding write_state
  write-next s m v = rw (m, write_state) (rw v refl)

  pub write-stale :
      (s : RuntimeVmTrustRegistryState)
      → get_state db instance_id ≡ some s
      → eq_ℤ s.version (or_minus_one i.expected_version) ≡ false
      → write_state db_now i db ≡ (none, db)
  unfolding write_state
  write-stale s m v = rw (m, write_state) (rw v refl)

  pub inserted-get_state :
      get_state db instance_id ≡ none → get_state inserted instance_id ≡ some (fresh_row db_now i)
  unfolding get_state
  inserted-get_state n = find-append instance_id (fresh_row db_now i) refl db.registry n

  pub updated-get_state :
      (s : RuntimeVmTrustRegistryState)
      → get_state db instance_id ≡ some s
      → get_state updated instance_id ≡ some (next_row db_now i s)
  unfolding get_state
  updated-get_state s m =
      rw (find-update instance_id (next_row db_now i) (next_row-keeps db_now i) db.registry)
        (rw m refl)

  -- A write of one instance's registry row leaves every other instance's row as it was.
  pub write_state-get_state_other :
      (j : ℕ)
      → j ≢ i.runtime_vm_instance_id
      → get_state (write_state db_now i db).1 j ≡ get_state db j
  unfolding get_state
  write_state-get_state_other j n = elim (Option-cases (get_state db instance_id)) [
    | inl e ↦
        rw (write-fresh e) (find-append_other instance_id (fresh_row db_now i) refl j n db.registry)
    | inr (s, m) ↦ elim (Bool-cases (eq_ℤ s.version (or_minus_one i.expected_version))) [
      | inl v ↦ rw (write-next s m v) (
          find-update_other instance_id (next_row db_now i) (next_row-keeps db_now i) j n
            db.registry)
      | inr v ↦ rw (write-stale s m v) refl
    ]
  ]

  -- The row that a write answers with is the row that it leaves.
  pub write_state-get_state :
      (r : RuntimeVmTrustRegistryState)
      → (write_state db_now i db).0 ≡ some r
      → get_state (write_state db_now i db).1 i.runtime_vm_instance_id ≡ some r
  write_state-get_state r e = elim (Option-cases (get_state db instance_id)) [
    | inl n ↦ rw (write-fresh n) (inserted-get_state n) ∙ (rw (write-fresh n) at e)
    | inr (s, m) ↦ elim (Bool-cases (eq_ℤ s.version (or_minus_one i.expected_version))) [
      | inl v ↦ rw (write-next s m v) (updated-get_state s m) ∙ (rw (write-next s m v) at e)
      | inr v ↦ cc (rw (write-stale s m v) at e)
    ]
  ]

next-differs : (a : ℤ) → eq_ℤ (a +ℤ pos 1) a ≡ false
next-differs a = ground (arith, +ℤ_parts a (pos 1))

abbrev read_version : TrustDb → ℕ → Option ℤ
read_version db k = option_map (λ (r : RuntimeVmTrustRegistryState). r.version) (get_state db k)

upsert-some :
    (db_now : ℕ) (i : UpsertRuntimeVmTrustRegistryState) (db after : TrustDb)
    (r : RuntimeVmTrustRegistryState)
    → write_state db_now i db ≡ (some r, after)
    → upsert_state db_now i db ≡ (ok r, after)
unfolding upsert_state
upsert-some db_now i db after r e = rw e refl

upsert-none :
    (db_now : ℕ) (i : UpsertRuntimeVmTrustRegistryState) (db after : TrustDb)
    → write_state db_now i db ≡ (none, after)
    → upsert_state db_now i db ≡ (err row_not_found, after)
unfolding upsert_state
upsert-none db_now i db after e = rw e refl

module _ (db_now later : ℕ) (i j : UpsertRuntimeVmTrustRegistryState) (db : TrustDb)
    (same : j.runtime_vm_instance_id ≡ i.runtime_vm_instance_id)
    (read_i : i.expected_version ≡ read_version db i.runtime_vm_instance_id)
    (read_j : j.expected_version ≡ read_version db i.runtime_vm_instance_id) where
  stale_after_insert :
      get_state db i.runtime_vm_instance_id ≡ none
      → upsert_state later j (inserted db_now i db) ≡ (err row_not_found, inserted db_now i db)
  stale_after_insert n = upsert-none later j _ _ (
      write-stale later j (inserted db_now i db) (fresh_row db_now i)
        (rw same (inserted-get_state db_now i db n)) (rw read_j (rw n refl)))

  stale_after_update :
      (s : RuntimeVmTrustRegistryState)
      → get_state db i.runtime_vm_instance_id ≡ some s
      → upsert_state later j (updated db_now i db) ≡ (err row_not_found, updated db_now i db)
  stale_after_update s m = upsert-none later j _ _ (
      write-stale later j (updated db_now i db) (next_row db_now i s)
        (rw same (updated-get_state db_now i db s m)) (rw read_j (rw m (next-differs s.version))))

  -- Two writers that read the version of the same registry row, or both found no row, and then write
  -- one after the other: the first write succeeds, and the second is refused and writes nothing.
  pub upsert_state-lost_update :
      (r : RuntimeVmTrustRegistryState) × (db' : TrustDb) × (upsert_state db_now i db ≡ (ok r, db'))
      × (upsert_state later j db' ≡ (err row_not_found, db'))
  upsert_state-lost_update = elim (Option-cases (get_state db i.runtime_vm_instance_id)) [
    | inl n ↦ (
      fresh_row db_now i,
      inserted db_now i db,
      upsert-some db_now i db _ _ (write-fresh db_now i db n),
      stale_after_insert n,
    )
    | inr (s, m) ↦ (
      next_row db_now i s,
      updated db_now i db,
      upsert-some db_now i db _ _
          (write-next db_now i db s m (rw read_i (rw m (eq_ℤ_refl s.version)))),
      stale_after_update s m,
    )
  ]

-- A writer that read the registry row before it writes is not refused, and leaves its own row there.
pub upsert_state-own_version :
    (db_now : ℕ) (i : UpsertRuntimeVmTrustRegistryState) (db : TrustDb)
    → i.expected_version ≡ read_version db i.runtime_vm_instance_id
    → (r : RuntimeVmTrustRegistryState) × (db' : TrustDb) × (upsert_state db_now i db ≡ (ok r, db'))
      × (get_state db' i.runtime_vm_instance_id ≡ some r)
      × (r.lifecycle_state ≡ i.lifecycle_state)
      × (r.remediation_attempts ≡ i.remediation_attempts)
      × (r.attestation_status ≡ i.attestation_status)
      × (r.freshness_deadline ≡ i.freshness_deadline)
      × (db'.history ≡ db.history)
      × (db'.certifications ≡ db.certifications)
      × (db'.instances ≡ db.instances)
      × (db'.runs ≡ db.runs)
upsert_state-own_version db_now i db read =
    elim (Option-cases (get_state db i.runtime_vm_instance_id)) [
      | inl n ↦ (
        fresh_row db_now i,
        inserted db_now i db,
        upsert-some db_now i db _ _ (write-fresh db_now i db n),
        inserted-get_state db_now i db n,
        refl,
        refl,
        refl,
        refl,
        refl,
        refl,
        refl,
        refl,
      )
      | inr (s, m) ↦ (
        next_row db_now i s,
        updated db_now i db,
        upsert-some db_now i db _ _
            (write-next db_now i db s m (rw read (rw m (eq_ℤ_refl s.version)))),
        updated-get_state db_now i db s m,
        refl,
        refl,
        refl,
        refl,
        refl,
        refl,
        refl,
        refl,
      )
    ]
