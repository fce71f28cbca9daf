-- ===== src/Trust/Transitions.antt =====
-- What a manual transition of the trust registry does, backend/src/trust.rs.
use mcp_host.Prelude.{
  ℕ, ◌≡◌, refl, sym, ap, ◌∙◌, Bool, true, false, not, Option, none, some, [], ◌∷◌, ◌++◌, String,
  ◌==◌, ==_iff, ==_refl, if◌then◌else◌, find, ◌⊎◌, inl, inr, Bool-cases, Option-cases, Result-cases,
  ℤ, pos, ltb_ℤ, eq_ℤ, Result, ok, err, arith,
}
use mcp_host.Trust.Tables.{row_not_found, RuntimeVmTrustRegistryState, RuntimeVmTrustEvent, TrustDb}
use mcp_host.Trust.Registry.{
  UpsertRuntimeVmTrustRegistryState, ApplyRuntimeVmTrustTransition, get_state, or_minus_one,
  fresh_row, next_row, write_state, apply_transition, transition_event, append_history,
}
use mcp_host.Trust.Outcome.{option_map, or_zero}
use mcp_host.Trust.Versions.{
  inserted, updated, write-fresh, write-next, write-stale, inserted-get_state, updated-get_state,
}
use mcp_host.Trust.Control.{
  TrustRegistryTransitionRequest, TrustRegistryView, compute_stale, normalize_attestation_status,
  normalize_lifecycle_state, check_version, or_value, load_vm_context, fetch_registry_view_for_vm,
  transition_input, prepare, transition_registry_state,
}
use mcp_host.Error.{AppError, conflict}

-- A write that went through.
pub record Written (i : UpsertRuntimeVmTrustRegistryState) (db after : TrustDb)
    (r : RuntimeVmTrustRegistryState) : Type 0 where
  pub there : get_state after i.runtime_vm_instance_id ≡ some r
  pub lifecycle : r.lifecycle_state ≡ i.lifecycle_state
  pub instances : after.instances ≡ db.instances
  pub history : after.history ≡ db.history

write_state-Written :
    (db_now : ℕ) (i : UpsertRuntimeVmTrustRegistryState) (db : TrustDb)
    → (write_state db_now i db ≡ (none, db))
      ⊎ ((r : RuntimeVmTrustRegistryState) × (after : TrustDb) × (write_state db_now i db
            ≡ (some r, after))
          × Written i db after r)
write_state-Written db_now i db = elim (Option-cases (get_state db i.runtime_vm_instance_id)) [
  | inl n ↦ inr (
    fresh_row db_now i,
    inserted db_now i db,
    write-fresh db_now i db n,
    record {
      there = inserted-get_state db_now i db n;
      lifecycle = refl;
      instances = refl;
      history = refl;
    },
  )
  | inr (s, m) ↦ elim (Bool-cases (eq_ℤ s.version (or_minus_one i.expected_version))) [
    | inr v ↦ inl (write-stale db_now i db s m v)
    | inl v ↦ inr (
      next_row db_now i s,
      updated db_now i db,
      write-next db_now i db s m v,
      record {
        there = updated-get_state db_now i db s m;
        lifecycle = refl;
        instances = refl;
        history = refl;
      },
    )
  ]
]

eq_ℤ_sound : (a b : ℤ) → eq_ℤ a b ≡ true → a ≡ b
eq_ℤ_sound a b e = ground arith

-- The version that the request names is the registry's own, where the registry has a row.
abbrev CurrentVersion : TrustRegistryTransitionRequest → Option RuntimeVmTrustRegistryState → Type 0
CurrentVersion p registry =
    (registry ≡ none) ⊎ (p.expected_version ≡ option_map (λ r. r.version) registry)

check_version-CurrentVersion :
    (expected : Option ℤ) (registry : Option RuntimeVmTrustRegistryState) (version : Option ℤ)
    → check_version expected (option_map (λ r. r.version) registry) ≡ ok version
    → (registry ≡ none) ⊎ (expected ≡ option_map (λ r. r.version) registry)
unfolding check_version
check_version-CurrentVersion expected none version e = inl refl
check_version-CurrentVersion none (some r) version e = cc
check_version-CurrentVersion (some x) (some r) version e = elim (Bool-cases (eq_ℤ x r.version)) [
  | inl q ↦ inr (ap some (eq_ℤ_sound x r.version q))
  | inr q ↦ cc (rw q at e)
]

guarded :
    (o a : Bool) (v : Result (Option ℤ) AppError) (e₁ e₂ : AppError)
    (f : Option ℤ → ApplyRuntimeVmTrustTransition) (input : ApplyRuntimeVmTrustTransition)
    → (if not o
        then err e₁
        else if a
        then err e₂
        else elim v [ err e ↦ err e | ok version ↦ ok (f version) ])
      ≡ ok input
    → (version : Option ℤ) × (o ≡ true) × (v ≡ ok version) × (input ≡ f version)
guarded true false (ok version) e₁ e₂ f input e = (version, refl, refl, cc)
guarded true false (err x) e₁ e₂ f input e = cc
guarded true true v e₁ e₂ f input e = cc
guarded false a v e₁ e₂ f input e = cc

module _ (db_now : ℕ) (i : ApplyRuntimeVmTrustTransition) (db after : TrustDb) where
  apply-none :
      write_state db_now i.state db ≡ (none, after)
      → apply_transition db_now i db ≡ (err row_not_found, after)
  unfolding apply_transition
  apply-none w = rw (w, apply_transition) (rw w refl)

  apply-some :
      (r : RuntimeVmTrustRegistryState)
      → write_state db_now i.state db ≡ (some r, after)
      → apply_transition db_now i db ≡ (ok r, append_history (transition_event db_now i r) after)
  unfolding apply_transition
  apply-some r w = rw (w, apply_transition) (rw w refl)

module _ (owner_of : ℕ → Option ℕ) (user instance : ℕ) (p : TrustRegistryTransitionRequest)
    (db : TrustDb) where
  pub record Prepared (input : ApplyRuntimeVmTrustTransition) : Type 0 where
    pub status : String
    pub lifecycle : String
    pub registry : Option RuntimeVmTrustRegistryState
    pub attempts : ℤ
    pub version : Option ℤ
    pub status_known : normalize_attestation_status p.attestation_status ≡ some status
    pub lifecycle_known : normalize_lifecycle_state p.lifecycle_state ≡ some lifecycle
    pub owned : load_vm_context owner_of db instance ≡ some (user, registry)
    pub current : CurrentVersion p registry
    pub made :
        input ≡ transition_input owner_of instance p status lifecycle registry attempts version

  prepared :
      (input : ApplyRuntimeVmTrustTransition)
      → prepare owner_of user instance p db ≡ ok input
      → Prepared input
  unfolding prepare
  prepared input e = elim (Option-cases (normalize_attestation_status p.attestation_status)) [
    | inl n ↦ cc (rw (n, prepare) at e)
    | inr (status, sk) ↦ elim (Option-cases (normalize_lifecycle_state p.lifecycle_state)) [
      | inl n ↦ cc (rw n at (rw (sk, prepare) at e))
      | inr (lifecycle, lk) ↦ elim (Option-cases (load_vm_context owner_of db instance)) [
        | inl n ↦ cc (rw n at (rw lk at (rw (sk, prepare) at e)))
        | inr ((owner, registry), c) ↦
            let (version, mine, v, made) =
              guarded (owner == user)
                (ltb_ℤ
                  (or_value p.remediation_attempts
                    (or_zero (option_map (λ r. r.remediation_attempts) registry)))
                  (pos 0))
                (check_version p.expected_version (option_map (λ r. r.version) registry)) _ _
                (transition_input owner_of instance p status lifecycle registry (
                  or_value p.remediation_attempts
                    (or_zero (option_map (λ r. r.remediation_attempts) registry))))
                input (rw c at (rw lk at (rw (sk, prepare) at e))) in
            record {
              status = status;
              lifecycle = lifecycle;
              registry = registry;
              attempts = _;
              version = version;
              status_known = sk;
              lifecycle_known = lk;
              owned = c ∙ ap (λ (u : ℕ). some (u, registry)) ((==_iff owner user).0 mine);
              current = check_version-CurrentVersion p.expected_version registry version v;
              made = made;
            }
      ]
    ]
  ]

  context-after :
      (after : TrustDb) (registry : Option RuntimeVmTrustRegistryState)
      (r : RuntimeVmTrustRegistryState)
      → after.instances ≡ db.instances
      → load_vm_context owner_of db instance ≡ some (user, registry)
      → get_state after instance ≡ some r
      → load_vm_context owner_of after instance ≡ some (user, some r)
  unfolding load_vm_context get_state
  context-after after registry r i c there =
      elim (Option-cases (find (λ v. v.id == instance) db.instances)) [
        | inl n ↦ cc (rw (n, load_vm_context) at c)
        | inr (v, f) ↦ elim (Option-cases (owner_of v.server_id)) [
          | inl n ↦ cc (rw n at (rw (f, load_vm_context) at c))
          | inr (owner, o) ↦
              let same : some (owner, get_state db instance) ≡ some (user, registry) =
                rw o at (rw (f, load_vm_context) at c) in
              let mine : owner ≡ user = cc in
              rw i (rw (f, load_vm_context) (rw o (rw there (rw mine refl))))
        ]
      ]

  view-after :
      (now : ℕ) (after : TrustDb) (r : RuntimeVmTrustRegistryState)
      → load_vm_context owner_of after instance ≡ some (user, some r)
      → fetch_registry_view_for_vm owner_of now after user instance
        ≡ ok (record { state = r; stale = compute_stale now r.freshness_deadline })
  unfolding fetch_registry_view_for_vm
  view-after now after r c = rw (c, fetch_registry_view_for_vm) (rw (==_refl user) refl)

  abbrev outcome : (now db_now : ℕ) → Result TrustRegistryView AppError × TrustDb
  outcome now db_now = transition_registry_state owner_of now db_now user instance p db

  -- What a transition that is accepted leaves.
  pub record Accepted (now db_now : ℕ) : Type 0 where
    pub lifecycle : String
    pub registry : Option RuntimeVmTrustRegistryState
    pub row : RuntimeVmTrustRegistryState
    pub event : RuntimeVmTrustEvent
    pub lifecycle_known : normalize_lifecycle_state p.lifecycle_state ≡ some lifecycle
    pub owned : load_vm_context owner_of db instance ≡ some (user, registry)
    pub current : CurrentVersion p registry
    pub answered :
        (outcome now db_now).0
        ≡ ok (record { state = row; stale = compute_stale now row.freshness_deadline })
    pub there : get_state (outcome now db_now).1 instance ≡ some row
    pub moved : row.lifecycle_state ≡ lifecycle
    pub history : (outcome now db_now).1.history ≡ db.history ++ event ∷ []
    pub event_to : event.current_lifecycle_state ≡ lifecycle
    pub event_from : event.previous_lifecycle_state ≡ option_map (λ r. r.lifecycle_state) registry

  accepted :
      (now db_now : ℕ) (input : ApplyRuntimeVmTrustTransition)
      → prepare owner_of user instance p db ≡ ok input
      → Prepared input
      → (r : RuntimeVmTrustRegistryState) (after : TrustDb)
      → write_state db_now input.state db ≡ (some r, after)
      → Written input.state db after r
      → Accepted now db_now
  unfolding transition_registry_state get_state
  accepted now db_now input x ready r after w written =
      let found : get_state after instance ≡ some r =
        sym (
          ap (λ (t : ApplyRuntimeVmTrustTransition). get_state after t.runtime_vm_instance_id)
            ready.made)
        ∙ written.there in
      let moved : r.lifecycle_state ≡ ready.lifecycle =
        written.lifecycle
        ∙ ap (λ (t : ApplyRuntimeVmTrustTransition). t.lifecycle_state) ready.made in
      let ends : outcome now db_now ≡ (
        ok (record { state = r; stale = compute_stale now r.freshness_deadline }),
        append_history (transition_event db_now input r) after,
      ) =
        rw (x, transition_registry_state)
          (rw (apply-some db_now input db after r w) (
            rw
              (view-after now (append_history (transition_event db_now input r) after) r (
                context-after (append_history (transition_event db_now input r) after)
                  ready.registry r written.instances ready.owned found))
              refl)) in
      record {
        lifecycle = ready.lifecycle;
        registry = ready.registry;
        row = r;
        event = transition_event db_now input r;
        lifecycle_known = ready.lifecycle_known;
        owned = ready.owned;
        current = ready.current;
        answered = ap (λ t. t.0) ends;
        there = rw ends found;
        moved = moved;
        history = rw ends (rw written.history refl);
        event_to = moved;
        event_from =
            ap (λ (t : ApplyRuntimeVmTrustTransition). t.previous_lifecycle_state) ready.made;
      }

  -- A manual transition either ends in an error and writes nothing; or the caller owns the VM's server,
  -- the lifecycle state is a known one, the request names the version of the registry's row if there is
  -- one, the answer is the row that is then in the registry, in that lifecycle state, and the history has
  -- one event more, which leads from the lifecycle state before to the new one.
  pub transition_registry_state-Accepted :
      (now db_now : ℕ) → ((e : AppError) × (outcome now db_now ≡ (err e, db))) ⊎ Accepted now db_now
  unfolding transition_registry_state
  transition_registry_state-Accepted now db_now =
      elim (Result-cases (prepare owner_of user instance p db)) [
        | inr (e, x) ↦ inl (e, rw (x, transition_registry_state) refl)
        | inl (input, x) ↦
            let ready = prepared input x in
            elim (write_state-Written db_now input.state db) [
              | inl n ↦ inl (
                conflict "trust registry version mismatch during update",
                rw (x, transition_registry_state) (rw (apply-none db_now input db db n) refl),
              )
              | inr (r, after, w, written) ↦
                  inr (accepted now db_now input x ready r after w written)
            ]
      ]
