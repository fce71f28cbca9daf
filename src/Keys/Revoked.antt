-- ===== src/Keys/Revoked.antt =====
-- That a revoked key of backend/src/keys/service.rs stays out of use, over any sequence of operations.
use mcp_host.Prelude.{
  ℕ, ◌≡◌, refl, sym, ◌∙◌, ap, subst, Bool, true, false, Option, some, List, [], ◌∷◌, String, str_eq,
  eq_iff, trim, ◌==◌, ==_iff, find, find-some, any, select, order_by, update_where, In-any,
  any-update_where, update_where-All, In, All-In, All-map, In-select, In-order_by, In-map,
  if◌then◌else◌, inl, inr, Bool-cases, Option-cases, Result-cases, ok,
}
use mcp_host.Keys.Models.{
  ProviderKeyRow, ProviderKeyRecord, ProviderKeyBindingScope, from, state_from_str, add_veto_note,
}
use mcp_host.Keys.Events.{KeyDb, ProviderKeyAuditEvent, since, insert_audit_event_if_absent}
use mcp_host.Keys.Register.{
  RegisterProviderKey, register_key, newer, list_keys, state_active, summary_of,
  summarize_for_policy,
}
use mcp_host.Keys.Rotation.{RequestKeyRotation, request_rotation, revoked, revoke_key}
use mcp_host.Keys.Sla.{
  RotationSlaReport, Deadline, breach, approach, distant, deadline, watch_one, watch, watched,
  enforce_rotation_slas,
}
use mcp_host.Keys.Bindings.{owned_key, bound, record_runtime_veto, record_binding}
use mcp_host.Keys.Lifecycle.{
  ended, Ended, dispatch_notification-keys, register-Ended, request_rotation-Ended,
  revoke_key-Ended,
}

insert_audit_event_if_absent-keys :
    (channel : String) (dedupe key : ℕ) (e : ProviderKeyAuditEvent) (db : KeyDb)
    → (insert_audit_event_if_absent channel dedupe key e db).1.keys ≡ db.keys
unfolding insert_audit_event_if_absent
insert_audit_event_if_absent-keys channel dedupe key e db =
    elim (Bool-cases (any (since dedupe key e) db.events)) [
      | inl t ↦ rw t refl
      | inr t ↦ rw t (dispatch_notification-keys channel e _)
    ]

module _ (decodes : String → Bool) (uuid rfc3339 : ℕ → String) (channel : String) where
  module _ (now window dedupe : ℕ) (fresh : ℕ → ℕ) where
    watch_one-keys :
        (d : Deadline) (k : ProviderKeyRow) (s : RotationSlaReport × KeyDb)
        → (watch_one uuid rfc3339 channel now window dedupe fresh d k s).1.keys ≡ s.1.keys
    watch_one-keys distant k s = refl
    watch_one-keys breach k s = insert_audit_event_if_absent-keys channel dedupe k.id _ s.1
    watch_one-keys approach k s = insert_audit_event_if_absent-keys channel dedupe k.id _ s.1

    watch-keys :
        (ks : List ProviderKeyRow) (s : RotationSlaReport × KeyDb)
        → (watch uuid rfc3339 channel now window dedupe fresh ks s).1.keys ≡ s.1.keys
    watch-keys [] s = refl
    watch-keys (k ∷ ks) s =
        watch-keys ks _ ∙ watch_one-keys (deadline now window k.rotation_due_at) k s

    enforce_rotation_slas-keys :
        (db : KeyDb)
        → (enforce_rotation_slas uuid rfc3339 channel now window dedupe fresh db).1.keys ≡ db.keys
    unfolding enforce_rotation_slas
    enforce_rotation_slas-keys db = watch-keys (select watched db.keys) _

  record_binding-keys :
      (now binding_id event_id provider key : ℕ) (scope : ProviderKeyBindingScope) (db : KeyDb)
      → (record_binding uuid rfc3339 channel now binding_id event_id provider key scope db).1.keys
        ≡ db.keys
  unfolding record_binding
  record_binding-keys now binding_id event_id provider key scope db =
      elim (Bool-cases (str_eq (trim scope.binding_type) "")) [
        | inl t ↦ rw t refl
        | inr t ↦
            elim (Result-cases
              (owned_key uuid rfc3339 channel provider (find (λ k. k.id == key) db.keys))) [
                | inr (m, s) ↦ rw t (rw s refl)
                | inl (k, s) ↦ elim (Bool-cases (bound uuid rfc3339 channel key scope db)) [
                  | inl b ↦ rw t (rw s (rw b refl))
                  | inr b ↦ rw t (rw s (rw b (dispatch_notification-keys channel _ _)))
                ]
              ]
      ]

  -- The service's operations that write; a registration takes an identifier that no key has.
  pub data KeyStep (db : KeyDb) : KeyDb → Type 0 where
    register :
        (now new_id event_id provider : ℕ) (request : RegisterProviderKey)
        → any (λ k. k.id == new_id) db.keys ≡ false
        → KeyStep db (register_key decodes rfc3339 now new_id event_id provider request db).1
    rotate :
        (now event_id rotation_id provider key : ℕ) (request : RequestKeyRotation)
        → KeyStep db
            (request_rotation decodes uuid rfc3339 now event_id rotation_id provider key request
              db).1
    revoke :
        (now first_event second_event provider key : ℕ) (reason : Option String) (mark : Bool)
        → KeyStep db
            (revoke_key decodes uuid rfc3339 channel now first_event second_event provider key
              reason mark db).1
    watch_slas :
        (now window dedupe : ℕ) (fresh : ℕ → ℕ)
        → KeyStep db (enforce_rotation_slas uuid rfc3339 channel now window dedupe fresh db).1
    veto :
        (now event_id provider : ℕ) (key : Option ℕ) (notes : List String)
        → KeyStep db (record_runtime_veto uuid rfc3339 channel now event_id provider key notes db)
    bind :
        (now binding_id event_id provider key : ℕ) (scope : ProviderKeyBindingScope)
        → KeyStep db
            (record_binding uuid rfc3339 channel now binding_id event_id provider key scope db).1

  pub data KeySteps (db : KeyDb) : KeyDb → Type 0 where
    unmoved : KeySteps db db
    more : {mid last : KeyDb} → KeySteps db mid → KeyStep mid last → KeySteps db last

  step-Ended :
      {db last : KeyDb} (key : ℕ) → KeyStep db last → Ended key db.keys → Ended key last.keys
  unfolding record_runtime_veto
  step-Ended {db = db} key (register now new_id event_id provider request fresh) e =
      register-Ended decodes uuid rfc3339 channel key now new_id event_id provider request db fresh
        e
  step-Ended {db = db} key (rotate now event_id rotation_id provider target request) e =
      request_rotation-Ended decodes uuid rfc3339 channel key now event_id rotation_id provider
        target request db e
  step-Ended {db = db} key (revoke now first_event second_event provider target reason mark) e =
      revoke_key-Ended decodes uuid rfc3339 channel key now first_event second_event provider target
        reason mark db e
  step-Ended {db = db} key (watch_slas now window dedupe fresh) e =
      subst (Ended key) (sym (enforce_rotation_slas-keys now window dedupe fresh db)) e
  step-Ended {db = db} key (veto now event_id provider target notes) e =
      subst (Ended key) (sym (dispatch_notification-keys channel _ _)) e
  step-Ended {db = db} key (bind now binding_id event_id provider target scope) e =
      subst (Ended key) (sym (record_binding-keys now binding_id event_id provider target scope db))
        e

  KeySteps-Ended :
      {db last : KeyDb} (key : ℕ) → KeySteps db last → Ended key db.keys → Ended key last.keys
  KeySteps-Ended key unmoved e = e
  KeySteps-Ended key (more earlier step) e = step-Ended key step (KeySteps-Ended key earlier e)

  -- A revocation that is accepted ends every row with the key's number.
  revoke_key-ends :
      (now first_event second_event provider key : ℕ) (reason : Option String) (mark : Bool)
      (db : KeyDb) (r : ProviderKeyRecord)
      → (revoke_key decodes uuid rfc3339 channel now first_event second_event provider key reason
          mark db).0
        ≡ ok r
      → Ended key
          (revoke_key decodes uuid rfc3339 channel now first_event second_event provider key reason
            mark db).1.keys
  unfolding revoke_key
  revoke_key-ends now first_event second_event provider key reason mark db r h =
      elim (Option-cases (find (λ k. k.id == key) db.keys)) [
        | inl n ↦ cc (rw (n, revoke_key) at h)
        | inr (k, s) ↦ elim (Bool-cases (k.provider_id == provider)) [
          | inr p ↦ cc (rw p at (rw (s, revoke_key) at h))
          | inl p ↦
              rw (s, revoke_key)
                (rw p (
                  rw (dispatch_notification-keys channel _ _)
                    (rw (dispatch_notification-keys channel _ _) (ended_rows k s))))
        ]
      ]
    where
      ends : (m : Bool) → ended (if m then "compromised" else "retired") ≡ true
      ends true = refl
      ends false = refl

      ended_rows :
          (k : ProviderKeyRow)
          → find (λ k. k.id == key) db.keys ≡ some k
          → Ended key
              (update_where (λ x. x.id == k.id) (revoked decodes uuid rfc3339 now mark) db.keys)
      ended_rows k s =
          let (t, i) = find-some (λ k. k.id == key) db.keys k s in
          let same : k.id ≡ key = (==_iff k.id key).0 t in
          record {
            there =
                any-update_where (λ x. x.id == key) (λ x. x.id == k.id)
                  (revoked decodes uuid rfc3339 now mark) (λ x. refl) db.keys
                ∙ In-any (λ x. x.id == key) db.keys k i t;
            all =
                All-map (λ x f e. f ((==_iff x.id k.id).1 (e ∙ sym same)))
                  (update_where (λ x. x.id == k.id) (revoked decodes uuid rfc3339 now mark) db.keys)
                  (update_where-All (λ x. x.id == k.id) (revoked decodes uuid rfc3339 now mark)
                    (λ x. ended x.state ≡ true) (λ x. ends mark) db.keys);
          }

  ended-inactive :
      (state : String) → ended state ≡ true → state_active (state_from_str state) ≡ false
  unfolding state_from_str
  ended-inactive state e = elim (Bool-cases (str_eq state "retired")) [
    | inl t ↦ let same : state ≡ "retired" = (eq_iff state "retired").0 t in rw same refl
    | inr t ↦ elim (Bool-cases (str_eq state "compromised")) [
      | inl u ↦ let same : state ≡ "compromised" = (eq_iff state "compromised").0 u in rw same refl
      | inr u ↦ cc (rw u at (rw t at e))
    ]
  ]

  -- A key that has ended is the summary's only beside a veto.
  summary-Ended :
      (now provider key : ℕ) (db : KeyDb) (k : ProviderKeyRecord)
      → Ended key db.keys
      → (summarize_for_policy now provider db).record_of ≡ some k
      → k.id ≡ key
      → (summarize_for_policy now provider db).vetoed ≡ true
  unfolding summarize_for_policy add_veto_note list_keys
  summary-Ended now provider key db k e h n = by_list (list_keys provider db) (λ r i. i) h
    where
      inactive :
          (r : ProviderKeyRecord)
          → In r (list_keys provider db)
          → r.id ≡ key
          → state_active r.state ≡ false
      inactive r i n =
          let (row, j, f) =
            In-map from (order_by newer (select (λ x. x.provider_id == provider) db.keys)) r i in
          let (t, l) =
            In-select (λ x. x.provider_id == provider) db.keys row
              (In-order_by newer (select (λ x. x.provider_id == provider) db.keys) row j) in
          let state =
            All-In (λ x. x.id ≡ key → ended x.state ≡ true) db.keys row e.all l
              (sym (ap (λ x. x.id) f) ∙ n) in
          subst (λ x. state_active x.state ≡ false) (sym f) (ended-inactive row.state state)

      by_list :
          (ks : List ProviderKeyRecord)
          → ((r : ProviderKeyRecord) → In r ks → In r (list_keys provider db))
          → (summary_of now ks).record_of ≡ some k
          → (summary_of now ks).vetoed ≡ true
      by_list [] within h = refl
      by_list (x ∷ xs) within h = elim (Option-cases (find (λ r. state_active r.state) (x ∷ xs))) [
        | inl n ↦ rw (n, summary_of) refl
        | inr (a, s) ↦
            let (t, i) = find-some (λ r. state_active r.state) (x ∷ xs) a s in
            let same : a ≡ k = some_inj (rw (s, summary_of) at h) in
            let f : state_active k.state ≡ false =
              inactive k (within k (subst (λ z. In z (x ∷ xs)) same i)) n in
            let g : state_active k.state ≡ true = subst (λ z. state_active z.state ≡ true) same t in
            absurd (clash (sym g ∙ f))
      ]
        where
          some_inj : {a b : ProviderKeyRecord} → some a ≡ some b → a ≡ b
          some_inj e = cc

          clash : true ≡ false → ⊥
          clash h = cc

  -- Once a revocation of a key was accepted, whatever sequence of registrations under new identifiers,
  -- rotation requests, revocations, deadline checks, vetoes and bindings follows, the key's row is still
  -- there and its state is retired or compromised, and the provider's summary vetoes wherever it names that
  -- key.
  pub revoke_key-KeySteps-Ended :
      (now first_event second_event provider key : ℕ) (reason : Option String) (mark : Bool)
      (db last : KeyDb) (r : ProviderKeyRecord)
      → (revoke_key decodes uuid rfc3339 channel now first_event second_event provider key reason
          mark db).0
        ≡ ok r
      → KeySteps
          (revoke_key decodes uuid rfc3339 channel now first_event second_event provider key reason
            mark db).1
          last
      → Ended key last.keys
        × ((later : ℕ) (k : ProviderKeyRecord)
            → (summarize_for_policy later provider last).record_of ≡ some k
            → k.id ≡ key
            → (summarize_for_policy later provider last).vetoed ≡ true)
  revoke_key-KeySteps-Ended now first_event second_event provider key reason mark db last r h
        steps =
      let e =
        KeySteps-Ended key steps
          (revoke_key-ends now first_event second_event provider key reason mark db r h) in
      (e, λ later k. summary-Ended later provider key last k e)
