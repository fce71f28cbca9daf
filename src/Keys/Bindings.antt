-- ===== src/Keys/Bindings.antt =====
-- backend/src/keys/service.rs: vetoes of the runtime, and the bindings of a key.
use mcp_host.Prelude.{
  ℕ, Bool, Option, none, some, List, [], ◌∷◌, ◌++◌, String, Value, object, array, string, null,
  no_entry, entry, Elements, no_element, element, pos, ◌==◌, str_eq, ltb, trim, ◌&&◌, not,
  if◌then◌else◌, find, any, select, order_by, Result, ok, err,
}
use mcp_host.Keys.Models.{
  ProviderKeyBindingScope, ProviderKeyBindingRecord, ProviderKeyRow, is_some,
}
use mcp_host.Keys.Events.{
  runtime_veto, binding_attached, ProviderKeyAuditEvent, KeyDb, insert_event, dispatch_notification,
}

abbrev texts : List String → Elements
texts [] = no_element
texts (s ∷ ss) = element (string s) (texts ss)

module _ (uuid rfc3339 : ℕ → String) (channel : String) where
  unfoldable pub record_runtime_veto :
      (now event_id : ℕ) → ℕ → Option ℕ → List String → KeyDb → KeyDb
  record_runtime_veto now event_id provider key notes db =
      let e : ProviderKeyAuditEvent = record {
        id = event_id;
        provider_id = provider;
        provider_key_id = key;
        event_type = runtime_veto;
        payload = object (
            entry "notes" (array (texts notes))
              (entry "recorded_at" (string (rfc3339 now)) no_entry));
        occurred_at = now;
      } in
      dispatch_notification channel e (insert_event e db)

  -- Whose the key is, or the error.
  abbrev pub owned_key : ℕ → Option ProviderKeyRow → Result ProviderKeyRow String
  owned_key provider none = err "provider key not found"
  owned_key provider (some k) = if k.provider_id == provider then ok k else err "provider mismatch"

  -- The key has a binding of the type and the target that is not revoked.
  unfoldable pub bound : ℕ → ProviderKeyBindingScope → KeyDb → Bool
  bound key scope db =
      any
        (λ b.
          (b.provider_key_id == key)
          && str_eq b.binding_type scope.binding_type
          && (b.binding_target_id == scope.binding_target_id)
          && not (is_some b.revoked_at))
        db.bindings

  abbrev scope_payload : Value → Value
  scope_payload null = object no_entry
  scope_payload v = v

  abbrev pub binding_row :
      (now binding_id : ℕ) → ℕ → ProviderKeyBindingScope → ProviderKeyBindingRecord
  binding_row now binding_id key scope = record {
    id = binding_id;
    provider_key_id = key;
    binding_type = scope.binding_type;
    binding_target_id = scope.binding_target_id;
    binding_scope = scope_payload scope.additional_context;
    created_at = now;
    revoked_at = none;
    revoked_reason = none;
    version = pos 0;
  }

  abbrev attached : (now event_id : ℕ) → ℕ → ProviderKeyBindingRecord → ProviderKeyAuditEvent
  attached now event_id provider b = record {
    id = event_id;
    provider_id = provider;
    provider_key_id = some b.provider_key_id;
    event_type = binding_attached;
    payload = object (
        entry "binding_type" (string b.binding_type) (
          entry "binding_target_id" (string (uuid b.binding_target_id)) (
            entry "binding_scope" b.binding_scope
              (entry "created_at" (string (rfc3339 b.created_at)) no_entry))));
    occurred_at = now;
  }

  unfoldable pub record_binding :
      (now binding_id event_id : ℕ)
      → ℕ
      → ℕ
      → ProviderKeyBindingScope
      → KeyDb
      → Result ProviderKeyBindingRecord String × KeyDb
  record_binding now binding_id event_id provider key scope db =
      if str_eq (trim scope.binding_type) ""
      then (err "binding type required", db)
      else elim (owned_key provider (find (λ k. k.id == key) db.keys)) [
        | err e ↦ (err e, db)
        | ok k ↦
            let row = binding_row now binding_id key scope in
            let e = attached now event_id provider row in
            if bound key scope db then (err "binding already exists", db) else (
              ok row,
              dispatch_notification channel e
                  (insert_event e (record db { bindings = db.bindings ++ row ∷ [] })),
            )
      ]

  unfoldable pub list_bindings : ℕ → ℕ → KeyDb → Result (List ProviderKeyBindingRecord) String
  list_bindings provider key db = elim (owned_key provider (find (λ k. k.id == key) db.keys)) [
    | err e ↦ err e
    | ok k ↦ ok (
        order_by (λ a b. ltb b.created_at a.created_at)
          (select (λ b. b.provider_key_id == key) db.bindings))
  ]
