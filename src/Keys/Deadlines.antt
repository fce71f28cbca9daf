-- ===== src/Keys/Deadlines.antt =====
-- How often `enforce_rotation_slas` of backend/src/keys/service.rs speaks of a key, and of which keys.
use mcp_host.Prelude.{
  ℕ, ◌+◌, ◌≡◌, refl, Bool, true, false, ◌&&◌, Option, none, some, List, [], ◌∷◌, ◌++◌, String,
  str_eq, leb, any, select, All, inl, inr, Bool-cases,
}
use mcp_host.Keys.Models.{ProviderKeyRow}
use mcp_host.Keys.Events.{
  ProviderKeyAuditEventType, rotation_sla_warning, rotation_sla_breached, event_str,
  ProviderKeyAuditEvent, KeyDb, is_key, since, insert_event, dispatch_notification,
  insert_audit_event_if_absent,
}
use mcp_host.Keys.Sla.{
  RotationSlaReport, Deadline, breach, approach, distant, deadline, watch_one, watch, watched,
  enforce_rotation_slas,
}

abbrev same_key : Option ℕ → Option ℕ → Bool
same_key none k = false
same_key (some a) k = is_key a k

-- The second event follows the first one, of the same key and type, within the interval.
abbrev pub close : ℕ → ProviderKeyAuditEvent → ProviderKeyAuditEvent → Bool
close dedupe_interval e f =
    same_key f.provider_key_id e.provider_key_id
    && str_eq (event_str e.event_type) (event_str f.event_type)
    && leb f.occurred_at (e.occurred_at + dedupe_interval)

abbrev pub sla_type : ProviderKeyAuditEventType → Bool
sla_type rotation_sla_warning = true
sla_type rotation_sla_breached = true
sla_type _ = false

-- No event on a deadline is followed by one of its key and type within the interval.
unfoldable pub Spaced : ℕ → List ProviderKeyAuditEvent → Type 0
Spaced dedupe_interval [] = Unit
Spaced dedupe_interval (e ∷ es) =
    All (λ f. sla_type e.event_type ≡ true → close dedupe_interval e f ≡ false) es
    × Spaced dedupe_interval es

module _ (dedupe_interval : ℕ) where
  append-Spaced :
      (es : List ProviderKeyAuditEvent) (f : ProviderKeyAuditEvent) (key : ℕ)
      → f.provider_key_id ≡ some key
      → any (since dedupe_interval key f) es ≡ false
      → Spaced dedupe_interval es
      → Spaced dedupe_interval (es ++ f ∷ [])
  unfolding Spaced
  append-Spaced [] f key k n s = (tt, tt)
  append-Spaced (e ∷ es) f key k n s = elim (Bool-cases (since dedupe_interval key f e)) [
    | inl t ↦ cc (rw t at n)
    | inr t ↦ (apart es s.0, append-Spaced es f key k (rw t at n) s.1)
  ]
    where
      far : since dedupe_interval key f e ≡ false → close dedupe_interval e f ≡ false
      far t = rw k t

      apart :
          (xs : List ProviderKeyAuditEvent)
          → All (λ x. sla_type e.event_type ≡ true → close dedupe_interval e x ≡ false) xs
          → All
              (λ x. sla_type e.event_type ≡ true → close dedupe_interval e x ≡ false)
              (xs ++ f ∷ [])
      apart [] a = (
        (λ _. elim (Bool-cases (since dedupe_interval key f e)) [
          | inl t ↦ cc (rw t at n)
          | inr t ↦ far t
        ]),
        tt,
      )
      apart (x ∷ xs) a = (a.0, apart xs a.1)

  dispatch_notification-events :
      (channel : String) (e : ProviderKeyAuditEvent) (db : KeyDb)
      → (dispatch_notification channel e db).events ≡ db.events
  unfolding dispatch_notification
  dispatch_notification-events channel e db = elim (Bool-cases (str_eq channel "")) [
    | inl c ↦ rw c refl
    | inr c ↦ rw c refl
  ]

  insert-Spaced :
      (channel : String) (key : ℕ) (e : ProviderKeyAuditEvent) (db : KeyDb)
      → e.provider_key_id ≡ some key
      → Spaced dedupe_interval db.events
      → Spaced dedupe_interval
          (insert_audit_event_if_absent channel dedupe_interval key e db).1.events
  unfolding insert_audit_event_if_absent
  insert-Spaced channel key e db k s =
      elim (Bool-cases (any (since dedupe_interval key e) db.events)) [
        | inl t ↦ rw t s
        | inr t ↦ rw t (
            rw (dispatch_notification-events channel e (insert_event e db))
              (append-Spaced db.events e key k t s))
      ]

  module _ (uuid rfc3339 : ℕ → String) (channel : String) (warning_window : ℕ) (fresh : ℕ → ℕ) where
    watch_one-Spaced :
        (now : ℕ) (d : Deadline) (k : ProviderKeyRow) (s : RotationSlaReport × KeyDb)
        → Spaced dedupe_interval s.1.events
        → Spaced dedupe_interval
            (watch_one uuid rfc3339 channel now warning_window dedupe_interval fresh d k s).1.events
    watch_one-Spaced now distant k s u = u
    watch_one-Spaced now breach k s u = insert-Spaced channel k.id _ s.1 refl u
    watch_one-Spaced now approach k s u = insert-Spaced channel k.id _ s.1 refl u

    watch-Spaced :
        (now : ℕ) (ks : List ProviderKeyRow) (s : RotationSlaReport × KeyDb)
        → Spaced dedupe_interval s.1.events
        → Spaced dedupe_interval
            (watch uuid rfc3339 channel now warning_window dedupe_interval fresh ks s).1.events
    watch-Spaced now [] s u = u
    watch-Spaced now (k ∷ ks) s u =
        watch-Spaced now ks _
          (watch_one-Spaced now (deadline now warning_window k.rotation_due_at) k s u)

    -- Passes at the given instants, one after another.
    abbrev pub passes : List ℕ → KeyDb → KeyDb
    passes [] db = db
    passes (now ∷ rest) db =
        passes rest
          (enforce_rotation_slas uuid rfc3339 channel now warning_window dedupe_interval fresh db).1

    -- However often the deadlines are checked, and at whatever instants, a warning on a key is followed by
    -- the next warning on it only after the deduplication interval, and so is a breach, if that was so of
    -- the events at first.
    pub enforce_rotation_slas-Spaced :
        (times : List ℕ) (db : KeyDb)
        → Spaced dedupe_interval db.events
        → Spaced dedupe_interval (passes times db).events
    unfolding enforce_rotation_slas
    enforce_rotation_slas-Spaced [] db s = s
    enforce_rotation_slas-Spaced (now ∷ rest) db s =
        enforce_rotation_slas-Spaced rest _ (watch-Spaced now (select watched db.keys) _ s)
