-- ===== src/Keys/Sla.antt =====
-- backend/src/keys/service.rs: `enforce_rotation_slas`. `fresh` gives the identifier of the event that is
-- made for a key.
use mcp_host.Prelude.{
  ℕ, ◌+◌, ◌/◌, Bool, Option, none, some, List, [], ◌∷◌, ◌++◌, String, object, string, number, entry,
  no_entry, pos, str_eq, leb, ◌&&◌, ◌||◌, if◌then◌else◌, select,
}
use mcp_host.Chrono.{second}
use mcp_host.Keys.Models.{state_str, state_from_str, ProviderKeyState, ProviderKeyRow, is_some}
use mcp_host.Keys.Events.{
  rotation_sla_breached, rotation_sla_warning, ProviderKeyAuditEvent, KeyDb,
  insert_audit_event_if_absent,
}

pub record RotationSlaSnapshot : Type 0 where
  pub provider_id : ℕ
  pub provider_key_id : ℕ
  pub rotation_due_at : ℕ
  pub state : ProviderKeyState
  pub event_emitted : Bool

pub record RotationSlaReport : Type 0 where
  pub evaluated_at : ℕ
  pub approaching : List RotationSlaSnapshot
  pub breached : List RotationSlaSnapshot

-- rotation_due_at IS NOT NULL AND state IN ('active', 'rotating')
abbrev pub watched : ProviderKeyRow → Bool
watched k = is_some k.rotation_due_at && (str_eq k.state "active" || str_eq k.state "rotating")

pub data Deadline : Type 0 where
  breach approach distant : Deadline

-- Which of the two tests a key's deadline passes.
abbrev pub deadline : (now warning_window : ℕ) → Option ℕ → Deadline
deadline now warning_window none = distant
deadline now warning_window (some due) =
    if leb due now then breach else if leb due (now + warning_window) then approach else distant

abbrev pub due_at : Option ℕ → ℕ
due_at none = 0
due_at (some t) = t

module _ (uuid rfc3339 : ℕ → String) (channel : String) (now warning_window dedupe_interval : ℕ)
    (fresh : ℕ → ℕ) where
  abbrev breach_event : ProviderKeyRow → ProviderKeyAuditEvent
  breach_event k = record {
    id = fresh k.id;
    provider_id = k.provider_id;
    provider_key_id = some k.id;
    event_type = rotation_sla_breached;
    payload = object (
        entry "rotation_due_at" (string (rfc3339 (due_at k.rotation_due_at))) (
          entry "state" (string (state_str (state_from_str k.state)))
            (entry "evaluated_at" (string (rfc3339 now)) no_entry)));
    occurred_at = now;
  }

  abbrev warning_event : ProviderKeyRow → ProviderKeyAuditEvent
  warning_event k = record {
    id = fresh k.id;
    provider_id = k.provider_id;
    provider_key_id = some k.id;
    event_type = rotation_sla_warning;
    payload = object (
        entry "rotation_due_at" (string (rfc3339 (due_at k.rotation_due_at))) (
          entry "state" (string (state_str (state_from_str k.state))) (
            entry "warning_window_seconds" (number (pos (warning_window / second)))
              (entry "evaluated_at" (string (rfc3339 now)) no_entry))));
    occurred_at = now;
  }

  abbrev pub snapshot : ProviderKeyRow → Bool → RotationSlaSnapshot
  snapshot k emitted = record {
    provider_id = k.provider_id;
    provider_key_id = k.id;
    rotation_due_at = due_at k.rotation_due_at;
    state = state_from_str k.state;
    event_emitted = emitted;
  }

  abbrev pub no_report : RotationSlaReport
  no_report = record { evaluated_at = now; approaching = []; breached = [] }

  -- One round of the loop, given which test the deadline passes.
  abbrev pub watch_one :
      Deadline → ProviderKeyRow → RotationSlaReport × KeyDb → RotationSlaReport × KeyDb
  watch_one distant k (report, db) = (report, db)
  watch_one breach k (report, db) =
      let (emitted, after) =
        insert_audit_event_if_absent channel dedupe_interval k.id (breach_event k) db in
      (record report { breached = report.breached ++ snapshot k emitted ∷ [] }, after)
  watch_one approach k (report, db) =
      let (emitted, after) =
        insert_audit_event_if_absent channel dedupe_interval k.id (warning_event k) db in
      (record report { approaching = report.approaching ++ snapshot k emitted ∷ [] }, after)

  abbrev pub watch : List ProviderKeyRow → RotationSlaReport × KeyDb → RotationSlaReport × KeyDb
  watch [] s = s
  watch (k ∷ ks) s = watch ks (watch_one (deadline now warning_window k.rotation_due_at) k s)

  unfoldable pub enforce_rotation_slas : KeyDb → RotationSlaReport × KeyDb
  enforce_rotation_slas db = watch (select watched db.keys) (no_report, db)
