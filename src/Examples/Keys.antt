-- ===== src/Examples/Keys.antt =====
-- The theorems on backend/src/keys/service.rs at concrete data.
use mcp_host.Prelude.{
  ℕ, ◌≡◌, ◌↔◌, refl, Bool, true, false, none, some, [], ◌∷◌, String, show_nat, trim,
}
use mcp_host.Keys.Models.{
  ProviderKeyRecord, state_str, state_from_str, retired, from, add_veto_note,
}
use mcp_host.Keys.Events.{KeyDb, dispatch_notification, event_str}
use mcp_host.Keys.Register.{
  RegisterProviderKey, register_key, registered_row, list_keys, summarize_for_policy,
}
use mcp_host.Keys.Rotation.{RequestKeyRotation, request_rotation, rotatable, revoke_key}
use mcp_host.Keys.Summary.{newest_active, in_order, summarize_for_policy-vetoed}
use mcp_host.Keys.Lifecycle.{Ended}
use mcp_host.Keys.Revoked.{rotate, unmoved, more, revoke_key-KeySteps-Ended}
use mcp_host.Keys.Deadlines.{Spaced, passes, enforce_rotation_slas-Spaced}

abbrev any_text : String → Bool
any_text s = true

abbrev request : RegisterProviderKey
request = record {
  alias = some "primary";
  attestation_digest = some "AA==";
  attestation_signature = some "AA==";
  rotation_due_at = some 5000;
}

abbrev empty : KeyDb
empty = record { keys = []; rotations = []; bindings = []; events = []; tiers = []; notified = [] }

abbrev stored : KeyDb
stored = (register_key any_text show_nat 100 1 10 7 request empty).1

summarize_for_policy-vetoed_example :
    (((summarize_for_policy 200 7 stored).vetoed ≡ false) ↔ (
      (k : ProviderKeyRecord) × (newest_active 7 stored ≡ some k)
      × (in_order 200 k ≡ true)
      × ((summarize_for_policy 200 7 stored).record_of ≡ some k)))
    × (((summarize_for_policy 200 7 stored).vetoed ≡ false)
        ↔ ((summarize_for_policy 200 7 stored).notes ≡ []))
summarize_for_policy-vetoed_example = summarize_for_policy-vetoed 200 7 stored

-- A new key is active, and its deadline is near: the summary vetoes with one note.
near_test : (summarize_for_policy 200 7 stored).notes ≡ "rotation-approaching" ∷ []
unfolding summarize_for_policy register_key list_keys state_from_str state_str add_veto_note
near_test = refl

-- A request for its rotation takes it out of use at once.
abbrev rotation : RequestKeyRotation
rotation = record {
  attestation_digest = some "AA==";
  attestation_signature = some "AA==";
  request_actor_ref = some " ops ";
}

rotating_test :
    (summarize_for_policy 200 7
      (request_rotation any_text show_nat show_nat 150 11 12 7 1 rotation stored).1).notes
    ≡ "not-active" ∷ []
unfolding summarize_for_policy register_key list_keys state_from_str state_str add_veto_note
    request_rotation rotatable trim
rotating_test = refl

abbrev revoked_db : KeyDb
revoked_db = (revoke_key any_text show_nat show_nat "" 300 20 21 7 1 none false stored).1

abbrev revoked_key : ProviderKeyRecord
revoked_key = record (from (registered_row any_text show_nat 100 1 7 request "AA==" "AA==")) {
  state = retired;
  retired_at = some 300;
  updated_at = 300;
}

abbrev later_db : KeyDb
later_db = (request_rotation any_text show_nat show_nat 350 30 31 7 1 rotation revoked_db).1

revoke_key-KeySteps-Ended_example :
    Ended 1 later_db.keys
    × ((later : ℕ) (k : ProviderKeyRecord)
        → (summarize_for_policy later 7 later_db).record_of ≡ some k
        → k.id ≡ 1
        → (summarize_for_policy later 7 later_db).vetoed ≡ true)
unfolding summarize_for_policy register_key list_keys state_from_str state_str add_veto_note
    request_rotation rotatable trim revoke_key dispatch_notification
revoke_key-KeySteps-Ended_example =
    revoke_key-KeySteps-Ended any_text show_nat show_nat "" 300 20 21 7 1 none false stored later_db
      revoked_key refl (more unmoved (rotate 350 30 31 7 1 rotation))

-- Three checks of a deadline that has passed: the second is within the interval of the first.
enforce_rotation_slas-Spaced_example :
    Spaced 50 (passes 50 show_nat show_nat "" 10 (λ k. k) (6000 ∷ 6040 ∷ 6100 ∷ []) stored).events
unfolding Spaced register_key state_str event_str
enforce_rotation_slas-Spaced_example =
    enforce_rotation_slas-Spaced 50 show_nat show_nat "" 10 (λ k. k) (6000 ∷ 6040 ∷ 6100 ∷ [])
      stored (tt, tt)
