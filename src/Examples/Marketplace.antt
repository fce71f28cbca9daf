-- ===== src/Examples/Marketplace.antt =====
-- The theorems on the submissions of backend/src/marketplace.rs at concrete data.
use mcp_host.Prelude.{
  ℕ, ◌≡◌, refl, true, false, ◌⊎◌, none, some, List, [], ◌∷◌, String, show_nat, trim, str_eq,
  to_lowercase, pos, ok, err,
}
use mcp_host.Error.{AppError}
use mcp_host.Keys.Models.{ProviderKeyRecord, state_from_str, add_veto_note}
use mcp_host.Keys.Events.{KeyDb}
use mcp_host.Keys.Register.{summarize_for_policy, tier_requirement, list_keys}
use mcp_host.Keys.Summary.{newest_active, in_order}
use mcp_host.Marketplace.Models.{
  ProviderMarketplaceSubmissionRequest, ProviderPostureSnapshot, MarketDb, MarketplaceEvent,
  AuthUser,
}
use mcp_host.Marketplace.Posture.{of_another, ensure_provider_marketplace_eligible}
use mcp_host.Marketplace.Handlers.{
  submission_row, inserted_submission, create_provider_submission, fetch_submission,
  create_evaluation_run, transition_evaluation_run, fetch_evaluation, create_promotion_gate,
  record_marketplace_event,
}
use mcp_host.Marketplace.Rows.{Accountable}
use mcp_host.Marketplace.Entitled.{create_provider_submission_lem}
use mcp_host.Marketplace.Accountable.{
  Call, MarketRequest, submit, evaluate, move_evaluation, open_gate, handle, serve,
  serve-Accountable,
}

abbrev keys : KeyDb
keys = record {
  keys =
      record {
        id = 7;
        provider_id = 8;
        alias = none;
        state = "active";
        rotation_due_at = none;
        attestation_digest = some "AA==";
        attestation_signature = some "AA==";
        attestation_verified_at = some 60;
        activated_at = some 60;
        retired_at = none;
        compromised_at = none;
        version = pos 1;
        created_at = 60;
        updated_at = 60;
      }
      ∷ [];
  rotations = [];
  bindings = [];
  events = [];
  tiers = [];
  notified = [];
}

abbrev market : MarketDb
market = record { submissions = []; evaluations = []; promotions = []; events = []; keys = keys }

abbrev operator : AuthUser
operator = record { user_id = 5; role = "operator" }

abbrev request : ProviderMarketplaceSubmissionRequest
request = record {
  tier = "gold";
  manifest_uri = " registry/slack ";
  artifact_digest = some " ";
  release_notes = none;
  metadata = none;
}

create_provider_submission_lem_example :
    (((str_eq (trim request.manifest_uri) "" ≡ true)
        ⊎ (of_another 8 (tier_requirement (trim request.tier) keys) ≡ true)
        ⊎ ((summarize_for_policy 100 8 keys).vetoed ≡ true))
      × ((e : AppError) × (create_provider_submission show_nat show_nat 100 100 2 operator 1 8
              request market
            ≡ (err e, market))))
    ⊎ ((k : ProviderKeyRecord) × (s : ProviderPostureSnapshot) × (newest_active 8 keys ≡ some k)
        × (in_order 100 k ≡ true)
        × (of_another 8 (tier_requirement (trim request.tier) keys) ≡ false)
        × (s.vetoed ≡ false)
        × (create_provider_submission show_nat show_nat 100 100 2 operator 1 8 request market ≡ (
          ok (submission_row show_nat show_nat 100 100 2 operator 1 8 request s),
          inserted_submission show_nat show_nat 100 100 2 operator
              (submission_row show_nat show_nat 100 100 2 operator 1 8 request s)
              market,
        )))
create_provider_submission_lem_example =
    create_provider_submission_lem show_nat show_nat 100 100 2 1 8 operator request market

abbrev call : ℕ → ℕ → Call
call event row = record {
  now = 100;
  db_now = 100;
  event_id = event;
  new_id = row;
  user = operator;
  provider = 8;
}

abbrev requests : List MarketRequest
requests =
    submit (call 2 1) request
    ∷ evaluate (call 3 4) 1 (record {
      evaluation_type = "security";
      status = some " RUNNING ";
      evaluator_ref = none;
      result = none;
    })
    ∷ open_gate (call 5 6) 4 (record { gate = "beta"; status = none; notes = none })
    ∷ move_evaluation (call 7 0) 4
        (record { status = "passed"; completed_at = some 120; result = none })
    ∷ []

serve-Accountable_example : Accountable (serve show_nat show_nat requests market)
serve-Accountable_example =
    serve-Accountable show_nat show_nat requests market
      (record { submissions = tt; evaluations = tt; promotions = tt; events = tt })

abbrev statuses : MarketDb → List String
statuses db = of_events db.events
  where
    of_events : List MarketplaceEvent → List String
    of_events [] = []
    of_events (e ∷ es) = e.event_type ∷ of_events es

-- All four requests are answered, each with its event.
events_test :
    statuses (serve show_nat show_nat requests market)
    ≡ "submission_created" ∷ "evaluation_started" ∷ "promotion_created" ∷ "evaluation_transitioned"
      ∷ []
unfolding handle create_provider_submission ensure_provider_marketplace_eligible trim
    summarize_for_policy tier_requirement list_keys state_from_str add_veto_note fetch_submission
    create_evaluation_run transition_evaluation_run fetch_evaluation create_promotion_gate
    record_marketplace_event to_lowercase
events_test = refl
