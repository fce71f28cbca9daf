-- ===== src/Promotions/Posture.antt =====
-- `evaluate_promotion_posture` of backend/src/promotions.rs. A score is in hundredths, as its column
-- NUMERIC(5,2) has it, a confidence in thousandths; `tenths` is `{:.1}` of a score.
use mcp_host.Prelude.{
  ℕ, Bool, true, false, not, ◌&&◌, ◌||◌, Option, none, some, List, [], ◌∷◌, ◌++◌, String, str_eq,
  format, show_int, to_lowercase, ltb, ltb_ℤ, if◌then◌else◌, ℤ, pos, Value, null, bool, number,
  string, array, object, Elements, no_element, element, Entries, no_entry, entry,
}

pub record PromotionTrack : Type 0 where
  pub id : ℕ
  pub owner_id : ℕ
  pub name : String
  pub tier : String
  pub stages : List String
  pub workflow_id : Option ℕ

pub record IntelligenceSignal : Type 0 where
  pub capability : String
  pub status : String
  pub score : ℕ
  pub confidence : ℕ

pub record PromotionPostureSignals : Type 0 where
  pub artifact_status : Option String
  pub credential_health_status : Option String
  pub trust_lifecycle_state : Option String
  pub trust_attestation_status : Option String
  pub trust_remediation_state : Option String
  pub trust_remediation_attempts : Option ℤ
  pub remediation_status : Option String
  pub remediation_failure_reason : Option String
  pub intelligence : List IntelligenceSignal

pub record PromotionVerdict : Type 0 where
  pub allowed : Bool
  pub veto_reasons : List String
  pub metadata : Value
  pub posture_notes : List String

-- The mutable locals of the function.
pub record Draft : Type 0 where
  pub allowed : Bool
  pub veto_reasons : List String
  pub posture_notes : List String
  pub artifact_map : Entries
  pub trust_map : Entries
  pub remediation_map : Entries

abbrev pub insert : String → Value → Entries → Entries
insert key value no_entry = entry key value no_entry
insert key value (entry k v rest) = entry k v (insert key value rest)

abbrev pub note : List String → Draft → Draft
note pieces d = record d { posture_notes = d.posture_notes ++ format pieces ∷ [] }

abbrev pub veto : List String → Draft → Draft
veto pieces d = record d { allowed = false; veto_reasons = d.veto_reasons ++ format pieces ∷ [] }

abbrev pub veto_if : Bool → List String → Draft → Draft
veto_if test pieces d = if test then veto pieces d else d

abbrev pub to_artifact : String → Value → Draft → Draft
to_artifact key value d = record d { artifact_map = insert key value d.artifact_map }

abbrev pub to_trust : String → Value → Draft → Draft
to_trust key value d = record d { trust_map = insert key value d.trust_map }

abbrev pub to_remediation : String → Value → Draft → Draft
to_remediation key value d = record d { remediation_map = insert key value d.remediation_map }

abbrev pub check_artifact : Option String → Draft → Draft
check_artifact none d = note ("posture:artifact.status:missing" ∷ []) (to_artifact "status" null d)
check_artifact (some s) d =
    note ("posture:artifact.status:" ∷ s ∷ []) (to_artifact "status" (string s) d)

-- A signal that is present is kept in its map and noted, and vetoes where it is bad.
abbrev pub check_signal :
    {A : Type 0}
    → (A → Bool)
    → (reason label : String) → (A → String)
    → (A → Draft → Draft)
    → Option A
    → Draft
    → Draft
check_signal bad reason label show put none d = d
check_signal bad reason label show put (some a) d =
    veto_if (bad a) (reason ∷ show a ∷ []) (note (label ∷ show a ∷ []) (put a d))

abbrev pub as_text : String → String
as_text s = s

unfoldable pub bad_credential : String → Bool
bad_credential s = not (str_eq s "healthy")

abbrev pub check_credential : Option String → Draft → Draft
check_credential =
    check_signal bad_credential "artifact.credential_health=" "posture:artifact.credential_health:"
      as_text (λ s. to_artifact "credential_health_status" (string s))

unfoldable pub bad_lifecycle : String → Bool
bad_lifecycle s = not (str_eq s "trusted")

abbrev pub check_lifecycle : Option String → Draft → Draft
check_lifecycle =
    check_signal bad_lifecycle "trust.lifecycle_state=" "posture:trust.lifecycle_state:" as_text
      (λ s. to_trust "lifecycle_state" (string s))

unfoldable pub bad_attestation : String → Bool
bad_attestation s = not (str_eq s "trusted") && not (str_eq s "certified")

abbrev pub check_attestation : Option String → Draft → Draft
check_attestation =
    check_signal bad_attestation "trust.attestation_status=" "posture:trust.attestation_status:"
      as_text (λ s. to_trust "attestation_status" (string s))

unfoldable pub bad_remediation_state : String → Bool
bad_remediation_state s = not (str_eq s "remediation:none") && not (str_eq s "remediation:clear")

abbrev pub check_remediation_state : Option String → Draft → Draft
check_remediation_state =
    check_signal bad_remediation_state "trust.remediation_state=" "posture:trust.remediation_state:"
      as_text (λ s. to_trust "remediation_state" (string s))

unfoldable pub bad_attempts : ℤ → Bool
bad_attempts n = ltb_ℤ (pos 3) n

abbrev pub check_attempts : Option ℤ → Draft → Draft
check_attempts =
    check_signal bad_attempts "trust.remediation_attempts=" "posture:trust.remediation_attempts:"
      show_int (λ n. to_trust "remediation_attempts" (number n))

unfoldable pub bad_remediation : String → Bool
bad_remediation s = str_eq s "failed" || str_eq s "cancelled"

abbrev pub check_remediation : Option String → Draft → Draft
check_remediation =
    check_signal bad_remediation "remediation.status=" "posture:remediation.status:" as_text
      (λ s. to_remediation "status" (string s))

abbrev pub check_failure_reason : Option String → Draft → Draft
check_failure_reason none d = d
check_failure_reason (some s) d =
    note ("posture:remediation.failure_reason:" ∷ s ∷ [])
      (to_remediation "failure_reason" (string s) d)

-- `eq_ignore_ascii_case("critical")`, and a score below 60.0
unfoldable pub bad_intelligence : IntelligenceSignal → Bool
bad_intelligence i = str_eq (to_lowercase i.status) "critical" || ltb i.score 6000

abbrev pub start : Draft
start = record {
  allowed = true;
  veto_reasons = [];
  posture_notes = [];
  artifact_map = no_entry;
  trust_map = no_entry;
  remediation_map = no_entry;
}

-- The checks before those of the intelligence scores.
abbrev pub draft : PromotionPostureSignals → Draft
draft s = check_failure_reason s.remediation_failure_reason (
    check_remediation s.remediation_status (
      check_attempts s.trust_remediation_attempts (
        check_remediation_state s.trust_remediation_state (
          check_attestation s.trust_attestation_status (
            check_lifecycle s.trust_lifecycle_state (
              check_credential s.credential_health_status
                (check_artifact s.artifact_status start)))))))

abbrev unless_empty : String → Entries → Entries → Entries
unless_empty key no_entry root = root
unless_empty key (entry k v rest) root = insert key (object (entry k v rest)) root

abbrev intel_metadata : List IntelligenceSignal → Elements
intel_metadata [] = no_element
intel_metadata (i ∷ is) =
    element
      (object (
        entry "capability" (string i.capability) (
          entry "status" (string i.status) (
            entry "score" (number (pos i.score))
              (entry "confidence" (number (pos i.confidence)) no_entry)))))
      (intel_metadata is)

abbrev with_intelligence : List IntelligenceSignal → Entries → Entries
with_intelligence [] root = root
with_intelligence (i ∷ is) root = insert "intelligence" (array (intel_metadata (i ∷ is))) root

abbrev pub track_value : PromotionTrack → Value
track_value t = object (
    entry "id" (number (pos t.id))
      (entry "name" (string t.name) (entry "tier" (string t.tier) no_entry)))

module _ (tenths : ℕ → String) where
  abbrev pub score_reason : IntelligenceSignal → List String
  score_reason i = "intelligence." ∷ i.capability ∷ "=" ∷ i.status ∷ ":" ∷ tenths i.score ∷ []

  abbrev pub score_note : IntelligenceSignal → List String
  score_note i = "posture:intelligence." ∷ i.capability ∷ ":" ∷ i.status ∷ ":" ∷ tenths i.score ∷ []

  abbrev pub check_intelligence : List IntelligenceSignal → Draft → Draft
  check_intelligence [] d = d
  check_intelligence (i ∷ is) d =
      check_intelligence is (veto_if (bad_intelligence i) (score_reason i) (note (score_note i) d))

  unfoldable pub evaluate_promotion_posture :
      PromotionTrack → PromotionPostureSignals → PromotionVerdict
  evaluate_promotion_posture track s =
      let d = draft s in
      let checked = check_intelligence s.intelligence d in
      record {
        allowed = checked.allowed;
        veto_reasons = checked.veto_reasons;
        metadata = object (
            entry "track" (track_value track) (
              entry "signals"
                (object (
                  with_intelligence s.intelligence (
                    unless_empty "remediation" d.remediation_map (
                      unless_empty "trust" d.trust_map
                        (unless_empty "artifact" d.artifact_map no_entry)))))
                no_entry));
        posture_notes = checked.posture_notes;
      }

abbrev texts : List String → Elements
texts [] = no_element
texts (s ∷ ss) = element (string s) (texts ss)

abbrev notes_unless_empty : List String → Entries → Entries
notes_unless_empty [] root = root
notes_unless_empty (s ∷ ss) root = insert "notes" (array (texts (s ∷ ss))) root

unfoldable pub build_verdict_payload : PromotionTrack → String → PromotionVerdict → Entries
build_verdict_payload track stage v = insert "metadata" v.metadata (
    notes_unless_empty v.posture_notes (
      entry "allowed" (bool v.allowed) (
        entry "track" (track_value track) (
          entry "stage" (string stage) (entry "reasons" (array (texts v.veto_reasons)) no_entry)))))
