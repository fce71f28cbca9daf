-- ===== src/Policy/Certifications.antt =====
-- backend/src/evaluations.rs, and the part of backend/src/policy.rs that looks at an artifact's
-- certifications. `json_text` is serde's text of a value.
use Prim.Native.Nat.{Ordering}
use Prim.Native.String.{compare}
use mcp_host.Prelude.{
  ℕ, ◌==◌, Bool, true, false, not, Option, none, some, List, [], ◌∷◌, ◌++◌, String, Value, str_eq,
  format, leb, ltb, ◌&&◌, ◌||◌, if◌then◌else◌, select, order_by,
}

pub data CertificationStatus : Type 0 where
  pending pass fail : CertificationStatus

-- The columns of evaluation_certifications that the policy reads.
pub record EvaluationCertification : Type 0 where
  pub id : ℕ
  pub manifest_digest : String
  pub tier : String
  pub policy_requirement : String
  pub status : CertificationStatus
  pub evidence_source : Option Value
  pub valid_from : ℕ
  pub valid_until : Option ℕ
  pub refresh_cadence_seconds : Option ℕ
  pub next_refresh_at : Option ℕ

abbrev until_ok : ℕ → Option ℕ → Bool
until_ok moment none = true
until_ok moment (some until) = leb moment until

unfoldable pub is_active : EvaluationCertification → ℕ → Bool
is_active c moment = leb c.valid_from moment && until_ok moment c.valid_until

-- In the order of their bytes.
abbrev text_before : String → String → Bool
text_before s t = elim (compare s t) [ Ordering.lt ↦ true | _ ↦ false ]

-- ORDER BY policy_requirement, valid_from DESC, id DESC
abbrev pub listed_before : EvaluationCertification → EvaluationCertification → Bool
listed_before a b =
    text_before a.policy_requirement b.policy_requirement
    || str_eq a.policy_requirement b.policy_requirement
      && (ltb b.valid_from a.valid_from || (a.valid_from == b.valid_from) && ltb b.id a.id)

unfoldable pub list_for_digest_and_tier :
    String → String → List EvaluationCertification → List EvaluationCertification
list_for_digest_and_tier digest tier rows =
    order_by listed_before
      (select (λ c. str_eq c.manifest_digest digest && str_eq c.tier tier) rows)

-- The first certification of each requirement: the map's entries, sorted by their keys.
abbrev pub firsts : List EvaluationCertification → List EvaluationCertification
firsts [] = []
firsts (c ∷ cs) =
    c ∷ select (λ d. not (str_eq d.policy_requirement c.policy_requirement)) (firsts cs)

unfoldable pub latest_per_requirement :
    String → String → List EvaluationCertification → List EvaluationCertification
latest_per_requirement digest tier rows = firsts (list_for_digest_and_tier digest tier rows)

-- What a certification adds to the decision: whether it blocks, and its notes.
pub record Finding : Type 0 where
  pub blocked : Bool
  pub notes : List String

module _ (to_rfc3339 : ℕ → String) (json_text : Value → String) where
  abbrev pub stale_detail : (now : ℕ) → Option ℕ → Option ℕ → Option String
  stale_detail now (some next) cadence =
      if leb next now then some (format ("due@" ∷ to_rfc3339 next ∷ [])) else none
  stale_detail now none (some cadence) = some "missing-next-refresh"
  stale_detail now none none = none

  abbrev labelled : String → String → String → String
  labelled label tier requirement =
      format ("evaluation:" ∷ label ∷ ":" ∷ tier ∷ ":" ∷ requirement ∷ [])

  abbrev stale_notes : String → String → Option String → List String
  stale_notes tier requirement none = []
  stale_notes tier requirement (some detail) =
      format ("evaluation:stale:" ∷ tier ∷ ":" ∷ requirement ∷ ":" ∷ detail ∷ []) ∷ []

  abbrev provenance_notes : String → String → Option Value → List String
  provenance_notes tier requirement none = []
  provenance_notes tier requirement (some source) =
      format ("evaluation:provenance:" ∷ tier ∷ ":" ∷ requirement ∷ ":" ∷ json_text source ∷ [])
      ∷ []

  abbrev pub is_stale : Option String → Bool
  is_stale none = false
  is_stale (some d) = true

  -- `match certification.status`, with whether it is active and stale
  abbrev pub verdict : CertificationStatus → (active stale : Bool) → String → String → Finding
  verdict pass true false tier requirement = record {
    blocked = false;
    notes = labelled "certified" tier requirement ∷ [];
  }
  verdict pass true true tier requirement = record { blocked = true; notes = [] }
  verdict pass false stale tier requirement = record {
    blocked = true;
    notes = labelled "expired" tier requirement ∷ [];
  }
  verdict pending active stale tier requirement = record {
    blocked = true;
    notes = labelled (if active then "pending" else "pending-inactive") tier requirement ∷ [];
  }
  verdict fail active stale tier requirement = record {
    blocked = true;
    notes = labelled (if active then "failed" else "failed-inactive") tier requirement ∷ [];
  }

  unfoldable pub certification_finding : (now : ℕ) → String → EvaluationCertification → Finding
  certification_finding now tier c =
      let detail = stale_detail now c.next_refresh_at c.refresh_cadence_seconds in
      let v = verdict c.status (is_active c now) (is_stale detail) tier c.policy_requirement in
      record {
        blocked = is_stale detail || v.blocked;
        notes =
            stale_notes tier c.policy_requirement detail
            ++ provenance_notes tier c.policy_requirement c.evidence_source
            ++ v.notes;
      }

  abbrev pub all_findings : (now : ℕ) → String → List EvaluationCertification → Finding
  all_findings now tier [] = record { blocked = false; notes = [] }
  all_findings now tier (c ∷ cs) =
      let f = certification_finding now tier c in
      let rest = all_findings now tier cs in
      record { blocked = f.blocked || rest.blocked; notes = f.notes ++ rest.notes }

  abbrev pub by_latest : (now : ℕ) → String → String → List EvaluationCertification → Finding
  by_latest now digest tier [] = record {
    blocked = true;
    notes = format ("evaluation:missing-certification:" ∷ tier ∷ ":" ∷ digest ∷ []) ∷ [];
  }
  by_latest now digest tier (c ∷ cs) = all_findings now tier (c ∷ cs)

  unfoldable pub certification_gate :
      (now : ℕ) → Option String → Option String → List EvaluationCertification → Finding
  certification_gate now none tier rows = record {
    blocked = true;
    notes = "evaluation:missing-manifest" ∷ [];
  }
  certification_gate now (some digest) none rows = record {
    blocked = true;
    notes = "evaluation:missing-tier" ∷ [];
  }
  certification_gate now (some digest) (some tier) rows =
      by_latest now digest tier (latest_per_requirement digest tier rows)
