-- ===== src/Policy/Artifacts.antt =====
-- `derive_health` and `classify_tier` of backend/src/marketplace.rs.
use mcp_host.Prelude.{
  ap, ◌≡◌, refl, sym, ◌∙◌, Bool, true, false, not, ◌&&◌, ◌||◌, List, [], ◌∷◌, ◌++◌, String, str_eq,
  format, to_lowercase, starts_with, starts_with-append, starts_with-other, any, if◌then◌else◌, inl,
  inr, Bool-cases,
}

-- The columns of build_artifact_platforms that count for an artifact's health.
pub record MarketplacePlatform : Type 0 where
  pub platform : String
  pub credential_health_status : String

pub record ArtifactHealth : Type 0 where
  pub overall : String
  pub issues : List String

unfoldable pub matches_success : String → Bool
matches_success status =
    let s = to_lowercase status in
    str_eq s "succeeded" || str_eq s "success" || str_eq s "completed"

unfoldable pub matches_healthy : String → Bool
matches_healthy status =
    let s = to_lowercase status in
    str_eq s "healthy"
    || str_eq s "ok"
    || str_eq s "success"
    || str_eq s "succeeded"
    || str_eq s "passing"

abbrev pub platform_issues : List MarketplacePlatform → List String
platform_issues [] = []
platform_issues (p ∷ ps) =
    let rest = platform_issues ps in
    if matches_healthy p.credential_health_status
    then rest
    else format ("platform:" ∷ p.platform ∷ ":" ∷ p.credential_health_status ∷ []) ∷ rest

abbrev pub issues_of : String → String → List MarketplacePlatform → List String
issues_of status run_health platforms =
    (if matches_success status then [] else format ("build_status:" ∷ status ∷ []) ∷ [])
    ++ (if matches_healthy run_health then [] else format ("credential:" ∷ run_health ∷ []) ∷ [])
    ++ platform_issues platforms

abbrev pub is_empty : List String → Bool
is_empty [] = true
is_empty (s ∷ ss) = false

unfoldable pub derive_health : String → String → List MarketplacePlatform → ArtifactHealth
derive_health status run_health platforms =
    let issues = issues_of status run_health platforms in
    record {
      overall =
          if is_empty issues
          then "healthy"
          else if any (starts_with "build_status:") issues
          then "blocked"
          else "degraded";
      issues = issues;
    }

unfoldable pub classify_tier : String → Bool → ArtifactHealth → String
classify_tier server_type multi_arch health =
    let healthy = str_eq health.overall "healthy" in
    if healthy && multi_arch
    then format ("gold:" ∷ server_type ∷ [])
    else if healthy
    then format ("silver:" ∷ server_type ∷ [])
    else if multi_arch
    then format ("watchlist-multi:" ∷ server_type ∷ [])
    else format ("watchlist:" ∷ server_type ∷ [])

build_issue : (s : String) → starts_with "build_status:" (format ("build_status:" ∷ s ∷ [])) ≡ true
build_issue s = starts_with-append "build_status:" (format (s ∷ []))

credential_issue :
    (s : String) → starts_with "build_status:" (format ("credential:" ∷ s ∷ [])) ≡ false
credential_issue s = starts_with-other "b" "c" "uild_status:" "redential:" (format (s ∷ [])) refl

platform_issue :
    (s t : String) → starts_with "build_status:" (format ("platform:" ∷ s ∷ ":" ∷ t ∷ [])) ≡ false
platform_issue s t =
    starts_with-other "b" "p" "uild_status:" "latform:" (format (s ∷ ":" ∷ t ∷ [])) refl

abbrev pub all_healthy : List MarketplacePlatform → Bool
all_healthy [] = true
all_healthy (p ∷ ps) = matches_healthy p.credential_health_status && all_healthy ps

-- The verdict straight from the columns: a build that did not succeed blocks, and any unhealthy credential
-- degrades.
abbrev pub reference_health : String → String → List MarketplacePlatform → String
reference_health status run_health platforms =
    if not (matches_success status)
    then "blocked"
    else if matches_healthy run_health && all_healthy platforms
    then "healthy"
    else "degraded"

abbrev pub reference_tier : String → Bool → Bool → String
reference_tier server_type multi_arch healthy = format (
    (if healthy
      then (if multi_arch then "gold:" else "silver:")
      else (if multi_arch then "watchlist-multi:" else "watchlist:"))
    ∷ server_type
    ∷ [])

abbrev from_issues : List String → String
from_issues issues =
    if is_empty issues
    then "healthy"
    else if any (starts_with "build_status:") issues
    then "blocked"
    else "degraded"

platform_issues-any :
    (ps : List MarketplacePlatform)
    → (any (starts_with "build_status:") (platform_issues ps) ≡ false)
      × (is_empty (platform_issues ps) ≡ all_healthy ps)
platform_issues-any [] = (refl, refl)
platform_issues-any (p ∷ ps) = elim (Bool-cases (matches_healthy p.credential_health_status)) [
  | inl h ↦ rw h (platform_issues-any ps)
  | inr h ↦
      rw h
        (rw (platform_issue p.platform p.credential_health_status) (platform_issues-any ps).0, refl)
]

-- With the issues of the platforms as they are.
from_parts :
    (success healthy rest : Bool) (build credential : String) (issues : List String)
    → starts_with "build_status:" build ≡ true
    → starts_with "build_status:" credential ≡ false
    → any (starts_with "build_status:") issues ≡ false
    → is_empty issues ≡ rest
    → from_issues (
        (if success then [] else build ∷ []) ++ (if healthy then [] else credential ∷ []) ++ issues)
      ≡ (if not success then "blocked" else if healthy && rest then "healthy" else "degraded")
from_parts false healthy rest build credential issues b c a e = rw b refl
from_parts true false rest build credential issues b c a e = rw c (rw a refl)
from_parts true true rest build credential issues b c a e = rw e (rw a refl)

tier_of :
    (h : String) (server_type : String) (multi_arch healthy : Bool) (issues : List String)
    → str_eq h "healthy" ≡ healthy
    → classify_tier server_type multi_arch (record { overall = h; issues = issues })
      ≡ reference_tier server_type multi_arch healthy
unfolding classify_tier
tier_of h server_type true true issues e = rw e refl
tier_of h server_type false true issues e = rw e refl
tier_of h server_type true false issues e = rw e refl
tier_of h server_type false false issues e = rw e refl

overall_text :
    (success healthy : Bool)
    → str_eq
        (if not success then "blocked" else if healthy then "healthy" else "degraded")
        "healthy"
      ≡ (success && healthy)
overall_text true true = refl
overall_text true false = refl
overall_text false true = refl
overall_text false false = refl

-- The health that is read off the texts of the issues is the verdict straight from the columns, and the
-- tier is gold or silver exactly where the build succeeded and the credentials of the run and of every
-- platform are healthy, and a watchlist otherwise, in each case told apart by the architectures.
pub derive_health-reference :
    (status run_health server_type : String) (multi_arch : Bool)
    (platforms : List MarketplacePlatform)
    → ((derive_health status run_health platforms).overall
        ≡ reference_health status run_health platforms)
      × (classify_tier server_type multi_arch (derive_health status run_health platforms)
          ≡ reference_tier server_type multi_arch
              (matches_success status && (matches_healthy run_health && all_healthy platforms)))
unfolding derive_health
derive_health-reference status run_health server_type multi_arch platforms =
    let (a, e) = platform_issues-any platforms in
    let overall =
      from_parts (matches_success status) (matches_healthy run_health) (all_healthy platforms)
        (format ("build_status:" ∷ status ∷ [])) (format ("credential:" ∷ run_health ∷ []))
        (platform_issues platforms) (build_issue status) (credential_issue run_health) a e in
    (
      overall,
      tier_of _ server_type multi_arch
          (matches_success status && (matches_healthy run_health && all_healthy platforms)) _
          (ap (λ h. str_eq h "healthy") overall ∙ overall_text (matches_success status) _),
    )

pub derive_health-healthy :
    (status run_health : String) (platforms : List MarketplacePlatform)
    → str_eq (derive_health status run_health platforms).overall "healthy" ≡ true
    → (matches_success status ≡ true)
      × (matches_healthy run_health ≡ true)
      × (all_healthy platforms ≡ true)
derive_health-healthy status run_health platforms h =
    let overall = (derive_health-reference status run_health "" false platforms).0 in
    three _ _ _
      (sym (ap (λ t. str_eq t "healthy") overall ∙ overall_text (matches_success status) _) ∙ h)
  where
    three : (a b c : Bool) → (a && (b && c)) ≡ true → (a ≡ true) × (b ≡ true) × (c ≡ true)
    three true true true e = (refl, refl, refl)
    three true true false e = cc
    three true false c e = cc
    three false b c e = cc
