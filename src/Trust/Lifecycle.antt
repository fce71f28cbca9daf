-- ===== src/Trust/Lifecycle.antt =====
-- The trust lifecycle of a VM, backend/src/policy/trust.rs.
use mcp_host.Prelude.{◌≡◌, refl, Option, none, some, List, [], ◌∷◌, String, str_eq, if◌then◌else◌}
use mcp_host.Trust.Attestation.{AttestationStatus, trusted, untrusted, unknown}

pub data TrustLifecycleState : Type 0 where
  suspect quarantined remediating restored : TrustLifecycleState

unfoldable pub lifecycle_str : TrustLifecycleState → String
lifecycle_str suspect = "suspect"
lifecycle_str quarantined = "quarantined"
lifecycle_str remediating = "remediating"
lifecycle_str restored = "restored"

unfoldable pub from_str : String → Option TrustLifecycleState
from_str value =
    if str_eq value "suspect"
    then some suspect
    else if str_eq value "quarantined"
    then some quarantined
    else if str_eq value "remediating"
    then some remediating
    else if str_eq value "restored"
    then some restored
    else none

-- Every lifecycle state is read back from the text that it is stored as.
pub from_str-lifecycle_str : (s : TrustLifecycleState) → from_str (lifecycle_str s) ≡ some s
unfolding from_str lifecycle_str
from_str-lifecycle_str restored = refl
from_str-lifecycle_str _ = refl

abbrev or_suspect : Option TrustLifecycleState → TrustLifecycleState
or_suspect none = suspect
or_suspect (some s) = s

abbrev unless_remediating : Option TrustLifecycleState → TrustLifecycleState
unless_remediating (some remediating) = remediating
unless_remediating _ = quarantined

unfoldable pub lifecycle_for_attestation :
    AttestationStatus → Option TrustLifecycleState → TrustLifecycleState
lifecycle_for_attestation trusted previous = restored
lifecycle_for_attestation unknown previous = or_suspect previous
lifecycle_for_attestation untrusted previous = unless_remediating previous

unfoldable pub remediation_notes_for_status : AttestationStatus → List String
remediation_notes_for_status trusted = "remediation:none" ∷ []
remediation_notes_for_status unknown = "remediation:monitor" ∷ []
remediation_notes_for_status untrusted = "remediation:investigate" ∷ []
