-- ===== src/Remediation/Failures.antt =====
-- Failure reasons and their classes, backend/src/remediation.rs.
use mcp_host.Prelude.{◌≡◌, refl, Option, none, some, String, str_eq, if◌then◌else◌}

pub data RemediationFailureReason : Type 0 where
  execution_failure transient_infrastructure cancelled executor_unavailable policy_denied
        playbook_bug dependency_unavailable timeout :
      RemediationFailureReason

pub data RemediationFailureClassification : Type 0 where
  structural transient cancelled_class : RemediationFailureClassification

unfoldable pub class_str : RemediationFailureClassification → String
class_str structural = "structural"
class_str transient = "transient"
class_str cancelled_class = "cancelled"

unfoldable pub reason_str : RemediationFailureReason → String
reason_str execution_failure = "execution-failure"
reason_str transient_infrastructure = "transient-infrastructure"
reason_str cancelled = "cancelled"
reason_str executor_unavailable = "executor-unavailable"
reason_str policy_denied = "policy-denied"
reason_str playbook_bug = "playbook-bug"
reason_str dependency_unavailable = "dependency-unavailable"
reason_str timeout = "timeout"

unfoldable pub classification : RemediationFailureReason → RemediationFailureClassification
classification execution_failure = structural
classification policy_denied = structural
classification playbook_bug = structural
classification transient_infrastructure = transient
classification executor_unavailable = transient
classification dependency_unavailable = transient
classification timeout = transient
classification cancelled = cancelled_class

unfoldable pub parse : String → Option RemediationFailureReason
parse value =
    if str_eq value "execution-failure"
    then some execution_failure
    else if str_eq value "transient-infrastructure"
    then some transient_infrastructure
    else if str_eq value "cancelled"
    then some cancelled
    else if str_eq value "executor-unavailable"
    then some executor_unavailable
    else if str_eq value "policy-denied"
    then some policy_denied
    else if str_eq value "playbook-bug"
    then some playbook_bug
    else if str_eq value "dependency-unavailable"
    then some dependency_unavailable
    else if str_eq value "timeout"
    then some timeout
    else none

-- Every failure reason is read back from the text that it is stored as.
pub parse-reason_str : (r : RemediationFailureReason) → parse (reason_str r) ≡ some r
unfolding parse reason_str
parse-reason_str timeout = refl
parse-reason_str _ = refl
