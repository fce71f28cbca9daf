-- ===== src/Policy/Backends.antt =====
-- backend/src/policy.rs: backends with their capabilities, the backend that a server's configuration asks
-- for, and `select_backend`.
use mcp_host.Prelude.{
  Bool, true, false, not, Option, none, some, List, [], ◌∷◌, ◌++◌, map, String, Value, str_eq,
  format, ◌&&◌, if◌then◌else◌, find, any,
}
use mcp_host.Trust.Outcome.{and_then, text_field, option_map}

pub data RuntimeBackend : Type 0 where
  docker kubernetes virtual_machine : RuntimeBackend

-- `RuntimeBackend::as_str` and `from_str`
unfoldable pub backend_str : RuntimeBackend → String
backend_str docker = "docker"
backend_str kubernetes = "kubernetes"
backend_str virtual_machine = "virtual-machine"

unfoldable pub backend_from_str : String → Option RuntimeBackend
backend_from_str s =
    if str_eq s "docker"
    then some docker
    else if str_eq s "kubernetes"
    then some kubernetes
    else if str_eq s "virtual-machine"
    then some virtual_machine
    else none

abbrev pub same_backend : RuntimeBackend → RuntimeBackend → Bool
same_backend docker docker = true
same_backend kubernetes kubernetes = true
same_backend virtual_machine virtual_machine = true
same_backend _ _ = false

pub data RuntimeCapability : Type 0 where
  gpu image_build : RuntimeCapability

unfoldable pub capability_str : RuntimeCapability → String
capability_str gpu = "gpu"
capability_str image_build = "image-build"

abbrev pub same_capability : RuntimeCapability → RuntimeCapability → Bool
same_capability gpu gpu = true
same_capability image_build image_build = true
same_capability _ _ = false

-- The set of capabilities is a list of them, in the order in which the set's iterator yields them.
pub record RuntimeExecutorDescriptor : Type 0 where
  pub backend : RuntimeBackend
  pub display_name : String
  pub capabilities : List RuntimeCapability

unfoldable pub supports : RuntimeExecutorDescriptor → RuntimeCapability → Bool
supports d requirement = any (same_capability requirement) d.capabilities

unfoldable pub supports_all : RuntimeExecutorDescriptor → List RuntimeCapability → Bool
supports_all d [] = true
supports_all d (r ∷ rs) = supports d r && supports_all d rs

abbrev pub join : List String → String
join [] = ""
join (s ∷ []) = s
join (s ∷ t ∷ ts) = format (s ∷ "," ∷ join (t ∷ ts) ∷ [])

abbrev pub keys_of : List RuntimeCapability → String
keys_of l = join (map capability_str l)

abbrev pub no_requirement : List RuntimeCapability → Bool
no_requirement [] = true
no_requirement (r ∷ rs) = false

-- What `select_backend` answers: the backend, whether the capabilities are satisfied, and the executor's
-- name; with the notes that it adds.
pub record Selection : Type 0 where
  pub backend : RuntimeBackend
  pub capabilities_satisfied : Bool
  pub executor_name : Option String
  pub notes : List String

abbrev pub satisfied_notes : RuntimeExecutorDescriptor → List RuntimeCapability → List String
satisfied_notes d [] = []
satisfied_notes d (r ∷ rs) =
    format (
      "executor:"
      ∷ backend_str d.backend
      ∷ ":capabilities-satisfied:"
      ∷ keys_of d.capabilities
      ∷ [])
    ∷ []

-- The part behind the candidate's own executor, given that executor and the notes so far. `executors` is
-- the map's values in the order in which it yields them.
unfoldable pub select_alternative :
    List RuntimeExecutorDescriptor
    → RuntimeBackend
    → List RuntimeCapability
    → Option RuntimeExecutorDescriptor
    → List String
    → Selection
select_alternative executors candidate requirements own notes =
    elim (find (λ d. not (same_backend d.backend candidate) && supports_all d requirements)
      executors) [
        | some d ↦ record {
          backend = d.backend;
          capabilities_satisfied = true;
          executor_name = some d.display_name;
          notes =
              notes
              ++ format (
                  "capabilities:routed:"
                  ∷ backend_str candidate
                  ∷ "->"
                  ∷ backend_str d.backend
                  ∷ ":"
                  ∷ keys_of requirements
                  ∷ [])
                ∷ [];
        }
        | none ↦
            if no_requirement requirements
            then record {
              backend = candidate;
              capabilities_satisfied = true;
              executor_name = option_map (λ d. d.display_name) own;
              notes = notes;
            }
            else record {
              backend = candidate;
              capabilities_satisfied = false;
              executor_name = option_map (λ d. d.display_name) own;
              notes =
                  notes
                  ++ format (
                      "capabilities:unsatisfied:"
                      ∷ backend_str candidate
                      ∷ ":"
                      ∷ keys_of requirements
                      ∷ [])
                    ∷ [];
            }
      ]

unfoldable pub select_backend :
    List RuntimeExecutorDescriptor → RuntimeBackend → List RuntimeCapability → Selection
select_backend executors candidate requirements =
    elim (find (λ d. same_backend d.backend candidate) executors) [
      | none ↦
          select_alternative executors candidate requirements none
            (format ("executor:unavailable:" ∷ backend_str candidate ∷ []) ∷ [])
      | some d ↦
          if supports_all d requirements
          then record {
            backend = candidate;
            capabilities_satisfied = true;
            executor_name = some d.display_name;
            notes = satisfied_notes d requirements;
          }
          else select_alternative executors candidate requirements (some d) []
    ]

unfoldable pub default_image_for : String → String
default_image_for server_type =
    if str_eq server_type "PostgreSQL"
    then "ghcr.io/anycontext/postgres-mcp:latest"
    else if str_eq server_type "Slack"
    then "ghcr.io/anycontext/slack-mcp:latest"
    else if str_eq server_type "PDF Parser"
    then "ghcr.io/anycontext/pdf-mcp:latest"
    else if str_eq server_type "Notion"
    then "ghcr.io/anycontext/notion-mcp:latest"
    else if str_eq server_type "Router"
    then "ghcr.io/anycontext/router-mcp:latest"
    else "ghcr.io/anycontext/default-mcp:latest"

-- What the first part of `evaluate` makes of the configuration.
pub record Plan : Type 0 where
  pub backend : RuntimeBackend
  pub requested_image : Option String
  pub requires_build : Bool
  pub capability_requirements : List RuntimeCapability
  pub notes : List String

abbrev override_note : RuntimeBackend → RuntimeBackend → List String
override_note old new =
    if same_backend old new then [] else format ("runtime_override:" ∷ backend_str new ∷ []) ∷ []

abbrev overridden : Option String → RuntimeBackend → RuntimeBackend × List String
overridden none b = (b, [])
overridden (some s) b = elim (backend_from_str s) [
  | some new ↦ (new, override_note b new)
  | none ↦ (b, format ("runtime_override:unknown:" ∷ s ∷ []) ∷ [])
]

abbrev has {ℓ} : {A : Type ℓ} → Option A → Bool
has none = false
has (some a) = true

unfoldable pub plan : RuntimeBackend → Option Value → Bool → Plan
plan default_backend config use_gpu =
    let moved = use_gpu && not (same_backend default_backend kubernetes) in
    let first = if moved then kubernetes else default_backend in
    let asked = overridden (and_then config (text_field "runtime")) first in
    let requires_build = has (and_then config (text_field "repo_url")) in
    record {
      backend = asked.0;
      requested_image = and_then config (text_field "image");
      requires_build = requires_build;
      capability_requirements =
          (if moved then gpu ∷ [] else []) ++ (if requires_build then image_build ∷ [] else []);
      notes =
          (if moved then "gpu:requested -> backend:kubernetes" ∷ [] else [])
          ++ asked.1
          ++ (if requires_build then "build:git-requested" ∷ [] else []);
    }
