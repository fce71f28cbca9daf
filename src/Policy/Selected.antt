-- ===== src/Policy/Selected.antt =====
-- Which executor `select_backend` of backend/src/policy.rs finds.
use mcp_host.Prelude.{
  ◌≡◌, refl, Bool, true, not, ◌&&◌, Option, none, some, List, String, ◌⊎◌, inl, inr, In, find,
  find-some, arith, Bool-cases, Option-cases,
}
use mcp_host.Policy.Backends.{
  RuntimeBackend, docker, kubernetes, virtual_machine, same_backend, RuntimeCapability,
  no_requirement, RuntimeExecutorDescriptor, supports_all, Selection, select_alternative,
  select_backend,
}

-- Nothing is required, or a registered executor of the selected backend supports what is required.
abbrev pub Runs : List RuntimeExecutorDescriptor → Selection → List RuntimeCapability → Type 0
Runs executors selection requirements =
    (no_requirement requirements ≡ true)
    ⊎ ((d : RuntimeExecutorDescriptor) × In d executors
        × (d.backend ≡ selection.backend)
        × (supports_all d requirements ≡ true))

same : (a b : RuntimeBackend) → same_backend a b ≡ true → a ≡ b
same docker docker e = refl
same kubernetes kubernetes e = refl
same virtual_machine virtual_machine e = refl
same docker kubernetes e = cc
same docker virtual_machine e = cc
same kubernetes docker e = cc
same kubernetes virtual_machine e = cc
same virtual_machine docker e = cc
same virtual_machine kubernetes e = cc

right : (a b : Bool) → (a && b) ≡ true → b ≡ true
right a b e = ground arith

module _ (executors : List RuntimeExecutorDescriptor) (candidate : RuntimeBackend)
    (requirements : List RuntimeCapability) where
  select_alternative-Runs :
      (own : Option RuntimeExecutorDescriptor) (notes : List String)
      → (select_alternative executors candidate requirements own notes).capabilities_satisfied
        ≡ true
      → Runs executors (select_alternative executors candidate requirements own notes) requirements
  unfolding select_alternative
  select_alternative-Runs own notes e =
      elim (Option-cases (
        find (λ d. not (same_backend d.backend candidate) && supports_all d requirements)
          executors)) [
            | inr (d, f) ↦
                let (t, i) = find-some _ executors d f in
                rw (f, select_alternative) (inr (d, i, refl, right _ _ t))
            | inl n ↦ elim (Bool-cases (no_requirement requirements)) [
              | inl r ↦ inl r
              | inr r ↦ cc (rw r at rw (n, select_alternative) at e)
            ]
          ]

  pub select_backend-Runs :
      (select_backend executors candidate requirements).capabilities_satisfied ≡ true
      → Runs executors (select_backend executors candidate requirements) requirements
  unfolding select_backend
  select_backend-Runs e =
      elim (Option-cases (find (λ d. same_backend d.backend candidate) executors)) [
        | inl n ↦
            rw (n, select_backend) (select_alternative-Runs none _ (rw (n, select_backend) at e))
        | inr (d, f) ↦ elim (Bool-cases (supports_all d requirements)) [
          | inl s ↦
              let (t, i) = find-some _ executors d f in
              rw (f, select_backend) (rw s (inr (d, i, same d.backend candidate t, s)))
          | inr s ↦
              rw (f, select_backend)
                (rw s (select_alternative-Runs (some d) _ (rw s at rw (f, select_backend) at e)))
        ]
      ]
