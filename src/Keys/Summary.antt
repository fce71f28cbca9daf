-- ===== src/Keys/Summary.antt =====
-- When `summarize_for_policy` of backend/src/keys/service.rs lets a provider through.
use mcp_host.Prelude.{
  ℕ, ◌+◌, ◌≡◌, ◌↔◌, refl, sym, ap, ◌∙◌, Bool, true, false, not, Option, none, some, List, [], ◌∷◌,
  ◌++◌, ◌&&◌, ◌||◌, String, ltb, leb, find, inl, inr, Bool-cases, Option-cases, arith,
}
use mcp_host.Keys.Models.{
  ProviderKeyRecord, ProviderKeyPolicySummary, is_some, no_summary, add_veto_note,
}
use mcp_host.Keys.Events.{KeyDb}
use mcp_host.Keys.Register.{
  hours_24, state_active, list_keys, veto_if, check_due, summary_of_active, summary_of,
  summarize_for_policy,
}

-- A deadline more than a day away, or none.
abbrev pub far_off : (now : ℕ) → Option ℕ → Bool
far_off now none = true
far_off now (some due) = ltb (now + hours_24) due

-- The key's signature and its verification are there, and its rotation is not due within a day.
abbrev pub in_order : (now : ℕ) → ProviderKeyRecord → Bool
in_order now k =
    k.attestation_signature_registered
    && far_off now k.rotation_due_at
    && is_some k.attestation_verified_at

-- Notes and the veto go together.
abbrev Together : ProviderKeyPolicySummary → Type 0
Together s = (s.vetoed ≡ false) ↔ (s.notes ≡ [])

append_not_empty : {A : Type 0} (xs : List A) (x : A) → xs ++ x ∷ [] ≡ [] → ⊥
append_not_empty [] x h = cc
append_not_empty (y ∷ ys) x h = cc

vetoed-Together : (n : String) (s : ProviderKeyPolicySummary) → Together (add_veto_note n s)
unfolding add_veto_note
vetoed-Together n s = ((λ h. cc), λ h. absurd (append_not_empty s.notes n h))

veto_if-vetoed :
    (test : Bool) (n : String) (s : ProviderKeyPolicySummary)
    → Together s
    → Together (veto_if test n s) × ((veto_if test n s).vetoed ≡ (test || s.vetoed))
unfolding add_veto_note
veto_if-vetoed true n s t = (vetoed-Together n s, refl)
veto_if-vetoed false n s t = (t, refl)

check_due-vetoed :
    (now : ℕ) (due : Option ℕ) (s : ProviderKeyPolicySummary)
    → Together s
    → Together (check_due now due s)
      × ((check_due now due s).vetoed ≡ (not (far_off now due) || s.vetoed))
unfolding add_veto_note
check_due-vetoed now none s t = (t, refl)
check_due-vetoed now (some due) s t = elim (Bool-cases (ltb due now)) [
  | inl e ↦
      let near : ltb (now + hours_24) due ≡ false = ground arith in
      rw e (vetoed-Together "rotation-overdue" s, rw near refl)
  | inr e ↦ elim (Bool-cases (leb due (now + hours_24))) [
    | inl f ↦
        let near : ltb (now + hours_24) due ≡ false = ground arith in
        rw e (rw f (vetoed-Together "rotation-approaching" s, rw near refl))
    | inr f ↦
        let far : ltb (now + hours_24) due ≡ true = ground arith in rw e (rw f (t, rw far refl))
  ]
]

summary_of_active-vetoed :
    (now : ℕ) (k : ProviderKeyRecord)
    → Together (summary_of_active now k) × ((summary_of_active now k).vetoed ≡ not (in_order now k))
summary_of_active-vetoed now k =
    let (t₁, v₁) =
      veto_if-vetoed (not k.attestation_signature_registered) "attestation-signature-missing"
        no_summary ((λ h. refl), λ h. refl) in
    let (t₂, v₂) = check_due-vetoed now k.rotation_due_at _ t₁ in
    let (t₃, v₃) =
      veto_if-vetoed (not (is_some k.attestation_verified_at)) "attestation-unverified" _ t₂ in
    (
      t₃,
      v₃
          ∙ ap (λ b. not (is_some k.attestation_verified_at) || b)
              (v₂ ∙ ap (λ b. not (far_off now k.rotation_due_at) || b) v₁)
          ∙ de_morgan k.attestation_signature_registered (far_off now k.rotation_due_at)
              (is_some k.attestation_verified_at),
    )
  where
    de_morgan : (a b c : Bool) → (not c || (not b || (not a || false))) ≡ not (a && b && c)
    de_morgan a b c = ground arith

-- The newest active key of the provider's.
abbrev pub newest_active : ℕ → KeyDb → Option ProviderKeyRecord
newest_active provider db = find (λ r. state_active r.state) (list_keys provider db)

-- The summary does not veto exactly where the provider has an active key and the newest one is in order: its
-- attestation has a signature and was verified, and its rotation is not due within twenty-four hours. The
-- key is then the summary's, and it has a note exactly where it vetoes.
pub summarize_for_policy-vetoed :
    (now provider : ℕ) (db : KeyDb)
    → (((summarize_for_policy now provider db).vetoed ≡ false) ↔ (
        (k : ProviderKeyRecord) × (newest_active provider db ≡ some k)
        × (in_order now k ≡ true)
        × ((summarize_for_policy now provider db).record_of ≡ some k)))
      × (((summarize_for_policy now provider db).vetoed ≡ false)
          ↔ ((summarize_for_policy now provider db).notes ≡ []))
unfolding summarize_for_policy add_veto_note
summarize_for_policy-vetoed now provider db = by_list (list_keys provider db)
  where
    found_in : List ProviderKeyRecord → Option ProviderKeyRecord
    found_in ks = find (λ r. state_active r.state) ks

    clash : true ≡ false → ⊥
    clash h = cc

    by_list :
        (ks : List ProviderKeyRecord)
        → (((summary_of now ks).vetoed ≡ false) ↔ (
            (k : ProviderKeyRecord) × (found_in ks ≡ some k)
            × (in_order now k ≡ true)
            × ((summary_of now ks).record_of ≡ some k)))
          × Together (summary_of now ks)
    by_list [] = (
      ((λ h. absurd (clash h)), λ x. let (k, f, o, r) = x in cc),
      vetoed-Together "missing" no_summary,
    )
    by_list (k ∷ ks) = elim (Option-cases (found_in (k ∷ ks))) [
      | inl n ↦
          rw (n, summary_of)
            (
              ((λ h. absurd (clash h)), λ x. let (a, f, o, r) = x in cc),
              vetoed-Together "not-active" (record no_summary { record_of = some k }),
            )
      | inr (a, s) ↦
          let (t, v) = summary_of_active-vetoed now a in
          rw (s, summary_of)
            (
              (
                (λ h. (a, refl, ground (arith, sym v ∙ h), refl)),
                (λ x. let (b, f, o, r) = x in let same : a ≡ b = cc in v ∙ rw same (rw o refl)),
              ),
              t,
            )
    ]
