-- ===== src/Promotions/Verdicts.antt =====
-- What the verdict of backend/src/promotions.rs depends on.
use mcp_host.Prelude.{
  ℕ, ◌≡◌, ◌↔◌, refl, sym, ap, ◌∙◌, Bool, true, false, not, ◌&&◌, ◌||◌, Option, none, some, List, [],
  ◌∷◌, ◌++◌, String, format, any, arith,
}
use mcp_host.Trust.Lifecycle.{TrustLifecycleState, restored, lifecycle_str}
use mcp_host.Promotions.Posture.{
  PromotionTrack, IntelligenceSignal, PromotionPostureSignals, Draft, veto_if, note, score_reason,
  score_note, start, draft, check_signal, check_artifact, check_failure_reason, check_intelligence,
  bad_credential, bad_lifecycle, bad_attestation, bad_remediation_state, bad_attempts,
  bad_remediation, bad_intelligence, evaluate_promotion_posture,
}

abbrev pub flagged {ℓ} : {A : Type ℓ} → (A → Bool) → Option A → Bool
flagged bad none = false
flagged bad (some a) = bad a

-- No signal that is present is a bad one.
unfoldable pub acceptable : PromotionPostureSignals → Bool
acceptable s =
    not (flagged bad_credential s.credential_health_status)
    && not (flagged bad_lifecycle s.trust_lifecycle_state)
    && not (flagged bad_attestation s.trust_attestation_status)
    && not (flagged bad_remediation_state s.trust_remediation_state)
    && not (flagged bad_attempts s.trust_remediation_attempts)
    && not (flagged bad_remediation s.remediation_status)
    && not (any bad_intelligence s.intelligence)

abbrev is_empty {ℓ} : {A : Type ℓ} → List A → Bool
is_empty [] = true
is_empty (x ∷ xs) = false

-- The draft allows as `a` says, and has a reason exactly where it does not.
abbrev Says : Bool → Draft → Type 0
Says a d = (d.allowed ≡ a) × (is_empty d.veto_reasons ≡ a)

empty : (rs : List String) → is_empty rs ≡ true → rs ≡ []
empty [] e = refl
empty (r ∷ rs) e = cc

is_empty-append : (rs : List String) (r : String) → is_empty (rs ++ r ∷ []) ≡ false
is_empty-append [] r = refl
is_empty-append (x ∷ xs) r = refl

veto_if-Says :
    (a bad : Bool) (pieces : List String) (d : Draft)
    → Says a d
    → Says (a && not bad) (veto_if bad pieces d)
veto_if-Says a true pieces d s =
    (ground arith, is_empty-append d.veto_reasons (format pieces) ∙ ground arith)
veto_if-Says a false pieces d s = (s.0 ∙ ground arith, s.1 ∙ ground arith)

and_true : (a : Bool) → (a && true) ≡ a
and_true a = ground arith

keep : (a : Bool) (d : Draft) → Says a d → Says (a && true) d
keep a d s = rw (and_true a) s

check_signal-Says :
    {A : Type 0} (bad : A → Bool) (reason label : String) (show : A → String)
    (put : A → Draft → Draft)
    → ((x : A) (d : Draft)
        → ((put x d).allowed ≡ d.allowed) × ((put x d).veto_reasons ≡ d.veto_reasons))
    → (o : Option A) (a : Bool) (d : Draft) → Says a d
    → Says (a && not (flagged bad o)) (check_signal bad reason label show put o d)
check_signal-Says bad reason label show put keeps none a d s = keep a d s
check_signal-Says bad reason label show put keeps (some x) a d s =
    veto_if-Says a (bad x) (reason ∷ show x ∷ []) (note (label ∷ show x ∷ []) (put x d))
      ((keeps x d).0 ∙ s.0, ap is_empty (keeps x d).1 ∙ s.1)

failure : (o : Option String) (a : Bool) (d : Draft) → Says a d → Says a (check_failure_reason o d)
failure none a d s = s
failure (some t) a d s = s

artifact : (o : Option String) → Says true (check_artifact o start)
artifact none = (refl, refl)
artifact (some t) = (refl, refl)

draft-Says :
    (s : PromotionPostureSignals)
    → Says
        (not (flagged bad_credential s.credential_health_status)
          && not (flagged bad_lifecycle s.trust_lifecycle_state)
          && not (flagged bad_attestation s.trust_attestation_status)
          && not (flagged bad_remediation_state s.trust_remediation_state)
          && not (flagged bad_attempts s.trust_remediation_attempts)
          && not (flagged bad_remediation s.remediation_status))
        (draft s)
draft-Says s = failure s.remediation_failure_reason _ _ (
    check_signal-Says bad_remediation _ _ _ _ (λ x d. (refl, refl)) s.remediation_status _ _
      (check_signal-Says bad_attempts _ _ _ _ (λ x d. (refl, refl)) s.trust_remediation_attempts _ _
        (check_signal-Says bad_remediation_state _ _ _ _ (λ x d. (refl, refl))
          s.trust_remediation_state _ _
          (check_signal-Says bad_attestation _ _ _ _ (λ x d. (refl, refl))
            s.trust_attestation_status _ _
            (check_signal-Says bad_lifecycle _ _ _ _ (λ x d. (refl, refl)) s.trust_lifecycle_state _
              _
              (check_signal-Says bad_credential _ _ _ _ (λ x d. (refl, refl))
                s.credential_health_status true _ (artifact s.artifact_status)))))))

lifecycle_is_bad : (l : TrustLifecycleState) → bad_lifecycle (lifecycle_str l) ≡ true
unfolding bad_lifecycle lifecycle_str
lifecycle_is_bad restored = refl
lifecycle_is_bad _ = refl

and_not_or : (a b c : Bool) → (a && not b && not c) ≡ (a && not (b || c))
and_not_or a b c = ground arith

module _ (tenths : ℕ → String) where
  intelligence :
      (is : List IntelligenceSignal) (a : Bool) (d : Draft)
      → Says a d
      → Says (a && not (any bad_intelligence is)) (check_intelligence tenths is d)
  intelligence [] a d s = keep a d s
  intelligence (i ∷ is) a d s = rw⁻¹ (and_not_or a (bad_intelligence i) (any bad_intelligence is)) (
      intelligence is _ _ (
        veto_if-Says a (bad_intelligence i) (score_reason tenths i) (note (score_note tenths i) d)
          s))

  -- A promotion is allowed exactly where no signal that is present is a bad one, and the verdict names a
  -- reason exactly where it does not allow.
  pub evaluate_promotion_posture-allowed :
      (track : PromotionTrack) (s : PromotionPostureSignals)
      → ((evaluate_promotion_posture tenths track s).allowed ≡ acceptable s)
        × (((evaluate_promotion_posture tenths track s).allowed ≡ true)
            ↔ ((evaluate_promotion_posture tenths track s).veto_reasons ≡ []))
  unfolding evaluate_promotion_posture acceptable
  evaluate_promotion_posture-allowed track s =
      let says = intelligence s.intelligence _ _ (draft-Says s) in
      (says.0, (λ a. empty _ (says.1 ∙ sym says.0 ∙ a), λ e. says.0 ∙ sym says.1 ∙ ap is_empty e))

  -- Whatever row the trust registry has for a VM, its lifecycle state is one of suspect, quarantined,
  -- remediating and restored, and a promotion of an artifact of the VM's server is not allowed.
  pub registry_lifecycle-vetoes :
      (track : PromotionTrack) (s : PromotionPostureSignals) (l : TrustLifecycleState)
      → s.trust_lifecycle_state ≡ some (lifecycle_str l)
      → (evaluate_promotion_posture tenths track s).allowed ≡ false
  unfolding acceptable
  registry_lifecycle-vetoes track s l e =
      (evaluate_promotion_posture-allowed track s).0 ∙ rw e (rw (lifecycle_is_bad l) (ground arith))
