-- ===== src/Keys/Lifecycle.antt =====
-- A key of backend/src/keys/service.rs after its revocation, whatever the service does next.
use mcp_host.Prelude.{
  ℕ, ◌≡◌, ◌≢◌, refl, sym, ap, ◌∙◌, subst, Bool, true, false, ◌&&◌, ◌||◌, Option, List, [], ◌∷◌,
  ◌++◌, String, str_eq, eq_iff, ◌==◌, ==_iff, find, find-some, any, any-update_where, update_where,
  All, In, All-In, if◌then◌else◌, ◌⊎◌, inl, inr, Bool-cases, any-extended, Option-cases,
  Result-cases, Result, ok, err, ok_inj,
}
use mcp_host.Keys.Models.{ProviderKeyRow}
use mcp_host.Keys.Events.{KeyDb, ProviderKeyAuditEvent, dispatch_notification}
use mcp_host.Keys.Register.{
  RegisterProviderKey, attested, encoded, store_key, check_encoding, register_key,
}
use mcp_host.Keys.Rotation.{
  RequestKeyRotation, actor, rotatable, key_to_rotate, rotation_of, set_state, store_rotation,
  request_rotation, revoked, revoke_key, bind_ok,
}

-- A state that ends a key.
abbrev pub ended : String → Bool
ended state = str_eq state "retired" || str_eq state "compromised"

-- There are rows with the key's number, and all of them have ended.
pub record Ended (key : ℕ) (keys : List ProviderKeyRow) : Type 0 where
  pub there : any (λ k. k.id == key) keys ≡ true
  pub all : All (λ k. k.id ≡ key → ended k.state ≡ true) keys

-- A row of another number.
append-Ended :
    (key : ℕ) (keys : List ProviderKeyRow) (k : ProviderKeyRow)
    → k.id ≢ key
    → Ended key keys
    → Ended key (keys ++ k ∷ [])
append-Ended key keys k other e = record {
  there = any-extended (λ x. x.id == key) keys k e.there;
  all = appended keys e.all;
}
  where
    appended :
        (xs : List ProviderKeyRow)
        → All (λ x. x.id ≡ key → ended x.state ≡ true) xs
        → All (λ x. x.id ≡ key → ended x.state ≡ true) (xs ++ k ∷ [])
    appended [] a = ((λ same. absurd (other same)), tt)
    appended (x ∷ xs) a = (a.0, appended xs a.1)

-- An update of rows of another number, or one that ends what it changes.
update-Ended :
    (key : ℕ) (test : ProviderKeyRow → Bool) (change : ProviderKeyRow → ProviderKeyRow)
    (keys : List ProviderKeyRow)
    → ((k : ProviderKeyRow) → (change k).id ≡ k.id)
    → ((k : ProviderKeyRow) → test k ≡ true → (k.id ≢ key) ⊎ (ended (change k).state ≡ true))
    → Ended key keys
    → Ended key (update_where test change keys)
update-Ended key test change keys ids ends e = record {
  there = any-update_where (λ k. k.id == key) test change (λ k. rw (ids k) refl) keys ∙ e.there;
  all = updated keys e.all;
}
  where
    updated :
        (xs : List ProviderKeyRow)
        → All (λ x. x.id ≡ key → ended x.state ≡ true) xs
        → All (λ x. x.id ≡ key → ended x.state ≡ true) (update_where test change xs)
    updated [] a = tt
    updated (x ∷ xs) a = elim (Bool-cases (test x)) [
      | inl t ↦ rw t (
        (λ same. elim (ends x t) [ inl other ↦ absurd (other (sym (ids x) ∙ same)) | inr e ↦ e ]),
        updated xs a.1,
      )
      | inr t ↦ rw t (a.0, updated xs a.1)
    ]

ended-rotatable : (state : String) → rotatable state ≡ ok tt → ended state ≡ false
unfolding rotatable
ended-rotatable state h = elim (Bool-cases (str_eq state "active")) [
  | inl e ↦ let same : state ≡ "active" = (eq_iff state "active").0 e in rw same refl
  | inr e ↦ elim (Bool-cases (str_eq state "rotating")) [
    | inl f ↦ let same : state ≡ "rotating" = (eq_iff state "rotating").0 f in rw same refl
    | inr f ↦ elim (Bool-cases (str_eq state "pending_registration")) [
      | inl g ↦ cc (rw g at (rw f at (rw e at h)))
      | inr g ↦ elim (Bool-cases (str_eq state "retired")) [
        | inl r ↦ cc (rw r at (rw g at (rw f at (rw e at h))))
        | inr r ↦ elim (Bool-cases (str_eq state "compromised")) [
          | inl c ↦ cc (rw c at (rw r at (rw g at (rw f at (rw e at h)))))
          | inr c ↦ rw r c
        ]
      ]
    ]
  ]
]

pub dispatch_notification-keys :
    (channel : String) (e : ProviderKeyAuditEvent) (db : KeyDb)
    → (dispatch_notification channel e db).keys ≡ db.keys
unfolding dispatch_notification
dispatch_notification-keys channel e db = elim (Bool-cases (str_eq channel "")) [
  | inl c ↦ rw c refl
  | inr c ↦ rw c refl
]

-- What a request's chain of tests answers with is the key of its last test.
last_bind :
    (a : Result (String × String) String) (b : Result String String)
    (c : String × String → Result (String × String) String) (d : Result ProviderKeyRow String)
    (x : String × String × String × ProviderKeyRow)
    → bind_ok a (λ pair.
      bind_ok b (λ by. bind_ok (c pair) (λ _. bind_ok d (λ k. ok (pair.0, pair.1, by, k)))))
      ≡ ok x
    → d ≡ ok x.3
last_bind (err e) b c d x h = cc
last_bind (ok pair) (err e) c d x h = cc
last_bind (ok pair) (ok by) c (err e) x h = elim (Result-cases (c pair)) [
  | inl (q, s) ↦ cc (rw s at h)
  | inr (m, s) ↦ cc (rw s at h)
]
last_bind (ok pair) (ok by) c (ok k) x h = elim (Result-cases (c pair)) [
  | inl (q, s) ↦
      let same : (pair.0, pair.1, by, k) ≡ x = ok_inj (rw s at h) in ap (λ z. ok z.3) same
  | inr (m, s) ↦ cc (rw s at h)
]

-- A key that may be rotated has not ended.
key_to_rotate-open :
    (provider key : ℕ) (db : KeyDb) (k : ProviderKeyRow)
    → key_to_rotate provider key db ≡ ok k
    → (In k db.keys) × (ended k.state ≡ false)
key_to_rotate-open provider key db k h =
    elim (Option-cases (find (λ k. (k.id == key) && (k.provider_id == provider)) db.keys)) [
      | inl n ↦ cc (rw n at h)
      | inr (x, s) ↦
          let g = rw s at h in
          elim (Result-cases (rotatable x.state)) [
            | inr (m, r) ↦ cc (rw r at g)
            | inl (u, r) ↦
                let same : x ≡ k = ok_inj (rw r at g) in
                subst (λ z. In z db.keys × (ended z.state ≡ false)) same
                  ((find-some _ db.keys x s).1, ended-rotatable x.state r)
          ]
    ]

module _ (decodes : String → Bool) (uuid rfc3339 : ℕ → String) (channel : String) where
  pub register-Ended :
      (key now new_id event_id provider : ℕ) (request : RegisterProviderKey) (db : KeyDb)
      → any (λ k. k.id == new_id) db.keys ≡ false
      → Ended key db.keys
      → Ended key (register_key decodes rfc3339 now new_id event_id provider request db).1.keys
  unfolding register_key
  register-Ended key now new_id event_id provider request db fresh e = stored (
      check_encoding decodes rfc3339 (
        attested decodes rfc3339 "attestation digest required" "attestation signature required"
          request.attestation_digest request.attestation_signature))
    where
      other : new_id ≢ key
      other same = clash (sym e.there ∙ rw (sym same) fresh)
        where
          clash : true ≡ false → ⊥
          clash h = cc

      stored :
          (x : Result (String × String) String)
          → Ended key (store_key decodes rfc3339 now new_id event_id provider request db x).1.keys
      stored (err m) = e
      stored (ok (d, s)) = append-Ended key db.keys _ other e

  pub request_rotation-Ended :
      (key now event_id rotation_id provider target : ℕ) (request : RequestKeyRotation) (db : KeyDb)
      → Ended key db.keys
      → Ended key
          (request_rotation decodes uuid rfc3339 now event_id rotation_id provider target request
            db).1.keys
  unfolding request_rotation
  request_rotation-Ended key now event_id rotation_id provider target request db e =
      elim (Result-cases (rotation_of decodes uuid rfc3339 provider target request db)) [
        | inr (m, s) ↦ rw s e
        | inl (x, s) ↦
            let found =
              last_bind
                (attested decodes rfc3339 "rotation attestation digest required"
                  "rotation attestation signature required" request.attestation_digest
                  request.attestation_signature)
                (actor request.request_actor_ref) (encoded decodes rfc3339)
                (key_to_rotate provider target db) x s in
            rw s (stored x (key_to_rotate-open provider target db x.3 found))
      ]
    where
      stored :
          (x : String × String × String × ProviderKeyRow)
          → (In x.3 db.keys) × (ended x.3.state ≡ false)
          → Ended key
              (store_rotation decodes uuid rfc3339 now event_id rotation_id provider db
                (ok x)).1.keys
      stored (d, g, by, k) (i, o) = elim (Bool-cases (str_eq k.state "rotating")) [
        | inl r ↦ rw r e
        | inr r ↦ rw r (
            update-Ended key (λ x. x.id == k.id) (set_state now "rotating") db.keys (λ x. refl)
              (λ x t. inl (λ same. other (sym ((==_iff x.id k.id).0 t) ∙ same))) e)
      ]
        where
          clash : true ≡ false → ⊥
          clash h = cc

          other : k.id ≢ key
          other same =
              clash
                (sym (All-In (λ x. x.id ≡ key → ended x.state ≡ true) db.keys k e.all i same) ∙ o)

  pub revoke_key-Ended :
      (key now first_event second_event provider target : ℕ) (reason : Option String) (mark : Bool)
      (db : KeyDb)
      → Ended key db.keys
      → Ended key
          (revoke_key decodes uuid rfc3339 channel now first_event second_event provider target
            reason mark db).1.keys
  unfolding revoke_key
  revoke_key-Ended key now first_event second_event provider target reason mark db e =
      elim (Option-cases (find (λ k. k.id == target) db.keys)) [
        | inl n ↦ rw (n, revoke_key) e
        | inr (k, s) ↦ elim (Bool-cases (k.provider_id == provider)) [
          | inr p ↦ rw (s, revoke_key) (rw p e)
          | inl p ↦
              rw (s, revoke_key)
                (rw p (
                  rw (dispatch_notification-keys channel _ _) (
                    rw (dispatch_notification-keys channel _ _) (
                      update-Ended key (λ x. x.id == k.id) (revoked decodes uuid rfc3339 now mark)
                        db.keys (λ x. refl) (λ x t. inr (ends mark)) e))))
        ]
      ]
    where
      ends : (m : Bool) → ended (if m then "compromised" else "retired") ≡ true
      ends true = refl
      ends false = refl
