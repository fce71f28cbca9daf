-- ===== src/Billing/Overflow.antt =====
-- The decision of `enforce_quota` of backend/src/billing/service.rs on both sides of the range of an
-- `i64`, in a build without overflow checks.
use mcp_host.Prelude.{
  ◌≡◌, refl, true, false, not, some, String, arith, ℤ, pos, ◌+ℤ◌, ◌≤ℤ◌, ltb_ℤ, InI64, i64_max,
  i64_mod, Bool-cases, inl, inr, add_i64, add_i64_exact, +ℤ_parts, -ℤ_parts,
}
use mcp_host.Billing.Usage.{decide}

module _ (key : String) (limit used requested : ℤ) where
  -- Where the quantity used and the quantity requested add up in an `i64`, a request on a limit is allowed
  -- exactly where the sum is not above the limit.
  pub decide_exact :
      InI64 (used +ℤ requested)
      → (decide key (some limit) used requested).allowed ≡ not (ltb_ℤ limit (used +ℤ requested))
  unfolding decide
  decide_exact h =
      rw (add_i64_exact used requested h) (elim (Bool-cases (ltb_ℤ limit (used +ℤ requested))) [
        | inl e ↦ rw e refl
        | inr e ↦ rw e refl
      ])

  -- Where two quantities that are not negative add up to more than an `i64` holds, the sum wraps below
  -- zero, and the request is allowed under every limit that is not negative.
  pub decide_overflow :
      InI64 used
      → InI64 requested
      → pos 0 ≤ℤ limit
      → ltb_ℤ i64_max (used +ℤ requested) ≡ true
      → (decide key (some limit) used requested).allowed ≡ true
  unfolding decide add_i64
  decide_overflow u r l o =
      let wrapped : ltb_ℤ limit (add_i64 used requested) ≡ false =
        ground (arith, +ℤ_parts used requested, -ℤ_parts (used +ℤ requested) i64_mod) in
      rw wrapped refl
