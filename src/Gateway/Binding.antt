-- ===== src/Gateway/Binding.antt =====
-- The resource binding of a payment that the agent builds: x402/gateway.go
-- `checkResourceBinding` with x402/agent.go `boundNonce`.
use stablecoin_x402_gateway.Base.{
  ℕ, ◌^◌, ◌<◌, ◌≡◌, ◌↔◌, sym, ap, subst, ◌∙◌, String, none, some, List, [], nat_beq, nat_beq_iff,
  string_eq, ◌==◌, if_true, if_false, Bool-cases, inl, inr, arith,
}
use stablecoin_x402_gateway.Base.Int.{ℤ}
use stablecoin_x402_gateway.Base.Hex.{
  bytes32_text, bytes32_text-nonempty, to_bytes, to_bytes-AreBytes, read_hex32-bytes32_text,
  bytes32_of, bytes32_of-to_bytes,
}
use stablecoin_x402_gateway.Eth.{Eth, parse_bytes32}
use stablecoin_x402_gateway.Wire.{PaymentPayload, PaymentRequirements}
use stablecoin_x402_gateway.Wallet.{Authorization, bound_nonce}
use stablecoin_x402_gateway.Policy.Context.{payload_nonce}
use stablecoin_x402_gateway.Agent.{
  Agent, build_payment, signed_payload, payment_authorization, wire_authorization,
}
use stablecoin_x402_gateway.Agent.Accepted.{ReadsHex, built}
use stablecoin_x402_gateway.Gateway.Defs.{Gateway, check_bound, check_seed, check_resource_binding}

parse_bytes32-bytes32_text :
    (eth : Eth) (n : ℕ) → ReadsHex eth → n < 2 ^ 256 → parse_bytes32 eth (bytes32_text n) ≡ some n
unfolding parse_bytes32 bytes32_text
parse_bytes32-bytes32_text eth n reads fits =
    ap bytes32_of (reads.bytes (to_bytes 32 n []) (to_bytes-AreBytes 32 n [] tt))
    ∙ bytes32_of-to_bytes n fits

check_bound-none :
    (g : Gateway) (p : PaymentPayload) (reqs : PaymentRequirements) (seed nonce : ℕ)
    → (check_bound g p reqs (some seed) (some nonce) ≡ none)
      ↔ (bound_nonce g.eth seed reqs.resource ≡ nonce)
unfolding check_bound
check_bound-none g p reqs seed nonce =
    elim (Bool-cases (nat_beq (bound_nonce g.eth seed reqs.resource) nonce)) [
      | inl same ↦ (
        λ passes. (nat_beq_iff (bound_nonce g.eth seed reqs.resource) nonce).0 same,
        λ equal. if_true (nat_beq (bound_nonce g.eth seed reqs.resource) nonce) _ _ same,
      )
      | inr other ↦ (
        λ passes. ground arith,
        λ equal.
            if_true (nat_beq (bound_nonce g.eth seed reqs.resource) nonce) _ _
              ((nat_beq_iff _ _).1 equal),
      )
    ]

bound_nonce_fits :
    (eth : Eth) (n : ℕ) (resource : String) → ReadsHex eth → bound_nonce eth n resource < 2 ^ 256
unfolding bound_nonce
bound_nonce_fits eth n resource reads = reads.has_32_bytes _

check_resource_binding-signed_payload :
    (g : Gateway) (a : Agent) (req reqs : PaymentRequirements) (auth : Authorization) (n : ℕ)
    (sig : List ℕ)
    → ReadsHex g.eth
    → n < 2 ^ 256
    → auth.nonce < 2 ^ 256
    → a.confirmation ≡ none
    → check_resource_binding g (signed_payload g.eth a req auth (bytes32_text n) sig) reqs
      ≡ check_bound g
          (signed_payload g.eth a req auth (bytes32_text n) sig)
          reqs
          (some n)
          (some auth.nonce)
unfolding check_resource_binding check_seed signed_payload wire_authorization payload_nonce
check_resource_binding-signed_payload g a req reqs auth n sig reads seed_fits nonce_fits
      unconfirmed =
    let p = signed_payload g.eth a req auth (bytes32_text n) sig in
    ap (check_seed g p reqs) unconfirmed
    ∙ if_false (bytes32_text n == "") _ _ (bytes32_text-nonempty n)
    ∙ ap (λ o. check_bound g p reqs o (payload_nonce g.eth p)) (read_hex32-bytes32_text n seed_fits)
    ∙ ap (check_bound g p reqs (some n))
        (parse_bytes32-bytes32_text g.eth auth.nonce reads nonce_fits)

-- A payment without a confirmation that the agent builds for terms passes the gateway's resource
-- binding at exactly the resources whose bound nonce under its seed is the one of its own resource,
-- and so at its own.
pub build_payment-IsBound :
    (g : Gateway) (a : Agent) (now n : ℕ) (req reqs : PaymentRequirements) (amount : ℤ)
    (p : PaymentPayload)
    → ReadsHex g.eth
    → n < 2 ^ 256
    → a.confirmation ≡ none
    → build_payment g.eth a now (some n) req amount ≡ some p
    → (check_resource_binding g p reqs ≡ none)
      ↔ (bound_nonce g.eth n reqs.resource ≡ bound_nonce g.eth n req.resource)
unfolding payment_authorization
build_payment-IsBound g a now n req reqs amount p reads seed_fits unconfirmed made =
    let auth = payment_authorization g.eth a now req amount (bound_nonce g.eth n req.resource) in
    let (sig, signs, wrote) = built g.eth a now n req amount p unconfirmed made in
    let q = signed_payload g.eth a req auth (bytes32_text n) sig in
    let shape =
      check_resource_binding-signed_payload g a req reqs auth n sig reads seed_fits
        (bound_nonce_fits g.eth n req.resource reads) unconfirmed in
    subst
      (λ x.
        (check_resource_binding g x reqs ≡ none)
        ↔ (bound_nonce g.eth n reqs.resource ≡ bound_nonce g.eth n req.resource))
      wrote
      (subst
        (λ x. (x ≡ none) ↔ (bound_nonce g.eth n reqs.resource ≡ bound_nonce g.eth n req.resource))
        (sym shape) (check_bound-none g q reqs n auth.nonce))
