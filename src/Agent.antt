-- ===== src/Agent.antt =====
-- The paying agent: x402/agent.go, and its grant policies, x402/grant.go and x402/grant_table.go.
-- Base64 and JSON of the header are left out: a built payment is the payload.
use stablecoin_x402_gateway.Base.{
  ℕ, String, Bool, true, false, not, ◌||◌, Option, none, some, List, [], ◌∷◌, nat_beq, length,
  string_eq, ◌==◌, if◌then◌else◌, ◌>>=◌,
}
use stablecoin_x402_gateway.Base.Int.{ℤ, pos, ◌+ℤ◌, ltb_ℤ, leb_ℤ, wrap64}
use stablecoin_x402_gateway.Base.Text.{set_string}
use stablecoin_x402_gateway.Base.Decimal.{integer_text}
use stablecoin_x402_gateway.Base.Float.{finite}
use stablecoin_x402_gateway.Base.Hex.{prefixed_hex, bytes32_text}
use stablecoin_x402_gateway.Eth.{Eth, parse_bytes32}
use stablecoin_x402_gateway.Wire.{
  AuthorizationJson, ExactPayload, PaymentPayload, PaymentRequirements, SignedMandateJson,
  ConfirmationJson, SessionRequest,
}
use stablecoin_x402_gateway.Wallet.{
  Authorization, Wallet, bound_nonce, sign_authorization, sign_receive_authorization,
}
use stablecoin_x402_gateway.Facilitator.{recipient_of}
use stablecoin_x402_gateway.Policy.Context.{Stage}
use stablecoin_x402_gateway.Policy.Table.{
  DecisionTable, RuleFactors, table_match, RawTable, load_table,
}
pub mod Accepted

pub data GrantAction : Type 0 where
  grant_refuse grant_pay grant_ask : GrantAction

pub record GrantDecision : Type 0 where
  pub action : GrantAction
  pub reason : String

-- The remaining budget is not read by a policy.
pub record PaymentTermsContext : Type 0 where
  pub requirements : PaymentRequirements
  pub amount : Option ℤ
  pub remaining_budget : Option ℤ
  pub asks : ℤ

pub data Grant : Type 0 where
  max_amount_grant : Option ℤ → Grant
  table_grant : DecisionTable → Grant

abbrev exceeds : Option ℤ → Option ℤ → Bool
exceeds (some amount) (some max) = ltb_ℤ max amount
exceeds _ _ = false

abbrev pay_decision : GrantDecision
pay_decision = record { action = grant_pay; reason = "" }

unfoldable pub max_amount_decide : Option ℤ → PaymentTermsContext → GrantDecision
max_amount_decide max ctx =
    if exceeds ctx.amount max
    then record { action = grant_refuse; reason = "amount exceeds delegated limit" }
    else pay_decision

unfoldable pub grant_outcomes : String → Bool
grant_outcomes s = s == "pay" || s == "ask" || s == "refuse"

-- `LoadTableGrant`, from the decoded JSON.
unfoldable pub load_table_grant : RawTable → Option DecisionTable
unfolding load_table grant_outcomes
load_table_grant raw = load_table raw grant_outcomes

unfoldable pub grant_outcome : String → GrantDecision
grant_outcome outcome =
    if outcome == "pay"
    then pay_decision
    else if outcome == "ask"
    then record { action = grant_ask; reason = "grant table asks for confirmation" }
    else record { action = grant_refuse; reason = "grant table refuses" }

unfoldable pub table_grant_decide : DecisionTable → PaymentTermsContext → GrantDecision
unfolding table_match grant_outcome
table_grant_decide t ctx = grant_outcome (
    table_match t (record {
      amount = elim ctx.amount [ none ↦ pos 0 | some a ↦ a ];
      stage = Stage.pre_settlement;
      risk = finite (pos 0);
      asks = ctx.asks;
    }))

unfoldable pub grant_decide : Grant → PaymentTermsContext → GrantDecision
unfolding max_amount_decide table_grant_decide
grant_decide (max_amount_grant max) ctx = max_amount_decide max ctx
grant_decide (table_grant t) ctx = table_grant_decide t ctx

pub record Agent : Type 0 where
  pub wallet : Wallet
  pub domain_separator : ℕ
  pub max_amount : Option ℤ
  pub grant : Option Grant
  pub mandate : Option SignedMandateJson
  pub confirmation : Option ConfirmationJson

abbrev pub grant_of : Agent → Grant
grant_of a = elim a.grant [ none ↦ max_amount_grant a.max_amount | some p ↦ p ]

abbrev is_refusal : GrantAction → Bool
is_refusal grant_refuse = true
is_refusal _ = false

-- The wire form of an authorization, as both builders write it.
unfoldable pub wire_authorization : Eth → Authorization → AuthorizationJson
wire_authorization eth a = record {
  sender = eth.address_hex a.sender;
  recipient = eth.address_hex a.recipient;
  value = integer_text a.value;
  valid_after = integer_text a.valid_after;
  valid_before = integer_text a.valid_before;
  nonce = bytes32_text a.nonce;
}

module _ (eth : Eth) where
  -- `boundNonce` with `paymentNonce`: the nonce, and the seed's text. `seed` is `NewNonce`.
  unfoldable pub nonce_for : Option ConfirmationJson → Option ℕ → String → Option (ℕ × String)
  unfolding bound_nonce parse_bytes32
  nonce_for (some c) seed resource = parse_bytes32 eth c.authorization_nonce >>= λ n. some (n, "")
  nonce_for none seed resource = seed >>= λ n. some (bound_nonce eth n resource, bytes32_text n)

  unfoldable pub choose_nonce : Agent → Option ℕ → String → Option (ℕ × String)
  unfolding nonce_for
  choose_nonce a seed resource = nonce_for a.confirmation seed resource

  unfoldable pub timeout_or_default : ℤ → ℤ
  timeout_or_default t = if leb_ℤ t (pos 0) then pos 60 else t

  unfoldable pub payment_authorization : Agent → ℕ → PaymentRequirements → ℤ → ℕ → Authorization
  unfolding timeout_or_default recipient_of
  payment_authorization a now req amount nonce = record {
    sender = a.wallet.address;
    recipient = (recipient_of eth req).0;
    value = amount;
    valid_after = pos 0;
    valid_before = wrap64 (pos now +ℤ timeout_or_default req.max_timeout_seconds);
    nonce = nonce;
  }

  unfoldable pub sign_payment : Agent → Bool → Authorization → Option (List ℕ)
  unfolding sign_authorization sign_receive_authorization
  sign_payment a use_receive auth =
      if use_receive
      then sign_receive_authorization eth a.wallet a.domain_separator auth
      else sign_authorization eth a.wallet a.domain_separator auth

  unfoldable pub signed_payload :
      Agent → PaymentRequirements → Authorization → String → List ℕ → PaymentPayload
  unfolding wire_authorization prefixed_hex
  signed_payload a req auth seed sig = record {
    x402_version = pos 1;
    scheme = "exact";
    network = req.network;
    payload = record {
      signature = prefixed_hex sig;
      authorization = wire_authorization eth auth;
      nonce_seed = seed;
    };
    mandate = a.mandate;
    confirmation = a.confirmation;
    session = none;
  }

  -- `buildPayment`, at `now` in seconds.
  unfoldable pub build_payment :
      Agent → ℕ → Option ℕ → PaymentRequirements → ℤ → Option PaymentPayload
  unfolding choose_nonce payment_authorization sign_payment signed_payload recipient_of
  build_payment a now seed req amount = do
    chosen ← choose_nonce a seed req.resource
    sig ← sign_payment a (recipient_of eth req).1 (payment_authorization a now req amount chosen.0)
    some (signed_payload a req (payment_authorization a now req amount chosen.0) chosen.1 sig)

  -- `buildSessionOpen`: a transfer to the seller, whatever the terms say of delivery.
  unfoldable pub session_authorization : Agent → ℕ → PaymentRequirements → ℤ → ℕ → Authorization
  session_authorization a now req budget nonce = record {
    sender = a.wallet.address;
    recipient = eth.hex_to_address req.pay_to;
    value = budget;
    valid_after = pos 0;
    valid_before = wrap64 (pos now +ℤ pos 3600);
    nonce = nonce;
  }

  unfoldable pub build_session_open :
      Agent → ℕ → Option ℕ → PaymentRequirements → ℤ → Option PaymentPayload
  unfolding bound_nonce session_authorization sign_authorization wire_authorization prefixed_hex
  build_session_open a now seed req budget = do
    n ← seed
    let auth = session_authorization a now req budget (bound_nonce eth n req.resource)
    sig ← sign_authorization eth a.wallet a.domain_separator auth
    some (record {
      x402_version = pos 1;
      scheme = "exact";
      network = req.network;
      payload = record {
        signature = prefixed_hex sig;
        authorization = wire_authorization eth auth;
        nonce_seed = bytes32_text n;
      };
      mandate = a.mandate;
      confirmation = none;
      session = some (record { is_open = true });
    })

  -- `Get`, from the terms of the 402 response on: the payment that is sent, if any.
  unfoldable pub pay_terms : Agent → ℕ → Option ℕ → PaymentRequirements → Option PaymentPayload
  unfolding grant_decide build_payment
  pay_terms a now seed req =
      if not (req.scheme == "exact")
      then none
      else (set_string req.max_amount_required >>= λ amount.
          if is_refusal
            (grant_decide (grant_of a) (record {
              requirements = req;
              amount = some amount;
              remaining_budget = none;
              asks = pos 0;
            })).action
          then none
          else build_payment a now seed req amount)
