-- ===== src/Tests/Requests.antt =====
-- The gateway of x402/gateway.go at concrete payments.
use stablecoin_x402_gateway.Base.{
  arith, ◌≡◌, ◌⊎◌, refl, none, some, [], ◌∷◌, ◌++◌, string_eq, nat_eq,
}
use stablecoin_x402_gateway.Base.Int.{pos}
use stablecoin_x402_gateway.Base.Dict.{lookup}
use stablecoin_x402_gateway.Base.Hex.{
  bytes32_text, bytes32_of, decode_hex, trim_0x, prefixed_hex, encode_hex, to_bytes, from_bytes,
  hex_value, hex_char,
}
use stablecoin_x402_gateway.Codes.{delivery_failed}
use stablecoin_x402_gateway.Eth.{parse_bytes32}
use stablecoin_x402_gateway.Wallet.{bound_nonce}
use stablecoin_x402_gateway.Policy.Context.{Stage, payload_nonce}
use stablecoin_x402_gateway.Agent.{signed_payload, wire_authorization, payment_authorization}
use stablecoin_x402_gateway.Gateway.Defs.{Gateway, GatewayState, Deferred, refused, failure}
use stablecoin_x402_gateway.Gateway.Decisions.{nonce_or_zero}
use stablecoin_x402_gateway.Journal.{Journal, new_journal}
use stablecoin_x402_gateway.Gateway.Defs.{deliver_call, refund_call}
use stablecoin_x402_gateway.Gateway.Settle.{settlement_entry, deliver}
use stablecoin_x402_gateway.Gateway.Deferred.{verify_and_settle}
use stablecoin_x402_gateway.Gateway.Calls.{settle_count}
use stablecoin_x402_gateway.Gateway.Approval.{
  IsAdmitted, Waits, IsReleased, verify_and_settle-IsAdmitted, verify_and_settle-resumes,
}
use stablecoin_x402_gateway.Gateway.Races.{
  starting, answered, Interleaves, delivery_count, AlwaysApproves, retries-deliver_twice,
}
use stablecoin_x402_gateway.Policy.Table.{
  table_decide, table_match, match_rules, matches, accept_decision,
}
use stablecoin_x402_gateway.Policy.Chain.{Policy, Rule, policy_decide, rule_decide, mandate_policy}
use stablecoin_x402_gateway.Gateway.Deferred.{stage_of}
use stablecoin_x402_gateway.Gateway.Defs.{Outcome, enrich, enrich_history}
use stablecoin_x402_gateway.Gateway.Restart.{restored_settlements}
use stablecoin_x402_gateway.Gateway.Replay.{journaled_form, restored_settlements-settlement_entry}
use stablecoin_x402_gateway.Gateway.Refunds.{refund_tx, refund_owed, deliver-IsMadeGood}
use stablecoin_x402_gateway.Tests.Honest.{honest, honest-ReadsBack}
use stablecoin_x402_gateway.Tests.Payments.{terms, sent}
use stablecoin_x402_gateway.Tests.Shop.{shop, good_day, at_work, sale}

verify_and_settle-IsAdmitted_example :
    let after = (verify_and_settle shop good_day (some sent) terms at_work).1 in
    (settle_count after.calls ≡ 0)
    ⊎ ((settle_count after.calls ≡ 1) × IsAdmitted shop good_day sent terms at_work)
verify_and_settle-IsAdmitted_example = verify_and_settle-IsAdmitted shop good_day sent terms at_work

abbrev held : Deferred
held = record { settlement = sale; submitted_block = 9 }

abbrev waiting : GatewayState
waiting = record at_work { in_flight = (107, held) ∷ [] }

sent_nonce : nonce_or_zero (payload_nonce honest sent) ≡ 107
unfolding payload_nonce parse_bytes32 bytes32_of from_bytes decode_hex trim_0x hex_value
    signed_payload wire_authorization payment_authorization bound_nonce bytes32_text prefixed_hex
    encode_hex hex_char to_bytes
sent_nonce = refl

sent_is_held : lookup (nonce_or_zero (payload_nonce honest sent)) waiting.in_flight ≡ some held
unfolding lookup
sent_is_held = rw sent_nonce refl

verify_and_settle-resumes_example :
    let x = verify_and_settle shop good_day (some sent) terms waiting in
    (settle_count x.1.calls ≡ 0)
    × (Waits waiting x.1
        ⊎ ((lookup (nonce_or_zero (payload_nonce honest sent)) x.1.in_flight ≡ none)
            × IsReleased shop good_day sent terms held waiting x))
verify_and_settle-resumes_example =
    verify_and_settle-resumes shop good_day sent terms held waiting sent_is_held

abbrev fresh_journal : Journal
fresh_journal = new_journal (record { lines = []; tail = none })

not_yet_refunded :
    lookup (refund_owed shop good_day sale (refund_tx shop good_day sale)).id fresh_journal.index
    ≡ none
unfolding lookup
not_yet_refunded = refl

deliver-IsMadeGood_example :
    let (answer, after) = deliver shop good_day sale at_work in
    (answer ≡ refused (failure delivery_failed none))
    × (after.calls ≡ (deliver_call 2 ∷ []) ++ refund_call 2 (some (pos 50)) ∷ [])
    × (j' : Journal) × (after.journal ≡ some j')
    × (j'.entries ≡ fresh_journal.entries ++ refund_owed shop good_day sale (some 901) ∷ [])
deliver-IsMadeGood_example =
    deliver-IsMadeGood shop good_day sale at_work fresh_journal refl refl refl not_yet_refunded
      (λ id. refl)

restored_settlements-settlement_entry_example :
    restored_settlements honest (settlement_entry shop sale ∷ [])
    ≡ restored_settlements honest [] ++ journaled_form sale ∷ []
restored_settlements-settlement_entry_example =
    restored_settlements-settlement_entry shop sale (pos 50) [] honest-ReadsBack (omega arith)
      (omega arith) refl

-- A confirmed payment is delivered, another one waits.
abbrev patient : Gateway
patient = record shop {
  policy = some (
      Policy.single (
        Rule.table (record {
          rules =
              record {
                amount_min = none;
                amount_max = none;
                stage_at_least = some Stage.confirmed;
                risk_max = none;
                asks_max = none;
                outcome = "approve";
              }
              ∷ [];
          fallback = "defer";
        })));
}

abbrev deep : Deferred
deep = record { settlement = sale; submitted_block = 8 }

abbrev both_wait : GatewayState
both_wait = record at_work { in_flight = (107, deep) ∷ [] }

sent_is_deep : lookup (nonce_or_zero (payload_nonce honest sent)) both_wait.in_flight ≡ some deep
unfolding lookup
sent_is_deep = rw sent_nonce refl

deep_stage : stage_of patient good_day 8 ≡ some Stage.confirmed
unfolding stage_of
deep_stage = refl

always_approves : AlwaysApproves patient good_day sent terms deep Stage.confirmed
unfolding policy_decide rule_decide enrich enrich_history mandate_policy table_decide table_match
    match_rules matches accept_decision
always_approves = λ s. refl

retries-deliver_twice_example :
    (a b : Outcome) × (s' : GatewayState) × Interleaves patient good_day sent terms starting
      starting both_wait
      (answered a)
      (answered b)
      s'
    × (delivery_count s'.calls ≡ 2)
retries-deliver_twice_example =
    retries-deliver_twice patient good_day sent terms deep Stage.confirmed both_wait sent_is_deep
      refl deep_stage always_approves
