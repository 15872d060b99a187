-- ===== src/Gateway/Replay.antt =====
-- What a restart from the journal gives back: x402/gateway.go `AttachJournal`,
-- `restoreAccounting`.
use stablecoin_x402_gateway.Base.{
  ℕ, ◌*◌, ◌^◌, ◌<◌, ◌≡◌, refl, ap, ◌∙◌, List, true, false, Option, none, some, [], ◌∷◌, ◌++◌,
  Bool-cases, inl, inr, string_eq, ◌==◌, if_true, arith,
}
use stablecoin_x402_gateway.Base.Int.{ℤ}
use stablecoin_x402_gateway.Base.Text.{set_string}
use stablecoin_x402_gateway.Base.Decimal.{set_string-integer_text}
use stablecoin_x402_gateway.Eth.{Eth, parse_bytes32}
use stablecoin_x402_gateway.Journal.{JournalEntry}
use stablecoin_x402_gateway.Policy.Context.{PaymentContext, Decision, payment_amount}
use stablecoin_x402_gateway.Policy.History.{unix}
use stablecoin_x402_gateway.Policy.State.{PolicyState, restore_spend}
use stablecoin_x402_gateway.Gateway.Defs.{Gateway, SettlementRecord, big_text}
use stablecoin_x402_gateway.Gateway.Decisions.{decision_entry, decision_record, declared_mandate_id}
use stablecoin_x402_gateway.Gateway.Settle.{settlement_entry}
use stablecoin_x402_gateway.Gateway.Restart.{
  from_unix, restored_record, restored_settlements, restore_parsed, restore_decision, restore_entry,
}

-- go-ethereum: the hex texts of addresses, of 20 bytes, and of hashes, of 32 bytes, are read back.
pub record ReadsBack (eth : Eth) : Type 0 where
  pub address : (a : ℕ) → a < 2 ^ 160 → eth.hex_to_address (eth.address_hex a) ≡ a
  pub hash : (h : ℕ) → h < 2 ^ 256 → eth.hex_to_hash (eth.hash_hex h) ≡ h

-- A time of the gateway, to the second.
abbrev pub to_second : ℕ → ℕ
to_second t = unix t * 1_000_000_000

-- The settlement without its delivery, which the journal does not keep, at its second.
abbrev pub journaled_form : SettlementRecord → SettlementRecord
journaled_form r = record r { time = to_second r.time; delivery_tx = 0 }

set_string-big_text : (a : ℤ) (o : Option ℤ) → o ≡ some a → set_string (big_text o) ≡ o
unfolding big_text
set_string-big_text a none h = ground arith
set_string-big_text a (some b) h = set_string-integer_text b

restored_record-settlement_entry :
    (g : Gateway) (r : SettlementRecord) (a : ℤ)
    → ReadsBack g.eth
    → r.payer < 2 ^ 160
    → r.tx_hash < 2 ^ 256
    → r.amount ≡ some a
    → restored_record g.eth (settlement_entry g r) ≡ journaled_form r
unfolding restored_record settlement_entry from_unix
restored_record-settlement_entry g r a back payer tx has =
    rw (back.address r.payer payer, back.hash r.tx_hash tx, set_string-big_text a r.amount has) refl

restored_settlements-append :
    (eth : Eth) (es : List JournalEntry) (e : JournalEntry)
    → e.kind ≡ ""
    → restored_settlements eth (es ++ e ∷ [])
      ≡ restored_settlements eth es ++ restored_record eth e ∷ []
unfolding restored_settlements
restored_settlements-append eth [] e kind = if_true (e.kind == "") _ _ (ap (λ k. k == "") kind)
restored_settlements-append eth (x ∷ es) e kind = elim (Bool-cases (x.kind == "")) [
  | inl settles ↦
      rw settles (ap (λ rs. restored_record eth x ∷ rs) (restored_settlements-append eth es e kind))
  | inr other ↦ rw other (restored_settlements-append eth es e kind)
]

-- A settlement with an amount, a payer of 20 bytes and a transaction of 32 bytes, whose entry ends the
-- journal, is the last settlement that a restart restores, its time to the second and without its delivery, after those of the entries before it.
pub restored_settlements-settlement_entry :
    (g : Gateway) (r : SettlementRecord) (a : ℤ) (es : List JournalEntry)
    → ReadsBack g.eth
    → r.payer < 2 ^ 160
    → r.tx_hash < 2 ^ 256
    → r.amount ≡ some a
    → restored_settlements g.eth (es ++ settlement_entry g r ∷ [])
      ≡ restored_settlements g.eth es ++ journaled_form r ∷ []
unfolding settlement_entry
restored_settlements-settlement_entry g r a es back payer tx has =
    restored_settlements-append g.eth es (settlement_entry g r) refl
    ∙ ap (λ x. restored_settlements g.eth es ++ x ∷ [])
        (restored_record-settlement_entry g r a back payer tx has)

-- A settled decision entry with a mandate gives the policy back the spend that it stands for.
pub restore_entry-decision_entry :
    (g : Gateway) (now : ℕ) (pc : PaymentContext) (d : Decision) (id : ℕ) (a : ℤ) (s : PolicyState)
    → (declared_mandate_id pc == "") ≡ false
    → parse_bytes32 g.eth (declared_mandate_id pc) ≡ some id
    → payment_amount pc ≡ some a
    → restore_entry g.eth (decision_entry g now pc d true) s ≡ restore_spend id (to_second now) a s
unfolding restore_entry decision_entry decision_record restore_decision restore_parsed from_unix
restore_entry-decision_entry g now pc d id a s named has_id has_amount =
    rw (named, has_id, has_amount, set_string-integer_text a) refl
