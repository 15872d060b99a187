-- ===== src/Redeem.antt =====
-- Redemption: x402/redeem.go, and `runRedeem` of cmd/issuer/main.go, which collects the tokens, burns
-- them and takes their value from the reserve. What the chain makes of a transaction is a parameter;
-- reading the request's file, the flags and the texts of errors are left out, and so is the
-- holder in the reason of the withdrawal.
use stablecoin_x402_gateway.Base.{
  ℕ, String, Bool, true, false, not, ◌||◌, Option, none, some, List, [], ◌∷◌, ◌++◌, nat_beq,
  if◌then◌else◌, ◌>>=◌,
}
use stablecoin_x402_gateway.Base.Int.{ℤ, pos, ◌-ℤ◌, leb_ℤ}
use stablecoin_x402_gateway.Base.Text.{set_string}
use stablecoin_x402_gateway.Base.Hex.{decode_hex, trim_0x, read_hex32}
use stablecoin_x402_gateway.Eth.{Eth}
use stablecoin_x402_gateway.Wire.{AuthorizationJson}
use stablecoin_x402_gateway.Wallet.{
  Authorization, SplitParts, recover_receive_signer, split_signature,
}
use stablecoin_x402_gateway.Facilitator.{not_negative}
use stablecoin_x402_gateway.Journal.{WriteOutcome}
use stablecoin_x402_gateway.Reserve.{Reserve, Movement, append_movement}
pub mod Accounted

pub record RedemptionRequestJson : Type 0 where
  pub authorization : AuthorizationJson
  pub signature : String

unfoldable pub parse_authorization : Eth → AuthorizationJson → Option Authorization
parse_authorization eth j =
    if not (eth.is_hex_address j.sender) || not (eth.is_hex_address j.recipient) then none else do
      value ← not_negative (set_string j.value)
      valid_after ← set_string j.valid_after
      valid_before ← set_string j.valid_before
      nonce ← read_hex32 j.nonce
      some (record {
        sender = eth.hex_to_address j.sender;
        recipient = eth.hex_to_address j.recipient;
        value = value;
        valid_after = valid_after;
        valid_before = valid_before;
        nonce = nonce;
      })

-- What a redemption asks of the token contract.
pub data TokenCall : Type 0 where
  receive_with_authorization : Authorization → SplitParts → TokenCall
  burn : ℤ → TokenCall

-- How far a redemption came: the error returns of `runRedeem`, in their order, and its success.
pub data RedemptionStage : Type 0 where
  refused : RedemptionStage
  not_collected : RedemptionStage
  not_burned : RedemptionStage
  not_recorded : RedemptionStage
  redeemed : RedemptionStage

pub record Redemption : Type 0 where
  pub stage : RedemptionStage
  pub calls : List TokenCall
  pub ledger : Reserve

-- What the command meets: its own address, the token's domain, the second it runs at, whether a
-- call is mined and succeeds, whether the reserve's file opens, and what the write to it does.
pub record Issuer : Type 0 where
  pub address : ℕ
  pub domain_separator : Option ℕ
  pub now : ℕ
  pub succeeds : TokenCall → Bool
  pub opens : Bool
  pub write : WriteOutcome

module _ (eth : Eth) (i : Issuer) where
  -- The checks before the chain is touched.
  unfoldable pub check_signer : Authorization → Option ℕ → Bool
  check_signer a none = false
  check_signer a (some signer) =
      if not (nat_beq signer a.sender)
      then false
      else if not (nat_beq a.recipient i.address)
      then false
      else if leb_ℤ a.valid_before (pos i.now)
      then false
      else true

  abbrev pub withdrawal : Authorization → Movement
  withdrawal a = record { delta = pos 0 -ℤ a.value; why = "redemption"; now = pos i.now }

  unfoldable pub after_append : Authorization → List TokenCall → Bool × Reserve → Redemption
  after_append a calls (true, r) = record { stage = redeemed; calls = calls; ledger = r }
  after_append a calls (false, r) = record { stage = not_recorded; calls = calls; ledger = r }

  -- Step 3.
  unfoldable pub record_withdrawal : Authorization → List TokenCall → Reserve → Redemption
  unfolding after_append
  record_withdrawal a calls r =
      if not i.opens
      then record { stage = not_recorded; calls = calls; ledger = r }
      else after_append a calls (append_movement (withdrawal a) i.write r)

  -- Steps 1 and 2.
  unfoldable pub collect_and_burn : Authorization → SplitParts → Reserve → Redemption
  unfolding record_withdrawal
  collect_and_burn a parts r =
      let collect = receive_with_authorization a parts in
      if not (i.succeeds collect)
      then record { stage = not_collected; calls = collect ∷ []; ledger = r }
      else if not (i.succeeds (burn a.value))
      then record { stage = not_burned; calls = collect ∷ burn a.value ∷ []; ledger = r }
      else record_withdrawal a (collect ∷ burn a.value ∷ []) r

  abbrev unchanged : Reserve → Redemption
  unchanged r = record { stage = refused; calls = []; ledger = r }

  unfoldable pub redeem_split : Authorization → Option SplitParts → Reserve → Redemption
  unfolding collect_and_burn
  redeem_split a none r = unchanged r
  redeem_split a (some parts) r = collect_and_burn a parts r

  unfoldable pub redeem_read : Option (Authorization × List ℕ × ℕ) → Reserve → Redemption
  unfolding redeem_split check_signer
  redeem_read none r = unchanged r
  redeem_read (some (a, sig, domain)) r =
      if not (check_signer a (recover_receive_signer eth domain a sig))
      then unchanged r
      else redeem_split a (split_signature sig) r

  unfoldable pub read_request : RedemptionRequestJson → Option (Authorization × List ℕ × ℕ)
  unfolding parse_authorization
  read_request req = do
    a ← parse_authorization eth req.authorization
    sig ← decode_hex (trim_0x req.signature)
    domain ← i.domain_separator
    some (a, sig, domain)

  unfoldable pub run_redeem : RedemptionRequestJson → Reserve → Redemption
  unfolding redeem_read
  run_redeem req r = redeem_read (read_request req) r
