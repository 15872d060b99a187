-- ===== src/Redeem/Accounted.antt =====
-- How the reserve and the token calls go together in a redemption: `runRedeem` of cmd/issuer/main.go.
use stablecoin_x402_gateway.Base.{
  ℕ, ◌≡◌, refl, sym, subst, Bool, not, if◌then◌else◌, true, false, Option, none, some, List, [],
  ◌∷◌, nat_beq_iff, Bool-cases, inl, inr, arith,
}
use stablecoin_x402_gateway.Base.Int.{pos, ◌-ℤ◌, leb_ℤ, int_laws}
use stablecoin_x402_gateway.Base.Hex.{decode_hex, trim_0x}
use stablecoin_x402_gateway.Eth.{Eth}
use stablecoin_x402_gateway.Wallet.{
  Authorization, SplitParts, recover_receive_signer, split_signature,
}
use stablecoin_x402_gateway.Journal.{WriteOutcome, written, nothing_written, not_synced, cut_short}
use stablecoin_x402_gateway.Reserve.{Reserve, append_movement, put_movement}
use stablecoin_x402_gateway.Redeem.{
  RedemptionRequestJson, TokenCall, RedemptionStage, Redemption, Issuer, parse_authorization,
  receive_with_authorization, burn, check_signer, withdrawal, after_append, record_withdrawal,
  collect_and_burn, redeem_split, redeem_read, read_request, run_redeem,
}

-- The checks on an authorization: its holder signed it, for this issuer, and it has not expired.
abbrev IsChecked : Authorization → Issuer → Option ℕ → Type 0
IsChecked a i signer =
    (signer ≡ some a.sender)
    × (a.recipient ≡ i.address)
    × (leb_ℤ a.valid_before (pos i.now) ≡ false)

abbrev IsPermitted : Eth → Issuer → RedemptionRequestJson → Authorization → Type 0
IsPermitted eth i req a =
    (sig : List ℕ) × (domain : ℕ) × (parse_authorization eth req.authorization ≡ some a)
    × (decode_hex (trim_0x req.signature) ≡ some sig)
    × (i.domain_separator ≡ some domain)
    × IsChecked a i (recover_receive_signer eth domain a sig)

-- What stands in the reserve and at the token contract, by the stage that the redemption reached.
abbrev pub IsAccounted : Eth → Issuer → RedemptionRequestJson → Reserve → Redemption → Type 0
IsAccounted eth i req r x = AtStage x.stage x.calls x.ledger
  where
    Permitted : Authorization → Type 0
    Permitted a = IsPermitted eth i req a

    collects : Authorization → SplitParts → Bool
    collects a parts = i.succeeds (receive_with_authorization a parts)

    burns : Authorization → Bool
    burns a = i.succeeds (burn a.value)

    AtStage : RedemptionStage → List TokenCall → Reserve → Type 0
    AtStage RedemptionStage.refused calls after = (calls ≡ []) × (after ≡ r)
    AtStage RedemptionStage.not_collected calls after =
        (a : Authorization) × (parts : SplitParts) × Permitted a
        × (collects a parts ≡ false)
        × (calls ≡ receive_with_authorization a parts ∷ [])
        × (after ≡ r)
    AtStage RedemptionStage.not_burned calls after =
        (a : Authorization) × (parts : SplitParts) × Permitted a
        × (collects a parts ≡ true)
        × (burns a ≡ false)
        × (calls ≡ receive_with_authorization a parts ∷ burn a.value ∷ [])
        × (after ≡ r)
    AtStage RedemptionStage.not_recorded calls after =
        (a : Authorization) × (parts : SplitParts) × Permitted a
        × (collects a parts ≡ true)
        × (burns a ≡ true)
        × (calls ≡ receive_with_authorization a parts ∷ burn a.value ∷ [])
        × (after.total ≡ r.total)
    AtStage RedemptionStage.redeemed calls after =
        (a : Authorization) × (parts : SplitParts) × Permitted a
        × (collects a parts ≡ true)
        × (burns a ≡ true)
        × (calls ≡ receive_with_authorization a parts ∷ burn a.value ∷ [])
        × (after.total ≡ r.total -ℤ a.value)

check_signer-IsChecked :
    (eth : Eth) (i : Issuer) (a : Authorization) (signer : Option ℕ)
    → check_signer eth i a signer ≡ true
    → IsChecked a i signer
unfolding check_signer
check_signer-IsChecked eth i a none h = ground arith
check_signer-IsChecked eth i a (some signer) h =
    ground (arith, nat_beq_iff signer a.sender, nat_beq_iff a.recipient i.address)

module _ (eth : Eth) (i : Issuer) (req : RedemptionRequestJson) (r : Reserve) where
  after_append-IsAccounted :
      (a : Authorization) (parts : SplitParts) (outcome : WriteOutcome)
      → IsPermitted eth i req a
      → i.succeeds (receive_with_authorization a parts) ≡ true
      → i.succeeds (burn a.value) ≡ true
      → IsAccounted eth i req r (
          after_append eth i a
            (receive_with_authorization a parts ∷ burn a.value ∷ [])
            (append_movement (withdrawal eth i a) outcome r))
  unfolding after_append append_movement put_movement
  after_append-IsAccounted a parts written ok got gone =
      (a, parts, ok, got, gone, refl, grind int_laws)
  after_append-IsAccounted a parts nothing_written ok got gone =
      (a, parts, ok, got, gone, refl, refl)
  after_append-IsAccounted a parts not_synced ok got gone = (a, parts, ok, got, gone, refl, refl)
  after_append-IsAccounted a parts (cut_short whole) ok got gone =
      (a, parts, ok, got, gone, refl, refl)

  record_withdrawal-IsAccounted :
      (a : Authorization) (parts : SplitParts)
      → IsPermitted eth i req a
      → i.succeeds (receive_with_authorization a parts) ≡ true
      → i.succeeds (burn a.value) ≡ true
      → IsAccounted eth i req r
          (record_withdrawal eth i a (receive_with_authorization a parts ∷ burn a.value ∷ []) r)
  unfolding record_withdrawal
  record_withdrawal-IsAccounted a parts ok got gone =
      either (not i.opens) _ _ (a, parts, ok, got, gone, refl, refl)
        (after_append-IsAccounted a parts i.write ok got gone)
    where
      either :
          (b : Bool) (x y : Redemption)
          → IsAccounted eth i req r x
          → IsAccounted eth i req r y
          → IsAccounted eth i req r (if b then x else y)
      either true x y px py = px
      either false x y px py = py

  collect_and_burn-IsAccounted :
      (a : Authorization) (parts : SplitParts)
      → IsPermitted eth i req a
      → IsAccounted eth i req r (collect_and_burn eth i a parts r)
  unfolding collect_and_burn
  collect_and_burn-IsAccounted a parts ok =
      let calls = receive_with_authorization a parts ∷ burn a.value ∷ [] in
      elim (Bool-cases (i.succeeds (receive_with_authorization a parts))) [
        | inr fails ↦ rw fails (a, parts, ok, fails, refl, refl)
        | inl got ↦ elim (Bool-cases (i.succeeds (burn a.value))) [
          | inr fails ↦ rw (got, fails) (a, parts, ok, got, fails, refl, refl)
          | inl gone ↦
              let shape : collect_and_burn eth i a parts r ≡ record_withdrawal eth i a calls r =
                rw (got, gone) refl in
              subst (IsAccounted eth i req r) (sym shape)
                (record_withdrawal-IsAccounted a parts ok got gone)
        ]
      ]

  redeem_split-IsAccounted :
      (a : Authorization) (parts : Option SplitParts)
      → IsPermitted eth i req a
      → IsAccounted eth i req r (redeem_split eth i a parts r)
  unfolding redeem_split
  redeem_split-IsAccounted a none ok = (refl, refl)
  redeem_split-IsAccounted a (some parts) ok = collect_and_burn-IsAccounted a parts ok

  redeem_read-IsAccounted :
      (x : Option (Authorization × List ℕ × ℕ))
      → read_request eth i req ≡ x
      → IsAccounted eth i req r (redeem_read eth i x r)
  unfolding redeem_read read_request
  redeem_read-IsAccounted none e = (refl, refl)
  redeem_read-IsAccounted (some (a, sig, domain)) e =
      let signer = recover_receive_signer eth domain a sig in
      elim (Bool-cases (check_signer eth i a signer)) [
        | inr bad ↦ rw bad (refl, refl)
        | inl good ↦ rw good (
            redeem_split-IsAccounted a (split_signature sig) (
              sig,
              domain,
              (ground arith),
              (ground arith),
              (ground arith),
              check_signer-IsChecked eth i a signer good,
            ))
      ]

-- Whatever the request and the chain: where it is redeemed, the collection and the burn of its value
-- succeeded and the total of the reserve falls by that value. A request that its holder did not sign
-- for this issuer, or that has expired, calls for nothing and leaves the reserve alone. Where the
-- collection fails, nothing is burned; where the collection or the burn fails, the reserve is left
-- alone; and where only the record of the withdrawal fails, the reserve's total stays though the
-- tokens are burned.
pub run_redeem-IsAccounted :
    (eth : Eth) (i : Issuer) (req : RedemptionRequestJson) (r : Reserve)
    → IsAccounted eth i req r (run_redeem eth i req r)
unfolding run_redeem
run_redeem-IsAccounted eth i req r =
    redeem_read-IsAccounted eth i req r (read_request eth i req) refl
