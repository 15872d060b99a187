-- ===== src/Wallet/Signing.antt =====
-- A signature that the wallet makes is recovered to its address: wallet/wallet.go `signStruct`,
-- `recoverStruct`.
use stablecoin_x402_gateway.Base.{
  ℕ, suc, ◌+◌, ◌<◌, ◌≡◌, refl, sym, ap, subst, ◌∙◌, Option, none, some, some-eq, List, [], ◌∷◌,
  ◌++◌, nat_beq, nat_beq_iff, length, ◌>>=◌, if_true, Bool-cases, inl, inr, arith,
}
use stablecoin_x402_gateway.Base.Hex.{AreBytes}
use stablecoin_x402_gateway.Eth.{Eth}
use stablecoin_x402_gateway.Mandate.{digest, recover712, lower_v}
use stablecoin_x402_gateway.Wallet.{Authorization, Wallet, raise_v, sign_struct, recover_struct}

-- 65 bytes, the last of them 0 or 1.
pub record IsSignature (sig : List ℕ) : Type 0 where
  pub parts : List ℕ
  pub recovery : ℕ
  pub is_joined : sig ≡ parts ++ recovery ∷ []
  pub has_length : length parts ≡ 64
  pub has_bytes : AreBytes parts
  pub is_recovery : recovery < 2

-- go-ethereum's crypto: a signature has that form, and the address of its key is recovered from it.
pub record Recovers (eth : Eth) (w : Wallet) : Type 0 where
  pub is_signature : (d : ℕ) (sig : List ℕ) → w.sign d ≡ some sig → IsSignature sig
  pub recovers :
      (d : ℕ) (sig : List ℕ) → w.sign d ≡ some sig → eth.sig_to_address d sig ≡ some w.address

raise_v-end :
    (bs : List ℕ) (v : ℕ) → v < 2 → raise_v (length bs) (bs ++ v ∷ []) ≡ bs ++ (v + 27) ∷ []
unfolding raise_v
raise_v-end [] v h = ap (λ x. x ∷ []) (omega arith)
raise_v-end (b ∷ bs) v h = ap (λ x. b ∷ x) (raise_v-end bs v h)

lower_v-end :
    (eth : Eth) (bs : List ℕ) (v : ℕ) → lower_v eth (length bs) (bs ++ (v + 27) ∷ []) ≡ bs ++ v ∷ []
unfolding lower_v
lower_v-end eth [] v = ap (λ x. x ∷ []) (ground arith)
lower_v-end eth (b ∷ bs) v = ap (λ x. b ∷ x) (lower_v-end eth bs v)

length-end : (bs : List ℕ) (v : ℕ) → length (bs ++ v ∷ []) ≡ suc (length bs)
length-end [] v = refl
length-end (b ∷ bs) v = ap suc (length-end bs v)

AreBytes-end : (bs : List ℕ) (v : ℕ) → AreBytes bs → v < 256 → AreBytes (bs ++ v ∷ [])
AreBytes-end [] v h small = (small, tt)
AreBytes-end (b ∷ bs) v h small = (h.0, AreBytes-end bs v h.1 small)

-- What the wallet sends: 65 bytes whose lowered form is the signature.
pub record IsRaised (eth : Eth) (sig raised : List ℕ) : Type 0 where
  pub has_length : length raised ≡ 65
  pub has_bytes : AreBytes raised
  pub is_lowered : lower_v eth 64 raised ≡ sig

raise_v-IsRaised : (eth : Eth) (sig : List ℕ) → IsSignature sig → IsRaised eth sig (raise_v 64 sig)
raise_v-IsRaised eth sig h =
    let shape : raise_v 64 sig ≡ h.parts ++ (h.recovery + 27) ∷ [] =
      ap (raise_v 64) h.is_joined
      ∙ subst (λ n. raise_v n (h.parts ++ h.recovery ∷ []) ≡ h.parts ++ (h.recovery + 27) ∷ [])
          h.has_length (raise_v-end h.parts h.recovery h.is_recovery) in
    let lowered : lower_v eth 64 (h.parts ++ (h.recovery + 27) ∷ []) ≡ sig =
      subst (λ n. lower_v eth n (h.parts ++ (h.recovery + 27) ∷ []) ≡ h.parts ++ h.recovery ∷ [])
        h.has_length (lower_v-end eth h.parts h.recovery)
      ∙ sym h.is_joined in
    record {
      has_length = ap length shape ∙ length-end h.parts (h.recovery + 27) ∙ ap suc h.has_length;
      has_bytes =
          subst AreBytes (sym shape)
            (AreBytes-end h.parts (h.recovery + 27) h.has_bytes (omega (arith, h.is_recovery)));
      is_lowered = ap (lower_v eth 64) shape ∙ lowered;
    }

-- What a signature of the wallet is good for.
pub record Verifies (eth : Eth) (domain hash address : ℕ) (sig : List ℕ) : Type 0 where
  pub has_length : length sig ≡ 65
  pub has_bytes : AreBytes sig
  pub is_recovered : recover_struct eth domain hash sig ≡ some address

pub signed-Verifies :
    (eth : Eth) (w : Wallet) (domain hash : ℕ) (signature : Option (List ℕ)) (sig : List ℕ)
    → Recovers eth w
    → w.sign (digest eth domain hash) ≡ signature
    → (signature >>= λ s. some (raise_v 64 s)) ≡ some sig
    → Verifies eth domain hash w.address sig
unfolding recover_struct recover712
signed-Verifies eth w domain hash none sig lib made sent = ground arith
signed-Verifies eth w domain hash (some bare) sig lib made sent =
    let raised = raise_v-IsRaised eth bare (lib.is_signature (digest eth domain hash) bare made) in
    let recovered : recover_struct eth domain hash (raise_v 64 bare) ≡ some w.address =
      if_true (nat_beq (length (raise_v 64 bare)) 65) _ _ ((nat_beq_iff _ 65).1 raised.has_length)
      ∙ ap (eth.sig_to_address (digest eth domain hash)) raised.is_lowered
      ∙ lib.recovers (digest eth domain hash) bare made in
    subst (Verifies eth domain hash w.address) (some-eq sent) (record {
      has_length = raised.has_length;
      has_bytes = raised.has_bytes;
      is_recovered = recovered;
    })

-- A signature that the wallet gives for an authorization has 65 bytes, and the recovery of its
-- signer gives the wallet's address, which is the payer of the authorization.
pub sign_struct-Verifies :
    (eth : Eth) (w : Wallet) (domain : ℕ) (a : Authorization) (hash : ℕ) (sig : List ℕ)
    → Recovers eth w
    → sign_struct eth w domain a hash ≡ some sig
    → (a.sender ≡ w.address) × Verifies eth domain hash w.address sig
unfolding sign_struct
sign_struct-Verifies eth w domain a hash sig lib signed =
    elim (Bool-cases (nat_beq a.sender w.address)) [
      | inl own ↦ (
        (nat_beq_iff a.sender w.address).0 own,
        signed-Verifies eth w domain hash (w.sign (digest eth domain hash)) sig lib refl
            (sym (if_true (nat_beq a.sender w.address) _ _ own) ∙ signed),
      )
      | inr other ↦ absurd (ground arith)
    ]
