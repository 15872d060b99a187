-- ===== src/Accounts/Each.antt =====
-- Each operation of the accounts, x402/policy_mandate.go, acts on the account of its mandate alone:
-- `reserve`, `commit`, `release`.
use stablecoin_x402_gateway.Base.{
  ℕ, ◌≡◌, ◌≢◌, Bool, none, arith, nat_eq, beq_ne, beq_self, if◌then◌else◌, inl, inr, nat_beq,
  nat_beq_iff, Bool-cases, ap, ◌∙◌,
}
use mathlib.Core.Path.{subst}
use stablecoin_x402_gateway.Accounts.Laws.{release_account-reserve_account}
use stablecoin_x402_gateway.Base.Int.{ℤ}
use stablecoin_x402_gateway.Base.Dict.{lookup, insert, erase, lookup-insert, erase_absent}
use stablecoin_x402_gateway.Mandate.{Mandate}
use stablecoin_x402_gateway.Accounts.Defs.{
  Account, Accounts, account_of, reserve, commit, release, reserve_account, commit_account,
  release_account,
}

pub account_of-insert :
    (id j : ℕ) (acc : Account) (a : Accounts)
    → account_of j (insert id acc a) ≡ (if nat_eq.beq id j then acc else account_of j a)
unfolding account_of
account_of-insert id j acc a = ground (arith, lookup-insert id j acc a)

-- Each operation acts on the account of its mandate and on no other.
pub account_of-reserve_self :
    (m : Mandate) (nonce : ℕ) (amount : ℤ) (now : ℕ) (skip : Bool) (a : Accounts)
    → account_of m.mandate_id (reserve m nonce amount now skip a).1
      ≡ (reserve_account m nonce amount now skip (account_of m.mandate_id a)).1
unfolding reserve
account_of-reserve_self m nonce amount now skip a =
    rw account_of-insert (rw (beq_self m.mandate_id))

pub account_of-reserve_ne :
    (m : Mandate) (nonce : ℕ) (amount : ℤ) (now : ℕ) (skip : Bool) (a : Accounts) (id : ℕ)
    → m.mandate_id ≢ id
    → account_of id (reserve m nonce amount now skip a).1 ≡ account_of id a
unfolding reserve
account_of-reserve_ne m nonce amount now skip a id h =
    rw account_of-insert (rw (beq_ne m.mandate_id id h))

pub account_of-commit_self :
    (m : Mandate) (nonce now : ℕ) (a : Accounts)
    → account_of m.mandate_id (commit m nonce now a)
      ≡ commit_account m nonce now (account_of m.mandate_id a)
unfolding commit account_of commit_account lookup
account_of-commit_self m nonce now a = ground (
  arith,
  lookup-insert m.mandate_id m.mandate_id (commit_account m nonce now (account_of m.mandate_id a))
      a,
)

pub account_of-commit_ne :
    (m : Mandate) (nonce now : ℕ) (a : Accounts) (id : ℕ)
    → m.mandate_id ≢ id
    → account_of id (commit m nonce now a) ≡ account_of id a
unfolding commit account_of
account_of-commit_ne m nonce now a id h = ground (
  arith,
  lookup-insert m.mandate_id id (commit_account m nonce now (account_of m.mandate_id a)) a,
)

pub account_of-release_self :
    (m : Mandate) (nonce : ℕ) (a : Accounts)
    → account_of m.mandate_id (release m nonce a)
      ≡ release_account nonce (account_of m.mandate_id a)
unfolding release account_of release_account erase
account_of-release_self m nonce a = ground (
  arith,
  lookup-insert m.mandate_id m.mandate_id (release_account nonce (account_of m.mandate_id a)) a,
)

pub account_of-release_ne :
    (m : Mandate) (nonce : ℕ) (a : Accounts) (id : ℕ)
    → m.mandate_id ≢ id
    → account_of id (release m nonce a) ≡ account_of id a
unfolding release account_of
account_of-release_ne m nonce a id h =
    ground
      (arith, lookup-insert m.mandate_id id (release_account nonce (account_of m.mandate_id a)) a)

pub reserve_account_refused :
    (m : Mandate) (nonce : ℕ) (amount : ℤ) (now : ℕ) (skip : Bool) (acc : Account)
    → (reserve_account m nonce amount now skip acc).0 ≢ none
    → (reserve_account m nonce amount now skip acc).1 ≡ acc
unfolding reserve_account
reserve_account_refused m nonce amount now skip acc h = ground arith

-- A refused reservation leaves every account as it was.
pub reserve_refused :
    (m : Mandate) (nonce : ℕ) (amount : ℤ) (now : ℕ) (skip : Bool) (a : Accounts) (id : ℕ)
    → (reserve m nonce amount now skip a).0 ≢ none
    → account_of id (reserve m nonce amount now skip a).1 ≡ account_of id a
unfolding reserve
reserve_refused m nonce amount now skip a id h =
    rw
      (
        account_of-insert,
        reserve_account_refused m nonce amount now skip (account_of m.mandate_id a) h,
      )
      (ground (arith, nat_beq_iff m.mandate_id id))

-- Reserve and release of a fresh nonce leave every account as it was.
pub release-reserve :
    (m : Mandate) (nonce : ℕ) (amount : ℤ) (now : ℕ) (skip : Bool) (a : Accounts) (id : ℕ)
    → lookup nonce (account_of m.mandate_id a).reserved ≡ none
    → account_of id (release m nonce (reserve m nonce amount now skip a).1) ≡ account_of id a
release-reserve m nonce amount now skip a id fresh =
    let b = (reserve m nonce amount now skip a).1 in
    elim (Bool-cases (nat_beq m.mandate_id id)) [
      | inl e ↦
          let same : m.mandate_id ≡ id = (nat_beq_iff m.mandate_id id).0 e in
          subst (λ j. account_of j (release m nonce b) ≡ account_of j a) same
            (account_of-release_self m nonce b
              ∙ ap (release_account nonce) (account_of-reserve_self m nonce amount now skip a)
              ∙ release_account-reserve_account m nonce amount now skip (account_of m.mandate_id a)
                  fresh)
      | inr e ↦
          let other : m.mandate_id ≢ id = λ q. ground (arith, nat_beq_iff m.mandate_id id) in
          account_of-release_ne m nonce b id other
          ∙ account_of-reserve_ne m nonce amount now skip a id other
    ]

-- A release of a nonce that is not reserved leaves every account as it was.
pub release_absent :
    (m : Mandate) (nonce : ℕ) (a : Accounts) (id : ℕ)
    → lookup nonce (account_of m.mandate_id a).reserved ≡ none
    → account_of id (release m nonce a) ≡ account_of id a
release_absent m nonce a id fresh = elim (Bool-cases (nat_beq m.mandate_id id)) [
  | inl e ↦
      let same : m.mandate_id ≡ id = (nat_beq_iff m.mandate_id id).0 e in
      subst (λ j. account_of j (release m nonce a) ≡ account_of j a) same
        (account_of-release_self m nonce a
          ∙ unfold release_account in
            ap (λ d. record (account_of m.mandate_id a) { reserved = d })
              (erase_absent nonce (account_of m.mandate_id a).reserved fresh))
  | inr e ↦ account_of-release_ne m nonce a id (λ q. ground (arith, nat_beq_iff m.mandate_id id))
]
