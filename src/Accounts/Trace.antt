-- ===== src/Accounts/Trace.antt =====
-- The accounts under any interleaving of payments in flight, for one mandate and all others.
use stablecoin_x402_gateway.Base.{
  ℕ, ◌≤◌, ◌≡◌, ◌≢◌, Bool, true, false, some, [], arith, nat_eq, Option-cases, inl, inr,
}
use stablecoin_x402_gateway.Base.Int.{ℤ, pos, ◌+ℤ◌, ◌≤ℤ◌, int_laws}
use stablecoin_x402_gateway.Base.Dict.{lookup}
use stablecoin_x402_gateway.Mandate.{Mandate}
use stablecoin_x402_gateway.Accounts.Defs.{
  Account, Accounts, new_account, account_of, reserve, commit, release, reserve_account,
  commit_account, release_account, committed_amount, reserved_amount, sum_since, sum_reserved,
}
use stablecoin_x402_gateway.Accounts.Budget.{
  HasWindow, IsSound, usage, usage_later, usage_release, usage_commit, usage_reserve,
  usage_reserve_confirmed, commit_account-IsSound, release_account-IsSound, reserve_account-IsSound,
  new_account-IsSound,
}
use stablecoin_x402_gateway.Accounts.Each.{
  account_of-reserve_self, account_of-reserve_ne, account_of-commit_self, account_of-commit_ne,
  account_of-release_self, account_of-release_ne, reserve_account_refused,
}

-- `waived` is the sum of the confirmed payments under the mandate, for which the budget is not
-- checked.
pub record Moment : Type 0 where
  pub now : ℕ
  pub accounts : Accounts
  pub waived : ℤ

-- What may happen to the accounts: time passes, and payments under `m`, confirmed or not, or under
-- mandates with another id are reserved, committed or released, in any order.
pub data Step (m : Mandate) : Moment → Moment → Type 0 where
  tick : (s : Moment) (later : ℕ) → s.now ≤ later → Step m s (record s { now = later })
  reserves :
      (s : Moment) (nonce : ℕ) (amount : ℤ)
      → pos 0 ≤ℤ amount
      → Step m s (record s { accounts = (reserve m nonce amount s.now false s.accounts).1 })
  reserves_confirmed :
      (s : Moment) (nonce : ℕ) (amount : ℤ)
      → pos 0 ≤ℤ amount
      → Step m s (record s {
        accounts = (reserve m nonce amount s.now true s.accounts).1;
        waived = s.waived +ℤ amount;
      })
  commits :
      (s : Moment) (nonce : ℕ) → Step m s (record s { accounts = commit m nonce s.now s.accounts })
  releases :
      (s : Moment) (nonce : ℕ) → Step m s (record s { accounts = release m nonce s.accounts })
  other_reserves :
      (s : Moment) (other : Mandate) (nonce : ℕ) (amount : ℤ) (skip : Bool)
      → other.mandate_id ≢ m.mandate_id
      → Step m s (record s { accounts = (reserve other nonce amount s.now skip s.accounts).1 })
  other_commits :
      (s : Moment) (other : Mandate) (nonce : ℕ)
      → other.mandate_id ≢ m.mandate_id
      → Step m s (record s { accounts = commit other nonce s.now s.accounts })
  other_releases :
      (s : Moment) (other : Mandate) (nonce : ℕ)
      → other.mandate_id ≢ m.mandate_id
      → Step m s (record s { accounts = release other nonce s.accounts })

pub data Reach (m : Mandate) (s : Moment) : Moment → Type 0 where
  here : Reach m s s
  next : {t u : Moment} → Reach m s t → Step m t u → Reach m s u

pub record IsWithin (m : Mandate) (b : ℤ) (now : ℕ) (acc : Account) : Type 0 where
  pub sound : IsSound acc
  pub within : usage m now acc ≤ℤ b

-- Within the budget and what was waived of it.
pub record AccountWithin (m : Mandate) (b : ℤ) (s : Moment) : Type 0 where
  pub waives : pos 0 ≤ℤ s.waived
  pub account : IsWithin m (b +ℤ s.waived) s.now (account_of m.mandate_id s.accounts)

module _ (m : Mandate) (b : ℤ) (window : HasWindow m) (budget : m.budget_amount ≡ some b)
    (pb : pos 1 ≤ℤ b) where
  reserve_account-IsWithin :
      (nonce : ℕ) (amount waived : ℤ) (now : ℕ) (acc : Account)
      → pos 0 ≤ℤ amount
      → pos 0 ≤ℤ waived
      → IsWithin m (b +ℤ waived) now acc
      → IsWithin m (b +ℤ waived) now (reserve_account m nonce amount now false acc).1
  reserve_account-IsWithin nonce amount waived now acc h k v =
      elim (Option-cases (reserve_account m nonce amount now false acc).0) [
        | inl granted ↦
            let fits = usage_reserve m window acc nonce now amount b v.sound budget pb granted in
            record {
              sound = reserve_account-IsSound m nonce amount now false acc h v.sound;
              within = omega (int_laws, fits, k);
            }
        | inr (code, refused) ↦
            rw (reserve_account_refused m nonce amount now false acc (λ p. cc)) v
      ]

  confirmed-IsWithin :
      (nonce : ℕ) (amount limit : ℤ) (now : ℕ) (acc : Account)
      → pos 0 ≤ℤ amount
      → IsWithin m limit now acc
      → IsWithin m (limit +ℤ amount) now (reserve_account m nonce amount now true acc).1
  confirmed-IsWithin nonce amount limit now acc h v = record {
    sound = reserve_account-IsSound m nonce amount now true acc h v.sound;
    within =
        omega (int_laws, usage_reserve_confirmed m window acc nonce now amount v.sound h, v.within);
  }

  commit_account-IsWithin :
      (nonce : ℕ) (limit : ℤ) (now : ℕ) (acc : Account)
      → IsWithin m limit now acc
      → IsWithin m limit now (commit_account m nonce now acc)
  commit_account-IsWithin nonce limit now acc v = record {
    sound = commit_account-IsSound m nonce now acc v.sound;
    within = rw (usage_commit m window acc nonce now v.sound) v.within;
  }

  release_account-IsWithin :
      (nonce : ℕ) (limit : ℤ) (now : ℕ) (acc : Account)
      → IsWithin m limit now acc
      → IsWithin m limit now (release_account nonce acc)
  release_account-IsWithin nonce limit now acc v = record {
    sound = release_account-IsSound nonce acc v.sound;
    within = omega (arith, usage_release m window acc nonce now v.sound, v.within);
  }

  later-IsWithin :
      (limit : ℤ) (now later : ℕ) (acc : Account)
      → now ≤ later
      → IsWithin m limit now acc
      → IsWithin m limit later acc
  later-IsWithin limit now later acc le v = record {
    sound = v.sound;
    within = omega (arith, usage_later m window acc now later v.sound le, v.within);
  }

  move_waived :
      (waived amount : ℤ) (now : ℕ) (acc : Account)
      → IsWithin m (b +ℤ waived +ℤ amount) now acc
      → IsWithin m (b +ℤ (waived +ℤ amount)) now acc
  move_waived waived amount now acc v = record {
    sound = v.sound;
    within = omega (int_laws, v.within);
  }

  Step-AccountWithin : {s t : Moment} → Step m s t → AccountWithin m b s → AccountWithin m b t
  Step-AccountWithin (tick s later le) v = record {
    waives = v.waives;
    account = later-IsWithin _ s.now later _ le v.account;
  }
  Step-AccountWithin (reserves s nonce amount h) v = record {
    waives = v.waives;
    account =
        rw account_of-reserve_self
          (reserve_account-IsWithin nonce amount s.waived s.now _ h v.waives v.account);
  }
  Step-AccountWithin (reserves_confirmed s nonce amount h) v = record {
    waives = omega (int_laws, v.waives, h);
    account = rw account_of-reserve_self (
        move_waived s.waived amount s.now _
          (confirmed-IsWithin nonce amount _ s.now _ h v.account));
  }
  Step-AccountWithin (commits s nonce) v = record {
    waives = v.waives;
    account = rw account_of-commit_self (commit_account-IsWithin nonce _ s.now _ v.account);
  }
  Step-AccountWithin (releases s nonce) v = record {
    waives = v.waives;
    account = rw account_of-release_self (release_account-IsWithin nonce _ s.now _ v.account);
  }
  Step-AccountWithin (other_reserves s other nonce amount skip ne) v = record {
    waives = v.waives;
    account =
        rw (account_of-reserve_ne other nonce amount s.now skip s.accounts m.mandate_id ne)
          v.account;
  }
  Step-AccountWithin (other_commits s other nonce ne) v = record {
    waives = v.waives;
    account = rw (account_of-commit_ne other nonce s.now s.accounts m.mandate_id ne) v.account;
  }
  Step-AccountWithin (other_releases s other nonce ne) v = record {
    waives = v.waives;
    account = rw (account_of-release_ne other nonce s.accounts m.mandate_id ne) v.account;
  }

  Reach-AccountWithin : {s t : Moment} → AccountWithin m b s → Reach m s t → AccountWithin m b t
  Reach-AccountWithin v here = v
  Reach-AccountWithin v (next r st) = Step-AccountWithin st (Reach-AccountWithin v r)

  new_account-IsWithin : (now : ℕ) → IsWithin m (b +ℤ pos 0) now new_account
  unfolding usage committed_amount reserved_amount sum_since sum_reserved
  new_account-IsWithin now = record { sound = new_account-IsSound; within = omega int_laws }

-- From empty accounts, whatever payments are in flight and in whatever order they end, what is
-- committed in the budget window and what is reserved never pass the budget of the mandate by more
-- than the sum of its confirmed payments, where the budget is positive, its window does not wrap
-- below zero, no payment is negative, and no other mandate has the same id.
pub Reach-usage_le :
    (m : Mandate) (b : ℤ) (start : ℕ)
    → HasWindow m
    → m.budget_amount ≡ some b
    → pos 1 ≤ℤ b
    → {t : Moment} → Reach m (record { now = start; accounts = []; waived = pos 0 }) t
    → usage m t.now (account_of m.mandate_id t.accounts) ≤ℤ (b +ℤ t.waived)
unfolding account_of lookup
Reach-usage_le m b start window budget pb r =
    let first : AccountWithin m b (record { now = start; accounts = []; waived = pos 0 }) = record {
      waives = omega arith;
      account = new_account-IsWithin m b window budget pb start;
    } in
    (Reach-AccountWithin m b window budget pb first r).account.within
