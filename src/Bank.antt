-- ===== src/Bank.antt =====
-- 13-databases/examples/bank: the payment store's types (bank.go) and the in-memory FakeStore
-- (fake.go). Amounts are `int64` patterns; `fmt.Sprintf("pay_%04d", n)` is an argument.
pub mod Charges
pub mod Postgres
pub mod Transactions
pub mod Sql
pub mod Refine
mod Tests
use go_handbook_for_software.Base.{
  ℕ, zero, suc, ◌+◌, Bool, true, false, List, [], ◌∷◌, ◌++◌, ite, str_dec, Option, none, some,
  String, Result, ok, err, if◌then◌else◌, reverse,
}
use go_handbook_for_software.Base.Int64
use go_handbook_for_software.Base.Dict

pub data Error : Type 0 where
  insufficient_funds not_found : Error

pub record Payment : Type 0 where
  pub id : String
  pub customer_id : String
  pub amount_minor : ℕ
  pub currency : String
  pub status : String

pub record Account : Type 0 where
  pub customer_id : String
  pub balance_minor : ℕ
  pub currency : String

pub record FakeStore : Type 0 where
  pub seq : ℕ
  pub accounts : List (String × Account)
  pub payments : List Payment

-- the loop of `NewFakeStore`
unfoldable pub seed : List (String × ℕ) → String → List (String × Account) → List (String × Account)
seed [] currency accounts = accounts
seed ((id, balance) ∷ rest) currency accounts =
    let a : Account = record { customer_id = id; balance_minor = balance; currency = currency } in
    seed rest currency (Dict.insert str_dec id a accounts)

-- `NewFakeStore`
unfoldable pub new_fake_store : List (String × ℕ) → String → FakeStore
unfolding seed
new_fake_store balances currency = record {
  seq = 0;
  accounts = seed balances currency [];
  payments = [];
}

-- the part of `Charge` after the account is found
unfoldable pub debit :
    (ℕ → String) → Payment → Account → FakeStore → FakeStore × Result Error Payment
debit pay_id p acct f =
    if Int64.lt acct.balance_minor p.amount_minor
    then (f, err insufficient_funds)
    else (let seq = f.seq + 1 in
        let p' = record p { id = pay_id seq; status = "charged" } in
        let acct' = record acct { balance_minor = Int64.sub acct.balance_minor p.amount_minor } in
        (
          record {
            seq = seq;
            accounts = Dict.insert str_dec p.customer_id acct' f.accounts;
            payments = f.payments ++ p' ∷ [];
          },
          ok p',
        ))

-- `FakeStore.Charge`
unfoldable pub charge : (ℕ → String) → Payment → FakeStore → FakeStore × Result Error Payment
charge pay_id p f = elim (Dict.lookup str_dec p.customer_id f.accounts) [
  | none ↦ (f, err not_found)
  | some acct ↦ debit pay_id p acct f
]

-- the loop of `ByCustomer`, from the newest payment on; `left` is `limit - len(out)`
unfoldable pub collect : String → List Payment → ℕ → List Payment
collect customer_id [] left = []
collect customer_id (p ∷ ps) zero = []
collect customer_id (p ∷ ps) (suc left) =
    let found = collect customer_id ps left in
    let rest = collect customer_id ps (suc left) in
    ite (str_dec p.customer_id customer_id) (p ∷ found) rest

-- `FakeStore.ByCustomer`
unfoldable pub by_customer : String → ℕ → FakeStore → List Payment
by_customer customer_id limit f = collect customer_id (reverse f.payments) limit

-- `FakeStore.Account`
unfoldable pub account : String → FakeStore → Result Error Account
account customer_id f = elim (Dict.lookup str_dec customer_id f.accounts) [
  | none ↦ err not_found
  | some a ↦ ok a
]
