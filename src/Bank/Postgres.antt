-- ===== src/Bank/Postgres.antt =====
-- 13-databases/examples/bank/postgres.go: the store over database/sql. The database server and the pool
-- are one state `S` that every call changes, and a parameter: what each of the store's statements does
-- to it, with the errors of the driver. A rollback's error is ignored by the code and left out.
use go_handbook_for_software.Base.{
  ℕ, ◌||◌, List, [], ◌∷◌, Option, none, some, String, Result, ok, err, if◌then◌else◌, ◌==◌,
}
use go_handbook_for_software.Base.Int64
use go_handbook_for_software.Bank.{Error, insufficient_funds, not_found, Payment, Account}

-- an error of the store's interface, or one of the driver under the text that wraps it
pub data Failure : Type 0 where
  domain : Error → Failure
  driver : String → String → Failure

-- The statements of the store on states `S`, with transactions `T`: BeginTx, Commit, Rollback; in a
-- transaction, the guarded UPDATE with the rows that it affects and the INSERT with the id and status
-- that it returns; the SELECT of payments, its rows as they scan and the error after them; the SELECT
-- of an account, `none` for ErrNoRows.
pub record Db (S T : Type 0) : Type 0 where
  pub begin_tx : S → S × Result String T
  pub commit : T → S → S × Option String
  pub rollback : T → S → S
  pub debit : ℕ → String → T → S → S × Result String ℕ
  pub insert : Payment → T → S → S × Result String (String × String)
  pub select : String → ℕ → S → Result String (List (Result String Payment) × Option String)
  pub select_account : String → S → Result String (Option Account)

-- how the function of a transaction ends
pub data Body (A : Type 0) : Type 0 where
  returned : Result Failure A → Body A
  panicked : Body A

-- how `withinTx` ends; the value stands for what the function has stored outside
pub data TxEnd (A : Type 0) : Type 0 where
  done : Result Failure A → TxEnd A
  repanicked : TxEnd A

-- the loop of `ByCustomer`
unfoldable pub scan_rows :
    List (Result String Payment) → Option String → Result Failure (List Payment)
scan_rows [] none = ok []
scan_rows [] (some e) = err (driver "iterate payments" e)
scan_rows (err e ∷ rows) last = err (driver "scan payment" e)
scan_rows (ok p ∷ rows) last = elim (scan_rows rows last) [ err e ↦ err e | ok ps ↦ ok (p ∷ ps) ]

-- the limit that `ByCustomer` uses
unfoldable pub bounded_limit : ℕ → ℕ
bounded_limit limit = if Int64.le limit 0 || Int64.lt 100 limit then 100 else limit

module _ {S T : Type 0} (db : Db S T) where
  module _ {A : Type 0} where
    -- the return of `withinTx` after `Commit`
    unfoldable pub committed : A → S × Option String → S × TxEnd A
    committed a (s, none) = (s, done (ok a))
    committed a (s, some e) = (s, done (err (driver "" e)))

    -- `withinTx` after the function
    unfoldable pub end_tx : T → S × Body A → S × TxEnd A
    unfolding committed
    end_tx t (s, panicked) = (db.rollback t s, repanicked)
    end_tx t (s, returned (err e)) = (db.rollback t s, done (err e))
    end_tx t (s, returned (ok a)) = committed a (db.commit t s)

    -- `withinTx` after `BeginTx`
    unfoldable pub run_tx : (T → S → S × Body A) → S × Result String T → S × TxEnd A
    unfolding end_tx
    run_tx fn (s, err e) = (s, done (err (driver "begin" e)))
    run_tx fn (s, ok t) = end_tx t (fn t s)

    -- `withinTx`
    unfoldable pub within_tx : (T → S → S × Body A) → S → S × TxEnd A
    unfolding run_tx
    within_tx fn s = run_tx fn (db.begin_tx s)

  -- the function of `Charge` after the INSERT
  unfoldable pub inserted : Payment → S × Result String (String × String) → S × Body Payment
  inserted p (s, err e) = (s, returned (err (driver "insert payment" e)))
  inserted p (s, ok (id, status)) = (s, returned (ok (record p { id = id; status = status })))

  -- the function of `Charge` after the UPDATE
  unfoldable pub debited : Payment → T → S × Result String ℕ → S × Body Payment
  unfolding inserted
  debited p t (s, err e) = (s, returned (err (driver "debit" e)))
  debited p t (s, ok n) =
      if n == 0
      then (s, returned (err (domain insufficient_funds)))
      else inserted p (db.insert p t s)

  -- the function that `Charge` gives to `withinTx`
  unfoldable pub charge_body : Payment → T → S → S × Body Payment
  unfolding debited
  charge_body p t s = debited p t (db.debit p.amount_minor p.customer_id t s)

  -- `PostgresStore.Charge`
  unfoldable pub pg_charge : Payment → S → S × TxEnd Payment
  unfolding within_tx charge_body
  pg_charge p s = within_tx (charge_body p) s

  -- `PostgresStore.ByCustomer`
  unfoldable pub pg_by_customer : String → ℕ → S → Result Failure (List Payment)
  unfolding scan_rows bounded_limit
  pg_by_customer customer_id limit s = elim (db.select customer_id (bounded_limit limit) s) [
    | err e ↦ err (driver "query payments" e)
    | ok (rows, last) ↦ scan_rows rows last
  ]

  -- `PostgresStore.Account`
  unfoldable pub pg_account : String → S → Result Failure Account
  pg_account customer_id s = elim (db.select_account customer_id s) [
    | err e ↦ err (driver "query account" e)
    | ok none ↦ err (domain not_found)
    | ok (some a) ↦ ok a
  ]
