-- ===== src/Bank/Refine.antt =====
-- 13-databases/examples/bank: postgres.go's `Charge` against fake.go's, over a database that keeps
-- the accounts and payments of a FakeStore.
use go_handbook_for_software.Base.{
  ℕ, ◌≡◌, ◌≢◌, refl, ◌∙◌, subst, true, false, ◌⊎◌, none, some, Option, String, Result, ok, err,
  str_dec, arith, Option-cases, inl, inr,
}
use go_handbook_for_software.Base.Int64
use go_handbook_for_software.Base.Dict
use go_handbook_for_software.Bank.{
  Error, insufficient_funds, not_found, Payment, Account, FakeStore, account, charge, debit,
}
use go_handbook_for_software.Bank.Postgres.{
  domain, driver, Db, Body, returned, TxEnd, done, repanicked, committed, within_tx, end_tx, run_tx,
  debited, charge_body, pg_charge,
}
use go_handbook_for_software.Bank.Transactions.{
  View, IsTransactional, IsConfined, AllOrNothing, within_tx_decides,
}
use go_handbook_for_software.Bank.Sql.{
  updated, appended, charged_as, IsCharging, Charging, stored, refused, broken,
  charge_body-Charging, debited-Confined,
}

-- How `PostgresStore.Charge` on `s` compares to `FakeStore.Charge` on the store that `s` keeps.
pub record Comparison {S T : Type 0} (view : View S T FakeStore) (p : Payment) (s : S)
    (out : S × TxEnd Payment) : Type 0 where
  pub charges :
      (p' : Payment)
      → out.1 ≡ done (ok p')
      → let (f', result) = charge (λ n. p'.id) p (view.data_of s) in
        (result ≡ ok p')
        × ((view.data_of out.0).accounts ≡ f'.accounts)
        × ((view.data_of out.0).payments ≡ f'.payments)
  pub refuses :
      (e : Error)
      → out.1 ≡ done (err (domain e))
      → (e ≡ insufficient_funds)
        × (view.data_of out.0 ≡ view.data_of s)
        × ((pay_id : ℕ → String)
            → ((charge pay_id p (view.data_of s)).1 ≡ err insufficient_funds)
              ⊎ ((charge pay_id p (view.data_of s)).1 ≡ err not_found))
  pub breaks :
      (text e : String) → out.1 ≡ done (err (driver text e)) → view.data_of out.0 ≡ view.data_of s
  pub returns : out.1 ≢ repanicked

-- FakeStore's charge with a balance that covers the amount, and without one
covered_charge :
    (p : Payment) (f : FakeStore) (a : Account) (id : String)
    → account p.customer_id f ≡ ok a
    → Int64.lt a.balance_minor p.amount_minor ≡ false
    → let (f', result) = charge (λ n. id) p f in
      (result ≡ ok (charged_as p id))
      × ((appended (charged_as p id) (updated p a f)).accounts ≡ f'.accounts)
      × ((appended (charged_as p id) (updated p a f)).payments ≡ f'.payments)
unfolding charge debit account
covered_charge p f a id k l = elim (Option-cases (Dict.lookup str_dec p.customer_id f.accounts)) [
  | inl e ↦ absurd (ground (arith, e, k))
  | inr (a', e) ↦
      let same : a' ≡ a = ground (arith, e, k) in rw (e, charge, same, l, debit) (refl, refl, refl)
]

short_charge :
    (p : Payment) (f : FakeStore) (pay_id : ℕ → String)
    → ((a : Account)
        → account p.customer_id f ≡ ok a
        → Int64.lt a.balance_minor p.amount_minor ≡ true)
    → ((charge pay_id p f).1 ≡ err insufficient_funds) ⊎ ((charge pay_id p f).1 ≡ err not_found)
unfolding charge debit account
short_charge p f pay_id short = elim (Option-cases (Dict.lookup str_dec p.customer_id f.accounts)) [
  | inl e ↦ inr (rw (e, charge) refl)
  | inr (a, e) ↦ inl (let l = short a (rw (e, account) refl) in rw (e, charge, l, debit) refl)
]

module _ {S T : Type 0} (db : Db S T) (view : View S T FakeStore)
    (transactional : IsTransactional db view) (laws : IsCharging db view) (p : Payment) where
  charge_body-IsConfined : IsConfined view (charge_body db p)
  unfolding charge_body
  charge_body-IsConfined t s live =
      debited-Confined db view laws p t s (db.debit p.amount_minor p.customer_id t s)
        (laws.debits p t s live)

  module _ (s : S) where
    abbrev whole : AllOrNothing db view (charge_body db p) s (within_tx db (charge_body db p) s)
    whole = within_tx_decides db view transactional (charge_body db p) charge_body-IsConfined s

    -- a payment is returned by a transaction that charged it, and is charged by FakeStore too
    returned_payment :
        (f d : FakeStore) (t : T) (x : S × Body Payment) (p' : Payment)
        → Charging view p t f x
        → x.1 ≡ returned (ok p')
        → d ≡ view.draft t x.0
        → let (f', result) = charge (λ n. p'.id) p f in
          (result ≡ ok p') × (d.accounts ≡ f'.accounts) × (d.payments ≡ f'.payments)
    returned_payment f d t (_, _) p' (stored s' a id k l u) r q =
        let same : charged_as p id ≡ p' = cc in
        let end = q ∙ u in
        subst
          (λ w.
            let (f', result) = charge (λ n. w.id) p f in
            (result ≡ ok w) × (d.accounts ≡ f'.accounts) × (d.payments ≡ f'.payments))
          same (rw end (covered_charge p f a id k l))
    returned_payment f d t (_, _) p' (refused s' short) r q = absurd cc
    returned_payment f d t (_, _) p' (broken s' text e) r q = absurd cc

    -- a commit ends neither in a panic nor in an error of the domain
    committed_end :
        (a : Payment) (c : S × Option String)
        → ((committed db a c).1 ≢ repanicked)
          × ((e : Error) → (committed db a c).1 ≢ done (err (domain e)))
    unfolding committed
    committed_end a (s', none) = (λ q. cc, λ e q. cc)
    committed_end a (s', some e') = (λ q. cc, λ e q. cc)

    -- an error of the domain is that of too little money
    abbrev Short : FakeStore → Error → Type 0
    Short f e =
        (e ≡ insufficient_funds)
        × ((a : Account)
            → account p.customer_id f ≡ ok a
            → Int64.lt a.balance_minor p.amount_minor ≡ true)

    ended :
        (f : FakeStore) (t : T) (x : S × Body Payment)
        → Charging view p t f x
        → ((end_tx db t x).1 ≢ repanicked)
          × ((e : Error) → (end_tx db t x).1 ≡ done (err (domain e)) → Short f e)
    unfolding end_tx
    ended f t (_, _) (stored s' a id k l u) =
        let (never, other) = committed_end (charged_as p id) (db.commit t s') in
        (never, λ e q. absurd (other e q))
    ended f t (_, _) (refused s' short) = (λ q. absurd cc, λ e q. (cc, short))
    ended f t (_, _) (broken s' text e') = (λ q. absurd cc, λ e q. absurd cc)

    -- what the function comes to, by the committed store
    charging :
        (t : T) (s' : S)
        → db.begin_tx s ≡ (s', ok t)
        → Charging view p t (view.data_of s) (charge_body db p t s')
    unfolding charge_body
    charging t s' b =
        subst (λ f. Charging view p t f (charge_body db p t s')) ((transactional.begins s s' t b).1)
          (charge_body-Charging db view laws p t s' (db.debit p.amount_minor p.customer_id t s')
            refl)

    run_end :
        (x : S × Result String T)
        → db.begin_tx s ≡ x
        → ((run_tx db (charge_body db p) x).1 ≢ repanicked)
          × ((e : Error)
              → (run_tx db (charge_body db p) x).1 ≡ done (err (domain e))
              → Short (view.data_of s) e)
    unfolding run_tx
    run_end (s', ok t) b = ended (view.data_of s) t (charge_body db p t s') (charging t s' b)
    run_end (s', err e') b = (λ q. absurd cc, λ e q. absurd cc)

    -- `PostgresStore.Charge` against `FakeStore.Charge` on the store that the database keeps. If it
    -- returns a payment, FakeStore, with that payment's id, returns the same one, and the accounts and
    -- payments kept afterwards are those of FakeStore. If it returns an error of the store's
    -- interface, this is the one for too little money, nothing has changed, and FakeStore returns that
    -- error, or the one for an unknown account. If it returns another error, of the driver, nothing
    -- has changed. It does not panic. The database is taken to do what database/sql documents of
    -- transactions and what the two SQL statements say.
    pub pg_charge_refines : Comparison view p s (pg_charge db p s)
    unfolding pg_charge within_tx
    pg_charge_refines = record {
      charges = λ p' e.
          let c = whole.everything p' e in
          returned_payment (view.data_of s) (view.data_of (pg_charge db p s).0) c.tx
            (charge_body db p c.tx c.start) p' (charging c.tx c.start c.begun) c.ran c.stored;
      refuses = λ e q.
          let (same, short) = (run_end (db.begin_tx s) refl).1 e q in
          (
            same,
            whole.nothing (λ a r. absurd cc),
            λ pay_id. short_charge p (view.data_of s) pay_id short,
          );
      breaks = λ text e q. whole.nothing (λ a r. absurd cc);
      returns = λ q. (run_end (db.begin_tx s) refl).0 q;
    }

    -- A customer without an account: if the statements meet no error of the driver, PostgresStore says
    -- that the funds are insufficient, where FakeStore says that the account is not found.
    pub unknown-answers :
        (t : T) (s' s'' : S) (n : ℕ) (pay_id : ℕ → String)
        → account p.customer_id (view.data_of s) ≡ err not_found
        → db.begin_tx s ≡ (s', ok t)
        → db.debit p.amount_minor p.customer_id t s' ≡ (s'', ok n)
        → ((pg_charge db p s).1 ≡ done (err (domain insufficient_funds)))
          × ((charge pay_id p (view.data_of s)).1 ≡ err not_found)
    unfolding pg_charge within_tx run_tx charge_body debited end_tx account charge
    unknown-answers t s' s'' n pay_id u b x =
        let drafted = (transactional.begins s s' t b).1 in
        let none_affected = laws.skips p t s' s'' n x (λ a k. absurd cc) in
        (ground (arith, b, x, none_affected), ground (arith, u))
