-- ===== src/Bank/Sql.antt =====
-- 13-databases/examples/bank/postgres.go: what the two statements of `Charge` say, and what its function
-- comes to in a transaction.
use go_handbook_for_software.Base.{
  ℕ, ◌≡◌, refl, ap, ◌∙◌, subst, true, false, [], ◌∷◌, ◌++◌, ◌⊎◌, String, Result, ok, err, str_dec,
  Bool-cases, Result-cases, inl, inr, ◌==◌,
}
use go_handbook_for_software.Base.Int64
use go_handbook_for_software.Base.Dict
use go_handbook_for_software.Bank.{insufficient_funds, Payment, Account, FakeStore, account}
use go_handbook_for_software.Bank.Postgres.{domain, driver, Db, Body, returned, inserted, debited}
use go_handbook_for_software.Bank.Transactions.{View, Keeps, Same, IsConfined}

-- the store after the guarded UPDATE, and after the INSERT
abbrev pub updated : Payment → Account → FakeStore → FakeStore
updated p a f = record f {
  accounts =
      Dict.insert str_dec p.customer_id
        (record a { balance_minor = Int64.sub a.balance_minor p.amount_minor }) f.accounts;
}

abbrev pub appended : Payment → FakeStore → FakeStore
appended p f = record f { payments = f.payments ++ p ∷ [] }

abbrev pub charged_as : Payment → String → Payment
charged_as p id = record p { id = id; status = "charged" }

-- What the two SQL statements say, of the store that a transaction works on. The UPDATE affects a row
-- and debits it where the account is there and its balance covers the amount, and no row elsewhere; the
-- INSERT adds the payment as charged, under an id that it returns. Either may fail instead.
pub record IsCharging {S T : Type 0} (db : Db S T) (view : View S T FakeStore) : Type 0 where
  pub debits :
      (p : Payment) → IsConfined view (λ (t : T) (s : S). db.debit p.amount_minor p.customer_id t s)
  pub updates :
      (p : Payment) (t : T) (s s' : S) (n : ℕ) (a : Account)
      → db.debit p.amount_minor p.customer_id t s ≡ (s', ok n)
      → account p.customer_id (view.draft t s) ≡ ok a
      → Int64.lt a.balance_minor p.amount_minor ≡ false
      → ((n == 0) ≡ false) × (view.draft t s' ≡ updated p a (view.draft t s))
  pub skips :
      (p : Payment) (t : T) (s s' : S) (n : ℕ)
      → db.debit p.amount_minor p.customer_id t s ≡ (s', ok n)
      → ((a : Account)
          → account p.customer_id (view.draft t s) ≡ ok a
          → Int64.lt a.balance_minor p.amount_minor ≡ true)
      → (n == 0) ≡ true
  pub adds : (p : Payment) → IsConfined view (λ (t : T) (s : S). db.insert p t s)
  pub inserts :
      (p : Payment) (t : T) (s s' : S) (id status : String)
      → db.insert p t s ≡ (s', ok (id, status))
      → (status ≡ "charged") × (view.draft t s' ≡ appended (charged_as p id) (view.draft t s))

-- What the function of `Charge` comes to, by the store `f` that its transaction starts from.
pub data Charging {S T : Type 0} (view : View S T FakeStore) (p : Payment) (t : T) (f : FakeStore)
    : S × Body Payment → Type 0 where
  stored :
      (s : S) (a : Account) (id : String)
      → account p.customer_id f ≡ ok a
      → Int64.lt a.balance_minor p.amount_minor ≡ false
      → view.draft t s ≡ appended (charged_as p id) (updated p a f)
      → Charging view p t f (s, returned (ok (charged_as p id)))
  refused :
      (s : S)
      → ((a : Account)
          → account p.customer_id f ≡ ok a
          → Int64.lt a.balance_minor p.amount_minor ≡ true)
      → Charging view p t f (s, returned (err (domain insufficient_funds)))
  broken : (s : S) (text e : String) → Charging view p t f (s, returned (err (driver text e)))

-- an account whose balance covers the amount, or none
funds :
    (p : Payment) (f : FakeStore)
    → ((a : Account) × (account p.customer_id f ≡ ok a)
        × (Int64.lt a.balance_minor p.amount_minor ≡ false))
      ⊎ ((a : Account)
          → account p.customer_id f ≡ ok a
          → Int64.lt a.balance_minor p.amount_minor ≡ true)
funds p f = elim (Result-cases (account p.customer_id f)) [
  | inl (a, e) ↦ elim (Bool-cases (Int64.lt a.balance_minor p.amount_minor)) [
    | inl l ↦ inr (λ a' e'.
        let same : a ≡ a' = cc in
        subst (λ x. Int64.lt x.balance_minor p.amount_minor ≡ true) same l)
    | inr l ↦ inl (a, e, l)
  ]
  | inr (x, e) ↦ inr (λ a' e'. absurd cc)
]

module _ {S T : Type 0} (db : Db S T) (view : View S T FakeStore) (laws : IsCharging db view)
    (p : Payment) (t : T) where
  inserted-Charging :
      (f : FakeStore) (s : S) (a : Account) (x : S × Result String (String × String))
      → db.insert p t s ≡ x
      → account p.customer_id f ≡ ok a
      → Int64.lt a.balance_minor p.amount_minor ≡ false
      → view.draft t s ≡ updated p a f
      → Charging view p t f (inserted db p x)
  unfolding inserted
  inserted-Charging f s a (s', err e) i k l u = broken s' "insert payment" e
  inserted-Charging f s a (s', ok (id, status)) i k l u =
      let (charged, added) = laws.inserts p t s s' id status i in
      rw charged (stored s' a id k l (added ∙ ap (appended (charged_as p id)) u))

  pub charge_body-Charging :
      (s : S) (x : S × Result String ℕ)
      → db.debit p.amount_minor p.customer_id t s ≡ x
      → Charging view p t (view.draft t s) (debited db p t x)
  unfolding debited
  charge_body-Charging s (s', err e) d = broken s' "debit" e
  charge_body-Charging s (s', ok n) d = elim (funds p (view.draft t s)) [
    | inl (a, k, l) ↦
        let (row, u) = laws.updates p t s s' n a d k l in
        rw row (inserted-Charging (view.draft t s) s' a (db.insert p t s') refl k l u)
    | inr short ↦ rw (laws.skips p t s s' n d short) (refused s' short)
  ]

  -- the function of `Charge` works in its transaction
  abbrev Confined : S → S → Type 0
  Confined s s' = Keeps view s s' Same × (view.is_open t s' ≡ true)

  Confined-trans : (s s' s'' : S) → Confined s s' → Confined s' s'' → Confined s s''
  Confined-trans s s' s'' c k =
      (record { data_kept = k.0.data_kept ∙ c.0.data_kept; leased = k.0.leased ∙ c.0.leased }, k.1)

  inserted-Confined :
      (s : S) (x : S × Result String (String × String))
      → Confined s x.0
      → Confined s (inserted db p x).0
  unfolding inserted
  inserted-Confined s (s', err e) c = c
  inserted-Confined s (s', ok (id, status)) c = c

  pub debited-Confined :
      (s : S) (x : S × Result String ℕ) → Confined s x.0 → Confined s (debited db p t x).0
  unfolding debited
  debited-Confined s (s', err e) c = c
  debited-Confined s (s', ok n) c = elim (Bool-cases (n == 0)) [
    | inl z ↦ rw z c
    | inr z ↦ rw z (
        inserted-Confined s (db.insert p t s')
          (Confined-trans s s' (db.insert p t s').0 c (laws.adds p t s' c.1)))
  ]
