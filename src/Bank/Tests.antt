-- ===== src/Bank/Tests.antt =====
-- The theorems about the fake store at concrete inputs.
use go_handbook_for_software.Base.{
  ℕ, ◌≡◌, refl, subst, Bool, true, false, Option, err, [], ◌∷◌, String, str_dec, Result, ok, none,
  some, ◌==◌, if◌then◌else◌, arith, Option-cases, inl, inr,
}
use go_handbook_for_software.Base.Int64
use go_handbook_for_software.Bank.Postgres.{
  Db, Body, panicked, done, within_tx, run_tx, pg_charge, charge_body, debited, inserted, end_tx,
  committed,
}
use go_handbook_for_software.Bank.Transactions.{
  View, Keeps, Same, Taken, Released, IsTransactional, IsConfined, AllOrNothing, within_tx_decides,
}
use go_handbook_for_software.Bank.Sql.{updated, appended, charged_as, IsCharging}
use go_handbook_for_software.Bank.Refine.{Comparison, pg_charge_refines}
use go_handbook_for_software.Base.Dict
use go_handbook_for_software.Bank.{Payment, Account, FakeStore, charge, debit, account}
use go_handbook_for_software.Bank.Charges.{Adds, spent}

abbrev numbered : ℕ → String
numbered n = "pay"

abbrev ann : ℕ → Account
ann n = record { customer_id = "ann"; balance_minor = n; currency = "USD" }

abbrev opened : FakeStore
opened = record { seq = 0; accounts = ("ann", ann 100) ∷ []; payments = [] }

abbrev payment : ℕ → Payment
payment n = record { id = ""; customer_id = "ann"; amount_minor = n; currency = "USD"; status = "" }

opened_account : account "ann" opened ≡ ok (ann 100)
unfolding account Dict.lookup str_dec
opened_account = refl

after_charge : account "ann" (charge numbered (payment 30) opened).0 ≡ ok (ann 70)
unfolding charge debit account Dict.lookup Dict.insert str_dec
after_charge = refl

opened-Adds : Adds "ann" 100 opened
unfolding spent
opened-Adds = record { holder = ann 100; known = opened_account; adds = refl }

-- a database of one connection: the store, and the draft of the transaction that is open, if any
abbrev World : Type 0
World = FakeStore × Option FakeStore

abbrev debit_row : ℕ → String → FakeStore → FakeStore × ℕ
debit_row amount customer f = elim (Dict.lookup str_dec customer f.accounts) [
  | none ↦ (f, 0)
  | some a ↦ if Int64.lt a.balance_minor amount then (f, 0) else (
    record f {
      accounts =
          Dict.insert str_dec customer
            (record a { balance_minor = Int64.sub a.balance_minor amount }) f.accounts;
    },
    1,
  )
]

abbrev begin_one : World → World × Result String ℕ
begin_one (f, none) = ((f, some f), ok 0)
begin_one (f, some d) = ((f, some d), err "busy")

abbrev commit_one : ℕ → World → World × Option String
commit_one t (f, none) = ((f, none), some "no transaction")
commit_one t (f, some d) = ((d, none), none)

abbrev debit_one : ℕ → String → ℕ → World → World × Result String ℕ
debit_one amount customer t (f, none) = ((f, none), err "no transaction")
debit_one amount customer t (f, some d) =
    let (d', n) = debit_row amount customer d in ((f, some d'), ok n)

abbrev insert_one : Payment → ℕ → World → World × Result String (String × String)
insert_one p t (f, none) = ((f, none), err "no transaction")
insert_one p t (f, some d) = ((f, some (appended (charged_as p "1") d)), ok ("1", "charged"))

abbrev single : Db World ℕ
single = record {
  begin_tx = begin_one;
  commit = commit_one;
  rollback = λ t w. (w.0, none);
  debit = debit_one;
  insert = insert_one;
  select = λ c n w. ok ([], none);
  select_account = λ c w. ok (Dict.lookup str_dec c w.0.accounts);
}

abbrev drafted : World → FakeStore
drafted (f, none) = f
drafted (f, some d) = d

abbrev has_draft : World → Bool
has_draft (f, none) = false
has_draft (f, some d) = true

abbrev connections : World → ℕ
connections (f, none) = 0
connections (f, some d) = 1

abbrev seen : View World ℕ FakeStore
seen = record {
  data_of = λ w. w.0;
  draft = λ t w. drafted w;
  is_open = λ t w. has_draft w;
  leases = connections;
}

begin_one-begins :
    (s s' : World) (t : ℕ)
    → begin_one s ≡ (s', ok t)
    → Keeps seen s s' Taken × (drafted s' ≡ s.0) × (has_draft s' ≡ true)
begin_one-begins (f, none) s' t e =
    let same : (f, some f) ≡ s' = cc in
    subst (λ w. Keeps seen (f, none) w Taken × (drafted w ≡ f) × (has_draft w ≡ true)) same
      (record { data_kept = refl; leased = refl }, refl, refl)
begin_one-begins (f, some d) s' t e = absurd cc

begin_one-fails : (s s' : World) (e : String) → begin_one s ≡ (s', err e) → Keeps seen s s' Same
begin_one-fails (f, none) s' e h = absurd cc
begin_one-fails (f, some d) s' e h =
    let same : (f, some d) ≡ s' = cc in
    subst (λ w. Keeps seen (f, some d) w Same) same (record { data_kept = refl; leased = refl })

rollback_one : (s : World) → has_draft s ≡ true → Keeps seen s (s.0, none) Released
rollback_one (f, none) h = absurd cc
rollback_one (f, some d) h = record { data_kept = refl; leased = refl }

commit_one-commits :
    (t : ℕ) (s s' : World)
    → has_draft s ≡ true
    → commit_one t s ≡ (s', none)
    → (s'.0 ≡ drafted s) × Released (connections s) (connections s')
commit_one-commits t (f, none) s' h e = absurd cc
commit_one-commits t (f, some d) s' h e =
    let same : (d, none) ≡ s' = cc in
    subst (λ w. (w.0 ≡ d) × Released 1 (connections w)) same (refl, refl)

commit_one-never_fails :
    (t : ℕ) (s s' : World) (e : String)
    → has_draft s ≡ true
    → commit_one t s ≡ (s', some e)
    → Keeps seen s s' Released
commit_one-never_fails t (f, none) s' e h c = absurd cc
commit_one-never_fails t (f, some d) s' e h c = absurd cc

single-IsTransactional : IsTransactional single seen
single-IsTransactional = record {
  begins = begin_one-begins;
  not_begun = begin_one-fails;
  rolls_back = λ t s h. rollback_one s h;
  commits = commit_one-commits;
  not_committed = commit_one-never_fails;
}

debit_one-IsConfined :
    (amount : ℕ) (customer : String)
    → IsConfined seen (λ (t : ℕ) (s : World). debit_one amount customer t s)
debit_one-IsConfined amount customer t (f, none) h = absurd cc
debit_one-IsConfined amount customer t (f, some d) h =
    (record { data_kept = refl; leased = refl }, refl)

insert_one-IsConfined : (p : Payment) → IsConfined seen (λ (t : ℕ) (s : World). insert_one p t s)
insert_one-IsConfined p t (f, none) h = absurd cc
insert_one-IsConfined p t (f, some d) h = (record { data_kept = refl; leased = refl }, refl)

debit_row-updates :
    (p : Payment) (f : FakeStore) (a : Account)
    → account p.customer_id f ≡ ok a
    → Int64.lt a.balance_minor p.amount_minor ≡ false
    → debit_row p.amount_minor p.customer_id f ≡ (updated p a f, 1)
unfolding account
debit_row-updates p f a k l = elim (Option-cases (Dict.lookup str_dec p.customer_id f.accounts)) [
  | inl e ↦ absurd (ground (arith, e, k))
  | inr (a', e) ↦ let same : a' ≡ a = ground (arith, e, k) in rw (e, debit_row, same, l) refl
]

debit_row-skips :
    (p : Payment) (f : FakeStore)
    → ((a : Account)
        → account p.customer_id f ≡ ok a
        → Int64.lt a.balance_minor p.amount_minor ≡ true)
    → (debit_row p.amount_minor p.customer_id f).1 ≡ 0
unfolding account
debit_row-skips p f short = elim (Option-cases (Dict.lookup str_dec p.customer_id f.accounts)) [
  | inl e ↦ rw (e, debit_row) refl
  | inr (a, e) ↦ let l = short a (rw (e, account) refl) in rw (e, debit_row, l) refl
]

debit_one-updates :
    (p : Payment) (t : ℕ) (s s' : World) (n : ℕ) (a : Account)
    → debit_one p.amount_minor p.customer_id t s ≡ (s', ok n)
    → account p.customer_id (drafted s) ≡ ok a
    → Int64.lt a.balance_minor p.amount_minor ≡ false
    → ((n == 0) ≡ false) × (drafted s' ≡ updated p a (drafted s))
debit_one-updates p t (f, none) s' n a e k l = absurd cc
debit_one-updates p t (f, some d) s' n a e k l =
    let row = debit_row-updates p d a k l in
    let same : (f, some (updated p a d)) ≡ s' = cc in
    let one : 1 ≡ n = cc in
    (subst (λ m. (m == 0) ≡ false) one refl, subst (λ w. drafted w ≡ updated p a d) same refl)

debit_one-skips :
    (p : Payment) (t : ℕ) (s s' : World) (n : ℕ)
    → debit_one p.amount_minor p.customer_id t s ≡ (s', ok n)
    → ((a : Account)
        → account p.customer_id (drafted s) ≡ ok a
        → Int64.lt a.balance_minor p.amount_minor ≡ true)
    → (n == 0) ≡ true
debit_one-skips p t (f, none) s' n e short = absurd cc
debit_one-skips p t (f, some d) s' n e short =
    let row = debit_row-skips p d short in
    let zero_rows : 0 ≡ n = cc in subst (λ m. (m == 0) ≡ true) zero_rows refl

insert_one-inserts :
    (p : Payment) (t : ℕ) (s s' : World) (id status : String)
    → insert_one p t s ≡ (s', ok (id, status))
    → (status ≡ "charged") × (drafted s' ≡ appended (charged_as p id) (drafted s))
insert_one-inserts p t (f, none) s' id status e = absurd cc
insert_one-inserts p t (f, some d) s' id status e =
    let same : (f, some (appended (charged_as p "1") d)) ≡ s' = cc in
    let first_id : "1" ≡ id = cc in
    (
      cc,
      subst (λ w. drafted w ≡ appended (charged_as p id) d) same
          (subst (λ i. appended (charged_as p "1") d ≡ appended (charged_as p i) d) first_id refl),
    )

single-IsCharging : IsCharging single seen
single-IsCharging = record {
  debits = λ p. debit_one-IsConfined p.amount_minor p.customer_id;
  updates = debit_one-updates;
  skips = debit_one-skips;
  adds = insert_one-IsConfined;
  inserts = insert_one-inserts;
}

-- a function that debits, and then panics
abbrev debit_and_panic : ℕ → World → World × Body ℕ
debit_and_panic t w = ((debit_one 30 "ann" t w).0, panicked)

abbrev quiet : World
quiet = (opened, none)

within_tx_decides_example :
    AllOrNothing single seen debit_and_panic quiet (within_tx single debit_and_panic quiet)
within_tx_decides_example =
    within_tx_decides single seen single-IsTransactional debit_and_panic
      (debit_one-IsConfined 30 "ann") quiet

abbrev paid : Payment
paid = charged_as (payment 30) "1"

charge_of_thirty : (pg_charge single (payment 30) quiet).1 ≡ done (ok paid)
unfolding pg_charge within_tx run_tx charge_body debited inserted end_tx committed Dict.lookup
    str_dec
charge_of_thirty = refl

pg_charge_refines_example : Comparison seen (payment 30) quiet (pg_charge single (payment 30) quiet)
pg_charge_refines_example =
    pg_charge_refines single seen single-IsTransactional single-IsCharging (payment 30) quiet
