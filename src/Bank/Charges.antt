-- ===== src/Bank/Charges.antt =====
-- `FakeStore.Charge`, one call and a sequence of calls.
use go_handbook_for_software.Base.{
  ℕ, ◌+◌, ◌%◌, ◌^◌, ◌≤◌, ◌<◌, ◌≡◌, ◌≢◌, refl, ap, sym, ◌∙◌, true, false, List, [], ◌∷◌, ◌++◌, ite,
  str_dec, none, some, String, arith, Result, ok, err, Option-cases, Bool-cases, inl, inr, if_pos,
  if_neg,
}
use go_handbook_for_software.Base.Int64
use go_handbook_for_software.Base.Dict
use go_handbook_for_software.Bank.{
  Error, not_found, insufficient_funds, Payment, Account, FakeStore, debit, charge, account,
}

-- What a successful `Charge` does.
pub record IsCharged (f f' : FakeStore) (a : Account) (p p' : Payment) : Type 0 where
  pub same : (p'.customer_id ≡ p.customer_id) × (p'.amount_minor ≡ p.amount_minor)
  pub debited :
      account p.customer_id f'
      ≡ ok (record a { balance_minor = Int64.sub a.balance_minor p.amount_minor })
  pub others : (q : String) → q ≢ p.customer_id → account q f' ≡ account q f
  pub recorded : f'.payments ≡ f.payments ++ p' ∷ []

-- the amounts that a customer has been charged, before any reduction
unfoldable pub spent : String → List Payment → ℕ
spent q [] = 0
spent q (p ∷ ps) = ite (str_dec p.customer_id q) p.amount_minor 0 + spent q ps

spent_last :
    (q : String) (ps : List Payment) (p : Payment)
    → spent q (ps ++ p ∷ []) ≡ spent q ps + ite (str_dec p.customer_id q) p.amount_minor 0
unfolding spent
spent_last q [] p = omega arith
spent_last q (x ∷ ps) p = omega (arith, spent_last q ps p)

-- `q` has an account, and its balance with all that it was charged makes up `sum`
pub record Adds (q : String) (sum : ℕ) (f : FakeStore) : Type 0 where
  pub holder : Account
  pub known : account q f ≡ ok holder
  pub adds : (holder.balance_minor + spent q f.payments) % 2 ^ 64 ≡ sum % 2 ^ 64

module _ (pay_id : ℕ → String) where
  abbrev pub paid : Payment → FakeStore → Payment
  paid p f = record p { id = pay_id (f.seq + 1); status = "charged" }

  debit-IsCharged :
      (p : Payment) (a : Account) (f : FakeStore)
      → Int64.lt a.balance_minor p.amount_minor ≡ false
      → (IsCharged f (debit pay_id p a f).0 a p (paid p f))
        × ((debit pay_id p a f).1 ≡ ok (paid p f))
  unfolding debit account
  debit-IsCharged p a f l =
      let a' : Account = record a { balance_minor = Int64.sub a.balance_minor p.amount_minor } in
      rw (l, debit)
        (
          record {
            same = (refl, refl);
            debited = rw (Dict.lookup-insert_self str_dec p.customer_id a' f.accounts, account);
            others = λ q n. ground (
              arith,
              Dict.lookup-insert str_dec p.customer_id q a' f.accounts,
              λ (e : p.customer_id ≡ q). n (sym e),
            );
            recorded = refl;
          },
          refl,
        )

  account_inv :
      (q : String) (f : FakeStore) (a : Account)
      → account q f ≡ ok a
      → Dict.lookup str_dec q f.accounts ≡ some a
  unfolding account
  account_inv q f a h = ground arith

  account-none :
      (p : Payment) (f : FakeStore)
      → Dict.lookup str_dec p.customer_id f.accounts ≡ none
      → account p.customer_id f ≡ err not_found
  unfolding account
  account-none p f e = ground (arith, e)

  account-some :
      (p : Payment) (f : FakeStore) (a : Account)
      → Dict.lookup str_dec p.customer_id f.accounts ≡ some a
      → account p.customer_id f ≡ ok a
  unfolding account
  account-some p f a e = ground (arith, e)

  unknown :
      (p : Payment) (f : FakeStore)
      → account p.customer_id f ≡ err not_found
      → charge pay_id p f ≡ (f, err not_found)
  unfolding account charge
  unknown p f h = ground arith

  poor :
      (p : Payment) (a : Account) (f : FakeStore)
      → Int64.lt a.balance_minor p.amount_minor ≡ true
      → debit pay_id p a f ≡ (f, err insufficient_funds)
  unfolding debit
  poor p a f l = rw (l, debit)

  -- `Charge` is decided by the account. An unknown customer and a balance below the amount (as signed
  -- numbers) are refused, and the store is as it was. Otherwise the customer's balance falls by the
  -- amount, every other account is as it was, and the payment is recorded last, with the next id.
  pub charge_decides :
      (p : Payment) (f : FakeStore)
      → (account p.customer_id f ≡ err not_found → charge pay_id p f ≡ (f, err not_found))
        × ((a : Account)
            → account p.customer_id f ≡ ok a
            → (Int64.lt a.balance_minor p.amount_minor ≡ true
                → charge pay_id p f ≡ (f, err insufficient_funds))
              × (Int64.lt a.balance_minor p.amount_minor ≡ false
                  → (IsCharged f (charge pay_id p f).0 a p (paid p f))
                    × ((charge pay_id p f).1 ≡ ok (paid p f))))
  unfolding charge
  charge_decides p f = (
    λ h. unknown p f h,
    λ a h.
        let e = account_inv p.customer_id f a h in
        (λ l. rw (e, charge) (poor p a f l), λ l. rw (e, charge) (debit-IsCharged p a f l)),
  )

  charged-Adds :
      (p : Payment) (a : Account) (f : FakeStore) (q : String) (sum : ℕ)
      → account p.customer_id f ≡ ok a
      → IsCharged f (charge pay_id p f).0 a p (paid p f)
      → Adds q sum f
      → Adds q sum (charge pay_id p f).0
  charged-Adds p a f q sum k c h = elim (str_dec p.customer_id q) [
    | yes e ↦
        let same : ok a ≡ ok h.holder = sym k ∙ ap (λ x. account x f) e ∙ h.known in
        let b : a ≡ h.holder = cc in
        record {
          holder = record a { balance_minor = Int64.sub a.balance_minor p.amount_minor };
          known = ap (λ x. account x (charge pay_id p f).0) (sym e) ∙ c.debited;
          adds = omega (
            arith,
            h.adds,
            ap (λ (x : Account). x.balance_minor) b,
            ap (spent q) c.recorded,
            spent_last q f.payments (paid p f),
            if_pos (str_dec p.customer_id q) e p.amount_minor 0,
          );
        }
    | no n ↦ record {
      holder = h.holder;
      known = c.others q (λ e. n (sym e)) ∙ h.known;
      adds = omega (
        arith,
        h.adds,
        ap (spent q) c.recorded,
        spent_last q f.payments (paid p f),
        if_neg (str_dec p.customer_id q) n p.amount_minor 0,
      );
    }
  ]

  charge-Adds :
      (p : Payment) (f : FakeStore) (q : String) (sum : ℕ)
      → Adds q sum f
      → Adds q sum (charge pay_id p f).0
  charge-Adds p f q sum h = elim (Option-cases (Dict.lookup str_dec p.customer_id f.accounts)) [
    | inl n ↦ rw ((charge_decides p f).0 (account-none p f n)) h
    | inr (a, e) ↦
        let k = account-some p f a e in
        elim (Bool-cases (Int64.lt a.balance_minor p.amount_minor)) [
          | inl l ↦ rw (((charge_decides p f).1 a k).0 l) h
          | inr l ↦ charged-Adds p a f q sum k ((((charge_decides p f).1 a k).1 l).0) h
        ]
  ]

  -- the store after the charges of a client, the refused ones among them
  unfoldable pub run : List Payment → FakeStore → FakeStore
  run [] f = f
  run (p ∷ ps) f = run ps (charge pay_id p f).0

  -- Over any sequence of charges, accepted or refused, an account's balance together with all the
  -- amounts that were recorded against it stays the same, modulo 2 ^ 64.
  pub run-Adds :
      (ps : List Payment) (f : FakeStore) (q : String) (sum : ℕ)
      → Adds q sum f
      → Adds q sum (run ps f)
  unfolding run
  run-Adds [] f q sum h = h
  run-Adds (p ∷ ps) f q sum h = run-Adds ps (charge pay_id p f).0 q sum (charge-Adds p f q sum h)

  -- A charge of an amount from 0 on never overdraws: a balance from 0 on stays so, and does not grow.
  pub charge-IsNonneg :
      (p : Payment) (f : FakeStore) (a : Account)
      → account p.customer_id f ≡ ok a
      → Int64.IsNonneg a.balance_minor
      → Int64.IsNonneg p.amount_minor
      → (a' : Account) → account p.customer_id (charge pay_id p f).0 ≡ ok a'
      → Int64.IsNonneg a'.balance_minor × (a'.balance_minor ≤ a.balance_minor)
  charge-IsNonneg p f a k b n a' k' = elim (Bool-cases (Int64.lt a.balance_minor p.amount_minor)) [
    | inl l ↦
        let same : ok a ≡ ok a' =
          sym k
          ∙ ap (λ (r : FakeStore × Result Error Payment). account p.customer_id r.0)
              (sym (((charge_decides p f).1 a k).0 l))
          ∙ k' in
        let e : a ≡ a' = cc in omega (arith, ap (λ (x : Account). x.balance_minor) e)
    | inr l ↦
        let c = (((charge_decides p f).1 a k).1 l).0 in
        let same = sym c.debited ∙ k' in
        let e : record a { balance_minor = Int64.sub a.balance_minor p.amount_minor } ≡ a' = cc in
        ground (arith, l, ap (λ (x : Account). x.balance_minor) e)
  ]

  -- A negative amount is no charge but a credit: it is accepted at any balance from 0 on, and where
  -- the sum stays below 2 ^ 63 the balance grows by the amount's absolute value.
  pub negative_amount-credits :
      (p : Payment) (f : FakeStore) (a : Account) (n : ℕ)
      → account p.customer_id f ≡ ok a
      → 0 < n
      → a.balance_minor + n < 2 ^ 63
      → p.amount_minor ≡ Int64.neg n
      → account p.customer_id (charge pay_id p f).0
        ≡ ok (record a { balance_minor = a.balance_minor + n })
  negative_amount-credits p f a n k pos room e =
      let l : Int64.lt a.balance_minor p.amount_minor ≡ false = ground arith in
      let c = (((charge_decides p f).1 a k).1 l).0 in
      c.debited
      ∙ ap (λ b. ok (record a { balance_minor = b }))
          (let eq : Int64.sub a.balance_minor p.amount_minor ≡ a.balance_minor + n = omega arith in
            eq)
