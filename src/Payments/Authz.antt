-- ===== src/Payments/Authz.antt =====
-- `Service.Cancel` over the MemoryStore.
use go_handbook_for_software.Base.{
  ℕ, ◌≡◌, ◌≢◌, refl, sym, ◌∙◌, str_dec, Option, none, some, String, arith, if_pos, if_neg,
}
use go_handbook_for_software.Base.Dict
use go_handbook_for_software.Payments.{
  Payment, MemoryStore, charged, canceled, Customer, by_id, cancel, Error, not_found, forbidden,
  not_cancelable, memory_store, cancel_service, cancel_read, is_charged,
}
use go_handbook_for_software.Payments.Store.{stored}

canceled-ne-charged : canceled ≢ charged
canceled-ne-charged e = cc

module _ (pay_id : ℕ → String) (actor : Customer) (id : String) (m : MemoryStore) where
  abbrev pub run : MemoryStore → MemoryStore × Option Error
  run = cancel_service (memory_store pay_id) actor id

  run-missing : stored id m ≡ none → run m ≡ (m, some not_found)
  unfolding cancel_service by_id
  run-missing e = ground (arith, e)

  run-read :
      (p : Payment) → stored id m ≡ some p → run m ≡ cancel_read (memory_store pay_id) actor id p m
  unfolding cancel_service by_id
  run-read p e = ground (arith, e)

  refused_other :
      (p : Payment)
      → p.customer_id ≢ actor.id
      → cancel_read (memory_store pay_id) actor id p m ≡ (m, some forbidden)
  unfolding cancel_read
  refused_other p n = rw (if_neg (str_dec p.customer_id actor.id) n)

  refused_state :
      (p : Payment)
      → p.customer_id ≡ actor.id
      → p.status ≢ charged
      → cancel_read (memory_store pay_id) actor id p m ≡ (m, some not_cancelable)
  unfolding cancel_read is_charged
  refused_state p e n = rw (if_pos (str_dec p.customer_id actor.id) e) (ground arith)

  abbrev canceled_store : Payment → MemoryStore
  canceled_store p = record m {
    payments = Dict.insert str_dec id (record p { status = canceled }) m.payments;
  }

  accepted :
      (p : Payment)
      → stored id m ≡ some p
      → p.customer_id ≡ actor.id
      → p.status ≡ charged
      → run m ≡ (canceled_store p, none)
  unfolding cancel_read is_charged cancel
  accepted p s e c = run-read p s ∙ ground (arith, s, e, c)

  stored-canceled :
      (p : Payment) → stored id (canceled_store p) ≡ some (record p { status = canceled })
  stored-canceled p = Dict.lookup-insert_self str_dec id (record p { status = canceled }) m.payments

module _ (pay_id : ℕ → String) (actor : Customer) (id : String) (m : MemoryStore) where
  -- `Cancel` of a payment id by an actor.
  -- An id that is not stored is not found, another customer's payment is forbidden, and a payment that
  -- is not in the state charged is not cancelable; in these cases the store is as it was. The owner's
  -- charged payment becomes canceled, every other payment is as it was, and a second cancel of it
  -- is refused as not cancelable.
  pub cancel_service_decides :
      let go = cancel_service (memory_store pay_id) actor id in
      (stored id m ≡ none → go m ≡ (m, some not_found))
      × ((p : Payment)
          → stored id m ≡ some p
          → (p.customer_id ≢ actor.id → go m ≡ (m, some forbidden))
            × (p.customer_id ≡ actor.id → p.status ≢ charged → go m ≡ (m, some not_cancelable))
            × (p.customer_id ≡ actor.id
                → p.status ≡ charged
                → let m' = (go m).0 in
                  ((go m).1 ≡ none)
                  × (stored id m' ≡ some (record p { status = canceled }))
                  × ((q : String) → q ≢ id → stored q m' ≡ stored q m)
                  × (go m' ≡ (m', some not_cancelable))))
  cancel_service_decides = (
    run-missing pay_id actor id m,
    λ p s. (
      λ n. run-read pay_id actor id m p s ∙ refused_other pay_id actor id m p n,
      λ e n. run-read pay_id actor id m p s ∙ refused_state pay_id actor id m p e n,
      λ e c.
          let m' = canceled_store pay_id actor id m p in
          let p' : Payment = record p { status = canceled } in
          let now = stored-canceled pay_id actor id m p in
          let again : run pay_id actor id m m' ≡ (m', some not_cancelable) =
            run-read pay_id actor id m' p' now
            ∙ refused_state pay_id actor id m' p' e canceled-ne-charged in
          rw (accepted pay_id actor id m p s e c) (
            refl,
            now,
            λ q n.
                Dict.lookup-insert str_dec id q p' m.payments
                ∙ rw (if_neg (str_dec id q) (λ k. n (sym k))),
            again,
          ),
    ),
  )
