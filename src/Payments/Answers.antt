-- ===== src/Payments/Answers.antt =====
-- What `create` and `cancel` of the transport answer over the MemoryStore.
use Prim.Native.String.{◌++◌ as ◌+++◌}
use go_handbook_for_software.Base.{
  ℕ, ◌+◌, ◌≡◌, ◌≢◌, refl, sym, ap, ◌∙◌, List, [], ◌∷◌, str_dec, Option, none, some, String,
  Option-cases, inl, inr,
}
use go_handbook_for_software.Base.Dict
use go_handbook_for_software.Http.{
  Ran, respond, no_response, write_error, write_mapped, write_json, set_header, http_error,
  write_header,
}
use go_handbook_for_software.Payments.{
  Payment, charged, canceled, Violation, ChargeInput, MemoryStore, memory_store, Error, not_found,
  forbidden, not_cancelable, validate, charge_service, cancel_service, requested, charge,
}
use go_handbook_for_software.Payments.Store.{stored}
use go_handbook_for_software.Payments.Authz.{cancel_service_decides}
use go_handbook_for_software.Payments.Transport.{
  Identity, Request, Wire, customer, answer, map_error, create, created, cancel, cancelled,
  to_response,
}

canceled≢charged : canceled ≢ charged
canceled≢charged e = cc

module _ (pay_id : ℕ → String) (wire : Wire) (now : ℕ) where
  abbrev pub post_cancel_run : Request → MemoryStore → Ran MemoryStore
  post_cancel_run r m = cancel (memory_store pay_id) wire now r m

  abbrev pub post_create_run : Request → MemoryStore → Ran MemoryStore
  post_create_run r m = create (memory_store pay_id) wire now r m

  module _ (r : Request) (i : Identity) (known : r.identity ≡ some i) (m : MemoryStore) where
    through_service :
        post_cancel_run r m
        ≡ cancelled
            (memory_store pay_id)
            wire
            now
            (cancel_service (memory_store pay_id) (customer i) r.path_id m)
    unfolding cancel
    through_service = rw (known, cancel) refl

    answer-of :
        (m' : MemoryStore) (e : Option Error)
        → cancel_service (memory_store pay_id) (customer i) r.path_id m ≡ (m', e)
        → post_cancel_run r m ≡ cancelled (memory_store pay_id) wire now (m', e)
    answer-of m' e q = through_service ∙ ap (cancelled (memory_store pay_id) wire now) q

    abbrev not_found_answer : Ran MemoryStore
    not_found_answer = answer m (http_error "payment not found" 404, [])

    missing : stored r.path_id m ≡ none → post_cancel_run r m ≡ not_found_answer
    unfolding cancelled map_error write_error write_mapped
    missing e =
        answer-of m (some not_found) ((cancel_service_decides pay_id (customer i) r.path_id m).0 e)

    others :
        (p : Payment)
        → stored r.path_id m ≡ some p
        → p.customer_id ≢ (customer i).id
        → post_cancel_run r m ≡ not_found_answer
    unfolding cancelled map_error write_error write_mapped
    others p e n =
        answer-of m (some forbidden)
          (((cancel_service_decides pay_id (customer i) r.path_id m).1 p e).0 n)

    own_settled :
        (p : Payment)
        → stored r.path_id m ≡ some p
        → p.customer_id ≡ (customer i).id
        → p.status ≢ charged
        → post_cancel_run r m ≡ answer m (http_error "payment not cancelable" 409, [])
    unfolding cancelled map_error write_error write_mapped
    own_settled p e o n =
        answer-of m (some not_cancelable)
          (((cancel_service_decides pay_id (customer i) r.path_id m).1 p e).1 o n)

    own_charged :
        (p : Payment)
        → stored r.path_id m ≡ some p
        → p.customer_id ≡ (customer i).id
        → p.status ≡ charged
        → let m' = (post_cancel_run r m).state in
          (post_cancel_run r m ≡ answer m' (write_header 204 ∷ [], []))
          × (stored r.path_id m' ≡ some (record p { status = canceled }))
          × ((q : String) → q ≢ r.path_id → stored q m' ≡ stored q m)
    unfolding cancelled cancel
    own_charged p e o c =
        let m' = (cancel_service (memory_store pay_id) (customer i) r.path_id m).0 in
        let (done, now_canceled, rest, _) =
          ((cancel_service_decides pay_id (customer i) r.path_id m).1 p e).2 o c in
        let ran : post_cancel_run r m ≡ answer m' (write_header 204 ∷ [], []) =
          answer-of m' none (ap (λ e'. (m', e')) done) in
        let same : (post_cancel_run r m).state ≡ m' = ap (λ (x : Ran MemoryStore). x.state) ran in
        rw (same) (ran, now_canceled, rest)

  -- `POST /payments/{id}/cancel` does not tell another customer's payment from one that does not
  -- exist: on a store where the id is missing and on one where it is another's, the calls on the
  -- writer and the log lines are the same, and both stores stay.
  pub cancel_hides :
      (r : Request) (i : Identity) (m m' : MemoryStore) (p : Payment)
      → r.identity ≡ some i
      → stored r.path_id m ≡ none
      → stored r.path_id m' ≡ some p
      → p.customer_id ≢ (customer i).id
      → ((post_cancel_run r m).events ≡ (post_cancel_run r m').events)
        × ((post_cancel_run r m).logs ≡ (post_cancel_run r m').logs)
        × ((post_cancel_run r m).state ≡ m)
        × ((post_cancel_run r m').state ≡ m')
  cancel_hides r i m m' p known none_there there other =
      let a = missing r i known m none_there in
      let b = others r i known m' p there other in
      (
        ap (λ (x : Ran MemoryStore). x.events) a ∙ sym (ap (λ (x : Ran MemoryStore). x.events) b),
        ap (λ (x : Ran MemoryStore). x.logs) a ∙ sym (ap (λ (x : Ran MemoryStore). x.logs) b),
        ap (λ (x : Ran MemoryStore). x.state) a,
        ap (λ (x : Ran MemoryStore). x.state) b,
      )

  -- the status that the client gets
  abbrev pub status_sent : Ran MemoryStore → Option ℕ
  status_sent ran = (respond ran.events no_response).status

  located :
      (place : String) (p : Payment)
      → let sent =
          respond
            (set_header "Location" place ∷ write_json wire.encode 201 (to_response p))
            no_response in
        (sent.status ≡ some 201) × (Dict.lookup str_dec "Location" sent.headers ≡ some place)
  unfolding write_json Dict.lookup Dict.insert str_dec
  located place p = elim (Option-cases (wire.encode (to_response p))) [
    | inl e ↦ rw e (refl, refl)
    | inr (text, e) ↦ rw e (refl, refl)
  ]

  module _ (r : Request) (input : ChargeInput) (m : MemoryStore)
      (d : wire.decode r.body ≡ some input) where
    abbrev new_payment : Payment
    new_payment = record (requested now input) { id = pay_id (m.seq + 1) }

    abbrev after : MemoryStore
    after = (charge pay_id (requested now input) m).0

    accepted :
        validate wire.trim_space wire.to_upper input ≡ []
        → post_create_run r m
          ≡ answer after (
            set_header "Location" ("/payments/" +++ pay_id (m.seq + 1))
                ∷ write_json wire.encode 201 (to_response new_payment),
            [],
          )
    unfolding create created charge_service charge
    accepted v = rw (d, create) (rw (v, charge_service) refl)

    rejected :
        (w : Violation) (ws : List Violation)
        → validate wire.trim_space wire.to_upper input ≡ w ∷ ws
        → post_create_run r m ≡ answer m (http_error (wire.message (w ∷ ws)) 422, [])
    unfolding create created charge_service map_error write_error write_mapped
    rejected w ws v = rw (d, create) (rw (v, charge_service) refl)

  -- `POST /payments` on the MemoryStore. A body that does not decode is answered with 400, one whose
  -- input breaks a rule with 422, and in both cases the store stays. Any other is answered with 201
  -- and a Location, and the charged payment is then stored under the id that the Location names.
  pub create_answers :
      (r : Request) (m : MemoryStore)
      → (wire.decode r.body ≡ none
          → (status_sent (post_create_run r m) ≡ some 400) × ((post_create_run r m).state ≡ m))
        × ((input : ChargeInput)
            → wire.decode r.body ≡ some input
            → ((w : Violation) (ws : List Violation)
                → validate wire.trim_space wire.to_upper input ≡ w ∷ ws
                → (status_sent (post_create_run r m) ≡ some 422)
                  × ((post_create_run r m).state ≡ m))
              × (validate wire.trim_space wire.to_upper input ≡ []
                  → let ran = post_create_run r m in
                    let id = pay_id (m.seq + 1) in
                    (status_sent ran ≡ some 201)
                    × (Dict.lookup str_dec "Location" (respond ran.events no_response).headers
                        ≡ some ("/payments/" +++ id))
                    × (stored id ran.state ≡ some (record (requested now input) { id = id }))))
  unfolding create charge
  create_answers r m = (
    λ d. rw (d, create) (refl, refl),
    λ input d. (
      λ w ws v. rw (rejected r input m d w ws v) (refl, refl),
      λ v.
          let id = pay_id (m.seq + 1) in
          let p = new_payment r input m d in
          let (status, place) = located ("/payments/" +++ id) p in
          let ran = accepted r input m d v in
          (
            ap status_sent ran ∙ status,
            ap
                  (λ (x : Ran MemoryStore).
                    Dict.lookup str_dec "Location" (respond x.events no_response).headers)
                  ran
                ∙ place,
            ap (λ (x : Ran MemoryStore). stored id x.state) ran
                ∙ Dict.lookup-insert_self str_dec id p m.payments,
          ),
    ),
  )

  -- A payment that `POST /payments` has made can be canceled by its customer, once: with an identity
  -- of that customer the first cancel of its id is answered with 204 and leaves it canceled, and the
  -- second with 409 and the store as it is.
  pub create_then_cancel :
      (r r' : Request) (input : ChargeInput) (i : Identity) (m : MemoryStore)
      → wire.decode r.body ≡ some input
      → validate wire.trim_space wire.to_upper input ≡ []
      → r'.identity ≡ some i
      → r'.path_id ≡ pay_id (m.seq + 1)
      → input.customer_id ≡ (customer i).id
      → let m₁ = (post_create_run r m).state in
        let first = post_cancel_run r' m₁ in
        let second = post_cancel_run r' first.state in
        (status_sent first ≡ some 204)
        × (stored r'.path_id first.state
            ≡ some (record (requested now input) { id = pay_id (m.seq + 1); status = canceled }))
        × (status_sent second ≡ some 409)
        × (second.state ≡ first.state)
  create_then_cancel r r' input i m d v known path owner =
      let m₁ = (post_create_run r m).state in
      let p : Payment = record (requested now input) { id = pay_id (m.seq + 1) } in
      let (_, _, there) = ((create_answers r m).1 input d).1 v in
      let at : stored r'.path_id m₁ ≡ some p = ap (λ q. stored q m₁) path ∙ there in
      let (ran, now_canceled, _) = own_charged r' i known m₁ p at owner refl in
      let m₂ = (post_cancel_run r' m₁).state in
      let again =
        own_settled r' i known m₂ (record p { status = canceled }) now_canceled owner
          canceled≢charged in
      (
        ap status_sent ran,
        now_canceled,
        ap status_sent again,
        ap (λ (x : Ran MemoryStore). x.state) again,
      )
