-- ===== src/Telemetry/Finals.antt =====
-- Every status that the payment routes write is a final one.
use go_handbook_for_software.Base.{
  ℕ, ◌≡◌, refl, true, false, [], ◌∷◌, Option, none, some, String, Result, ok, err, All, All-append,
  arith, Bool-cases, Option-cases, inl, inr, ◌⊎◌, sym, subst, ◌==◌, str_dec,
}
use go_handbook_for_software.Http.{
  write, Handler, Ran, http_error, write_json, write_error, write_mapped, recover, request_id,
  status_of, is_final,
}
use go_handbook_for_software.Http.Status.{IsFinal}
use go_handbook_for_software.Payments.{
  Error, insufficient_funds, not_found, forbidden, not_cancelable, invalid, other, Payment,
  ChargeInput, PaymentStore, charge_service, cancel_service,
}
use text.Mathlib.Text.{starts_with}
use go_handbook_for_software.Payments.Transport.{
  answer, Identity, Request, Wire, Pattern, livez, readyz, post_payments, post_cancel, map_error,
  created, create, cancelled, cancel, customer, handler_of, require_kind, health, serve_mux,
  authenticate, attach, routes, to_response, identify, trim_prefix, bearer,
}
use go_handbook_for_software.Payments.Gate.{routes-order}

IsFinal-http_error :
    (msg : String) (code : ℕ) → is_final code ≡ true → All IsFinal (http_error msg code)
IsFinal-http_error msg code e = (tt, (tt, (e, (tt, tt))))

module _ {S : Type 0} where
  abbrev pub Finals : Ran S → Type 0
  Finals ran = All IsFinal ran.events

  Finals-recover :
      (next : Handler Request S) (r : Request) (s : S)
      → Finals (next r s)
      → Finals (recover next r s) × ((recover next r s).panicked ≡ false)
  unfolding recover
  Finals-recover next r s f = elim (Bool-cases (next r s).panicked) [
    | inr e ↦ rw e (f, refl)
    | inl e ↦ rw e (elim (Bool-cases (status_of (next r s).events 0 == 0)) [
      | inl z ↦ rw z (
        All-append IsFinal (next r s).events (http_error "internal error" 500) f
            (IsFinal-http_error "internal error" 500 refl),
        refl,
      )
      | inr z ↦ rw z (All-append IsFinal (next r s).events [] f tt, refl)
    ])
  ]

  require_kind-cases :
      (kind : String) (next : Handler Request S) (r : Request) (s : S)
      → (require_kind kind next r s ≡ next r s)
        ⊎ (require_kind kind next r s ≡ answer s (http_error "forbidden" 403, []))
  unfolding require_kind
  require_kind-cases kind next r s = elim (Option-cases r.identity) [
    | inl e ↦ inr (ground (arith, e))
    | inr (i, e) ↦ elim (str_dec i.kind kind) [
      | yes p ↦ inl (ground (arith, e, p))
      | no n ↦ inr (ground (arith, e, n))
    ]
  ]

  Finals-require_kind :
      (kind : String) (next : Handler Request S) (r : Request) (s : S)
      → Finals (next r s)
      → Finals (require_kind kind next r s)
  Finals-require_kind kind next r s f = elim (require_kind-cases kind next r s) [
    | inl e ↦ subst Finals (sym e) f
    | inr e ↦ subst Finals (sym e) (IsFinal-http_error "forbidden" 403 refl)
  ]

  Finals-attach :
      (next : Handler Request S) (id : Option Identity) (r : Request) (s : S)
      → ((q : Request) → Finals (next q s))
      → Finals (attach next id r s)
  unfolding attach
  Finals-attach next none r s f = (tt, IsFinal-http_error "unauthorized" 401 refl)
  Finals-attach next (some i) r s f = f (record r { identity = some i })

  Finals-authenticate :
      (next : Handler Request S) (r : Request) (s : S)
      → ((q : Request) → Finals (next q s))
      → Finals (authenticate next r s)
  unfolding authenticate
  Finals-authenticate next r s f = elim (Bool-cases (starts_with r.authorization bearer)) [
    | inl e ↦ rw e (Finals-attach next (identify (trim_prefix r.authorization bearer)) r s f)
    | inr e ↦ rw e (tt, IsFinal-http_error "unauthorized" 401 refl)
  ]

module _ {S : Type 0} (store : PaymentStore S) (wire : Wire) (now : ℕ) where
  Finals-mapped : (e : Error) → All IsFinal (write_error (some (map_error store wire now)) e).0
  unfolding write_error write_mapped map_error
  Finals-mapped not_found = IsFinal-http_error "payment not found" 404 refl
  Finals-mapped forbidden = IsFinal-http_error "payment not found" 404 refl
  Finals-mapped insufficient_funds = IsFinal-http_error "insufficient funds" 422 refl
  Finals-mapped not_cancelable = IsFinal-http_error "payment not cancelable" 409 refl
  Finals-mapped (invalid vs) = IsFinal-http_error (wire.message vs) 422 refl
  Finals-mapped (other text) = IsFinal-http_error "internal error" 500 refl

  Finals-text :
      (t : Option String) → All IsFinal (elim t [ none ↦ [] | some text ↦ write text ∷ [] ])
  Finals-text none = tt
  Finals-text (some text) = (tt, tt)

  Finals-created : (a : S × Result Error Payment) → Finals (created store wire now a)
  unfolding created write_json
  Finals-created (s, err e) = Finals-mapped e
  Finals-created (s, ok p) = (tt, (tt, (refl, Finals-text (wire.encode (to_response p)))))

  Finals-create :
      (r : Request) (s : S) (input : Option ChargeInput)
      → wire.decode r.body ≡ input
      → Finals (create store wire now r s)
  unfolding create
  Finals-create r s none e = rw (e, create) (IsFinal-http_error "invalid request body" 400 refl)
  Finals-create r s (some input) e =
      rw (e, create)
        (Finals-created (charge_service store wire.trim_space wire.to_upper now input s))

  Finals-cancelled : (a : S × Option Error) → Finals (cancelled store wire now a)
  unfolding cancelled
  Finals-cancelled (s, some e) = Finals-mapped e
  Finals-cancelled (s, none) = (refl, tt)

  Finals-cancel : (r : Request) (s : S) → Finals (cancel store wire now r s)
  unfolding cancel
  Finals-cancel r s = elim (Option-cases r.identity) [
    | inl e ↦
        let known : cancel store wire now r s ≡ answer s (http_error "unauthorized" 401, []) =
          ground (arith, e) in
        subst Finals (sym known) (IsFinal-http_error "unauthorized" 401 refl)
    | inr (i, e) ↦
        let a = cancel_service store (customer i) r.path_id s in
        let known : cancel store wire now r s ≡ cancelled store wire now a = ground (arith, e) in
        subst Finals (sym known) (Finals-cancelled a)
  ]

  Finals-handler_of : (p : Pattern) (r : Request) (s : S) → Finals (handler_of store wire now p r s)
  unfolding handler_of health
  Finals-handler_of livez r s = (refl, (tt, tt))
  Finals-handler_of readyz r s = (refl, (tt, tt))
  Finals-handler_of post_payments r s =
      Finals-require_kind "user" (create store wire now) r s
        (Finals-create r s (wire.decode r.body) refl)
  Finals-handler_of post_cancel r s =
      Finals-require_kind "user" (cancel store wire now) r s (Finals-cancel r s)

  Finals-serve_mux :
      ((r : Request) → All IsFinal (wire.unmatched r))
      → (r : Request) (s : S) → Finals (serve_mux store wire now r s)
  unfolding serve_mux
  Finals-serve_mux h r s = elim (Option-cases (wire.mux r)) [
    | inl e ↦ rw (e, serve_mux) (h r)
    | inr ((p, id), e) ↦ rw (e, serve_mux) (Finals-handler_of p (record r { path_id = id }) s)
  ]

  -- Where the mux answers unmatched requests with final statuses, the payment routes write final
  -- statuses only, and no panic passes them.
  pub Finals-routes :
      ((r : Request) → All IsFinal (wire.unmatched r))
      → (id : String) (r : Request) (s : S)
      → Finals (routes store wire now id r s) × ((routes store wire now id r s).panicked ≡ false)
  unfolding request_id
  Finals-routes h id r s = rw (routes-order store wire now id) (
      Finals-recover (request_id id (authenticate (serve_mux store wire now))) r s
        (tt, Finals-authenticate (serve_mux store wire now) r s (λ q. Finals-serve_mux h q s)))
