-- ===== src/Payments/Gate.antt =====
-- Who gets past `authenticate` and `requireKind` in the chain of `Routes`.
use go_handbook_for_software.Base.{
  ℕ, ◌≡◌, ◌≢◌, refl, ap, ◌∙◌, [], ◌∷◌, Option, none, some, String, if◌then◌else◌, Bool-cases,
  Option-cases, inl, inr, arith,
}
use text.Mathlib.Text.{starts_with}
use go_handbook_for_software.Http.{Handler, Ran, recover, request_id, respond, no_response}
use go_handbook_for_software.Http.Chains.{chain_wraps}
use go_handbook_for_software.Payments.{PaymentStore}
use go_handbook_for_software.Payments.Transport.{
  Identity, Request, livez, readyz, post_payments, post_cancel, Wire, trim_prefix, identify, bearer,
  attach, authenticate, require_kind, health, create, cancel, handler_of, serve_mux, routes,
}

-- the identity that the token of a request tells, if any
unfoldable pub caller : Request → Option Identity
caller r =
    if starts_with r.authorization bearer
    then identify (trim_prefix r.authorization bearer)
    else none

-- the request with what `authenticate` attaches
abbrev pub with_identity : Identity → Request → Request
with_identity i r = record r { identity = some i }

module _ {S : Type 0} (next : Handler Request S) (r : Request) (s : S) where
  authenticate-caller : authenticate next r s ≡ attach next (caller r) r s
  unfolding authenticate caller attach
  authenticate-caller = elim (Bool-cases (starts_with r.authorization bearer)) [
    | inl y ↦ rw y refl
    | inr n ↦ rw n refl
  ]

  recover-state : (recover next r s).state ≡ (next r s).state
  unfolding recover
  recover-state = elim (Bool-cases (next r s).panicked) [ inl y ↦ rw y refl | inr n ↦ rw n refl ]

module _ {S : Type 0} (store : PaymentStore S) (wire : Wire) (now : ℕ) where
  -- `Recover` stands outside `ScopedLogger` in `Routes`: the first one listed is outermost.
  pub routes-order :
      (id : String)
      → routes store wire now id ≡ recover (request_id id (authenticate (serve_mux store wire now)))
  unfolding routes
  routes-order id =
      chain_wraps (authenticate (serve_mux store wire now)) (recover ∷ request_id id ∷ [])

  require_kind-other :
      (kind : String) (next : Handler Request S) (r : Request) (s : S) (i : Identity)
      → r.identity ≡ some i
      → i.kind ≢ kind
      → (require_kind kind next r s).state ≡ s
  unfolding require_kind
  require_kind-other kind next r s i e n = ground (arith, e, n)

  serve_mux-other :
      (r : Request) (s : S) (i : Identity)
      → r.identity ≡ some i
      → i.kind ≢ "user"
      → (serve_mux store wire now r s).state ≡ s
  unfolding serve_mux handler_of health
  serve_mux-other r s i e n = elim (Option-cases (wire.mux r)) [
    | inl q ↦ rw (q, serve_mux) refl
    | inr ((livez, id), q) ↦ rw (q, serve_mux) refl
    | inr ((readyz, id), q) ↦ rw (q, serve_mux) refl
    | inr ((post_payments, id), q) ↦
        rw (q, serve_mux)
          (require_kind-other "user" (create store wire now) (record r { path_id = id }) s i e n)
    | inr ((post_cancel, id), q) ↦
        rw (q, serve_mux)
          (require_kind-other "user" (cancel store wire now) (record r { path_id = id }) s i e n)
  ]

  module _ (id : String) (r : Request) (s : S) where
    abbrev served : Ran S
    served = authenticate (serve_mux store wire now) r s

    routes-state : (routes store wire now id r s).state ≡ served.state
    unfolding request_id
    routes-state =
        ap (λ (h : Handler Request S). (h r s).state) (routes-order id)
        ∙ recover-state (request_id id (authenticate (serve_mux store wire now))) r s

    -- The chain of `Routes`. Without a known token the answer is a 401 and the state stays; with a
    -- token of another kind than user the state stays too; with a user's token the state becomes
    -- what the mux makes of the request with that identity attached, whatever identity stood there.
    pub routes_guard :
        (caller r ≡ none
          → ((routes store wire now id r s).state ≡ s)
            × ((respond (routes store wire now id r s).events no_response).status ≡ some 401))
        × ((i : Identity)
            → caller r ≡ some i
            → (i.kind ≢ "user" → (routes store wire now id r s).state ≡ s)
              × ((routes store wire now id r s).state
                  ≡ (serve_mux store wire now (with_identity i r) s).state))
    unfolding attach recover request_id
    routes_guard = (
      λ e.
          let refused =
            authenticate-caller (serve_mux store wire now) r s
            ∙ ap (λ o. attach (serve_mux store wire now) o r s) e in
          (
            routes-state ∙ ap (λ (ran : Ran S). ran.state) refused,
            ap (λ (h : Handler Request S). (respond (h r s).events no_response).status)
                  (routes-order id)
                ∙ rw refused refl,
          ),
      λ i e.
          let seen =
            authenticate-caller (serve_mux store wire now) r s
            ∙ ap (λ o. attach (serve_mux store wire now) o r s) e in
          let same = routes-state ∙ ap (λ (ran : Ran S). ran.state) seen in
          (λ n. same ∙ serve_mux-other (with_identity i r) s i refl n, same),
    )
