-- ===== src/Api/Stack.antt =====
-- The chain of `Server.Handler`.
use go_handbook_for_software.Base.{ℕ, ◌≡◌, sym, subst, false, [], ◌∷◌, ◌++◌, All, String}
use go_handbook_for_software.Http.{
  Handler, recover, request_id, access_log, access, respond, no_response,
}
use go_handbook_for_software.Http.Chains.{chain_wraps}
use go_handbook_for_software.Http.Status.{IsFinal, sent}
use go_handbook_for_software.Http.Recovery.{access_log_lem}
use go_handbook_for_software.Api.{Store, Wire, Server, Request, serve_mux, handler}

module _ {S : Type 0} (store : Store S) (wire : Wire)
    (timeout : Handler Request (Server S) → Handler Request (Server S)) (id : String) where
  -- Every request to `Handler`, whatever the bounded mux does with it, returns without a panic and
  -- logs one access line, behind the lines of the handlers, with the status that the client gets;
  -- where the bounded mux writes final statuses only.
  pub handler_logs :
      (r : Request) (srv : Server S)
      → All IsFinal (timeout (serve_mux store wire) r srv).events
      → let ran = handler store wire timeout id r srv in
        (ran.panicked ≡ false)
        × ((n : ℕ) × (ran.logs
              ≡ (recover (timeout (serve_mux store wire)) r srv).logs ++ access n ∷ [])
            × ((respond ran.events no_response).status ≡ sent n))
  unfolding handler
  handler_logs r srv f =
      let bounded = timeout (serve_mux store wire) in
      subst
        (λ (h : Handler Request (Server S)).
          ((h r srv).panicked ≡ false)
          × ((n : ℕ) × ((h r srv).logs ≡ (recover bounded r srv).logs ++ access n ∷ [])
              × ((respond (h r srv).events no_response).status ≡ sent n)))
        (sym (chain_wraps bounded (access_log ∷ request_id id ∷ recover ∷ [])))
        (access_log_lem bounded r srv id f)
