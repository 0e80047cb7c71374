-- ===== src/Http/Recovery.antt =====
-- `Recover`, and the access line that stands around it.
use go_handbook_for_software.Base.{
  ℕ, ◌<◌, ◌≡◌, ◌≢◌, refl, sym, ap, ◌∙◌, true, false, List, [], ◌∷◌, ◌++◌, none, some, String, ◌==◌,
  All, arith, Bool-cases, inl, inr, append-nil, All-append,
}
use go_handbook_for_software.Http.{
  Event, Response, no_response, respond, respond_one, status_of, http_error, Handler, access,
  recover, access_log, request_id, set_header,
}
use go_handbook_for_software.Http.Status.{IsFinal, sent, sent_none, sent_some, status_of_lem}

false≢true : false ≡ true → ⊥
false≢true e = cc

respond-append :
    (es fs : List Event) (r : Response) → respond (es ++ fs) r ≡ respond fs (respond es r)
respond-append [] fs r = refl
respond-append (e ∷ es) fs r = respond-append es fs (respond_one e r)

-- an error is sent where nothing has been
respond-http_error :
    (msg : String) (code : ℕ) (r : Response)
    → r.status ≡ none
    → 199 < code
    → (respond (http_error msg code) r).status ≡ some code
respond-http_error msg code r e l = rw e (ground arith)

module _ {Q S : Type 0} (next : Handler Q S) (r : Q) (s : S) where
  -- `Recover` around a handler that writes final statuses only. The handler's state stays, and no
  -- panic passes. A run without a panic is as it was; after a panic the client gets the 500 if the
  -- handler had sent nothing, and otherwise what the handler had sent, with nothing added.
  pub recover_decides :
      let ran = next r s in
      let ran' = recover next r s in
      All IsFinal ran.events
      → (ran'.panicked ≡ false)
        × (ran'.state ≡ ran.state)
        × (ran.panicked ≡ false → ran' ≡ ran)
        × (ran.panicked ≡ true
            → ((respond ran.events no_response).status ≡ none
                → (respond ran'.events no_response).status ≡ some 500)
              × ((respond ran.events no_response).status ≢ none
                  → respond ran'.events no_response ≡ respond ran.events no_response))
  unfolding recover
  recover_decides f = elim (Bool-cases (next r s).panicked) [
    | inr fine ↦ rw fine (refl, refl, λ _. refl, λ panics. absurd (false≢true panics))
    | inl panics ↦
        let es = (next r s).events in
        let recorded = status_of_lem es f in
        rw panics (
          refl,
          refl,
          λ fine. absurd (false≢true (sym fine)),
          λ _. (
            λ e. rw (sent_none (status_of es 0) (sym recorded ∙ e)) (
                ap (λ (x : Response). x.status)
                  (respond-append es (http_error "internal error" 500) no_response)
                ∙ respond-http_error "internal error" 500 (respond es no_response) e (omega arith)),
            λ d.
                rw (sent_some (status_of es 0) (λ e. d (recorded ∙ e)))
                  (ap (λ es'. respond es' no_response) (append-nil es)),
          ),
        )
  ]

  recover-IsFinal : All IsFinal (next r s).events → All IsFinal (recover next r s).events
  unfolding recover
  recover-IsFinal f = elim (Bool-cases (next r s).panicked) [
    | inr fine ↦ rw fine f
    | inl panics ↦ rw panics (elim (Bool-cases (status_of (next r s).events 0 == 0)) [
      | inl none_sent ↦ rw none_sent (
          All-append IsFinal (next r s).events (http_error "internal error" 500) f
            (tt, (tt, (refl, (tt, tt)))))
      | inr started ↦ rw started (All-append IsFinal (next r s).events [] f tt)
    ])
  ]

  -- `AccessLog` around `RequestID` around `Recover`, for a handler that writes final statuses only:
  -- whatever the handler does, no panic passes, one access line is added at the end, and its status
  -- is the one that the client gets.
  pub access_log_lem :
      (id : String)
      → All IsFinal (next r s).events
      → let ran = access_log (request_id id (recover next)) r s in
        (ran.panicked ≡ false)
        × ((n : ℕ) × (ran.logs ≡ (recover next r s).logs ++ access n ∷ [])
            × ((respond ran.events no_response).status ≡ sent n))
  unfolding access_log request_id
  access_log_lem id f =
      let calm = (recover_decides f).0 in
      let final = recover-IsFinal f in
      rw calm (
        refl,
        (
          status_of (set_header "X-Request-ID" id ∷ (recover next r s).events) 0,
          refl,
          status_of_lem (set_header "X-Request-ID" id ∷ (recover next r s).events) (tt, final),
        ),
      )
