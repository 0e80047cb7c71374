-- ===== src/Errors/Mapping.antt =====
-- `writeError` and the payment handler of service/service.go.
use Prim.Native.String.{len}
use go_handbook_for_software.Base.{
  ◌^◌, ◌≤◌, ◌<◌, ◌≡◌, ◌≢◌, refl, true, false, str_dec, none, some, String, arith, Bool-cases, inl,
  inr, dec_lt, dec_le, ℕ_discrete,
}
use go_handbook_for_software.Errors.{
  Code, code_unknown, code_not_found, code_invalid, code_conflict, code_unavailable, DomainError,
  Cause, is_context, as_domain, is_unavailable, retryable, wrap, PaymentRequest, validate, process,
  Response, plain_response, try_later, write_unclassified, write_domain, write_error, respond,
  answer, serve,
}

-- what a domain error stands for at the boundary, whatever its cause
abbrev pub response_of : DomainError → Code → Response
response_of d code_unknown = plain_response 500 "internal error"
response_of d code_not_found = plain_response 404 "resource not found"
response_of d code_invalid = plain_response 400 d.reason
response_of d code_conflict = plain_response 409 "conflicting state"
response_of d code_unavailable = try_later

write_domain-response :
    (c : Cause) (d : DomainError) (k : Code)
    → d.code ≡ k
    → as_domain c ≡ some d
    → write_domain d k c ≡ response_of d k
unfolding write_domain write_unclassified retryable is_unavailable
write_domain-response c d code_unknown k e = elim (Bool-cases (is_context c)) [
  | inl x ↦ rw (x, retryable) refl
  | inr x ↦ rw (x, retryable) (rw e (rw k refl))
]
write_domain-response c d code_not_found k e = refl
write_domain-response c d code_invalid k e = refl
write_domain-response c d code_conflict k e = refl
write_domain-response c d code_unavailable k e = refl

-- `writeError` answers by the code of the first domain error of the chain, whatever that wraps; with
-- the code unknown, that is the internal error, even over a cause that might be retried. An error
-- with no domain error in its chain is answered by `Retryable`.
pub write_error_decides :
    (c : Cause)
    → ((d : DomainError) → as_domain c ≡ some d → write_error c ≡ response_of d d.code)
      × (as_domain c ≡ none → retryable c ≡ true → write_error c ≡ try_later)
      × (as_domain c ≡ none
          → retryable c ≡ false
          → write_error c ≡ plain_response 500 "internal error")
unfolding write_error write_unclassified
write_error_decides c = (
  λ d e. rw (e, write_error) (write_domain-response c d d.code refl e),
  λ e r. rw (e, write_error) (rw r refl),
  λ e r. rw (e, write_error) (rw r refl),
)

-- A canceled or expired request is answered with 503 and Retry-After, although the error itself is
-- not retryable for the callers of `Process`, here and under any further wrapping.
pub canceled-unavailable :
    (e : Cause) (req : PaymentRequest) (s : String)
    → is_context e ≡ true
    → (c : Cause) × (process (some e) req ≡ some c)
      × (retryable c ≡ false)
      × (write_error c ≡ try_later)
      × (retryable (Cause.wrapped s c) ≡ false)
      × (write_error (Cause.wrapped s c) ≡ try_later)
unfolding process wrap retryable is_context write_error write_domain as_domain
canceled-unavailable e req s h = (
  wrap "authorize" code_unavailable "request canceled" (some e),
  refl,
  rw h refl,
  refl,
  rw h refl,
  refl,
)

-- What a request needs to be accepted.
pub record IsAcceptable (r : PaymentRequest) : Type 0 where
  pub keyed : r.idempotency_key ≢ ""
  pub positive : 0 < r.amount_minor
  pub capped : r.amount_minor ≤ 10_000_000
  pub coded : len r.currency ≡ 3

-- With a live context and an amount that is an `int64` pattern, a decoded request is answered with
-- 201 if it is acceptable, and with 400 otherwise.
pub serve_decides :
    (r : PaymentRequest)
    → r.amount_minor < 2 ^ 64
    → (IsAcceptable r → (serve none (some r)).status ≡ 201)
      × (¬ IsAcceptable r → (serve none (some r)).status ≡ 400)
unfolding serve answer respond validate process wrap write_error write_domain as_domain
serve_decides r b = (
  λ h. ground (arith, h.keyed, h.positive, h.capped, h.coded),
  λ n. elim (str_dec r.idempotency_key "") [
    | yes e ↦ ground (arith, e)
    | no k ↦ elim (dec_lt 0 r.amount_minor) [
      | no p ↦ ground (arith, k)
      | yes p ↦ elim (dec_le r.amount_minor 10_000_000) [
        | no c ↦ ground (arith, k)
        | yes c ↦ elim (ℕ_discrete (len r.currency) 3) [
          | no l ↦ ground (arith, k)
          | yes l ↦ absurd (n (record { keyed = k; positive = p; capped = c; coded = l }))
        ]
      ]
    ]
  ],
)
