-- ===== src/Telemetry/Counts.antt =====
-- obshttp.go's `Instrument`: what is counted for a request.
use go_handbook_for_software.Base.{
  ℕ, zero, suc, ◌<◌, ◌≤◌, ◌≡◌, refl, true, false, not, List, [], ◌∷◌, Option, none, some, String,
  if◌then◌else◌, ◌==◌, All, arith, eq_false,
}
use go_handbook_for_software.Http.{
  Event, set_header, write_header, write, Handler, respond, no_response, record_one, status_of,
}
use go_handbook_for_software.Http.Status.{IsFinal, sent, status_of_lem}
use go_handbook_for_software.Telemetry.{
  StatusWriter, record_call, record_calls, code, View, request, duration, error, route_pattern,
  samples, instrument,
}

-- the recorder knows what the other statusWriter knows
pub record Agrees (c : StatusWriter) (n : ℕ) : Type 0 where
  pub same : c.status ≡ n
  pub flag : c.written ≡ not (n == 0)

Agrees-record_call :
    (e : Event) (c : StatusWriter) (n : ℕ)
    → IsFinal e
    → Agrees c n
    → Agrees (record_call e c) (record_one e n)
unfolding record_call
Agrees-record_call (set_header k v) c n f h = h
Agrees-record_call (write_header zero) c n f h = absurd (ground (arith, f))
Agrees-record_call (write_header (suc k)) c zero f h =
    rw h.flag record { same = refl; flag = rw (eq_false (suc k) 0 (omega arith)) refl }
Agrees-record_call (write_header (suc k)) c (suc n) f h =
    rw (h.flag, eq_false (suc n) 0 (omega arith))
      record { same = h.same; flag = rw (eq_false (suc n) 0 (omega arith)) refl }
Agrees-record_call (write text) c zero f h = rw h.flag record { same = refl; flag = refl }
Agrees-record_call (write text) c (suc n) f h =
    rw (h.flag, eq_false (suc n) 0 (omega arith))
      record { same = h.same; flag = rw (eq_false (suc n) 0 (omega arith)) refl }

Agrees-record_calls :
    (es : List Event) (c : StatusWriter) (n : ℕ)
    → All IsFinal es
    → Agrees c n
    → Agrees (record_calls es c) (status_of es n)
unfolding record_calls
Agrees-record_calls [] c n f h = h
Agrees-record_calls (e ∷ es) c n f h =
    Agrees-record_calls es (record_call e c) (record_one e n) f.1 (Agrees-record_call e c n f.0 h)

-- the status sent, or 200 where nothing was sent
unfoldable pub answered : Option ℕ → ℕ
answered none = 200
answered (some n) = n

answered-sent : (n : ℕ) → (if n == 0 then 200 else n) ≡ answered (sent n)
unfolding answered
answered-sent zero = refl
answered-sent (suc n) = rw (eq_false (suc n) 0 (omega arith)) refl

-- obshttp's recorder has the status that net/http sends
pub code-record_calls :
    (es : List Event)
    → All IsFinal es
    → code (record_calls es (record { status = 0; written = false }))
      ≡ answered ((respond es no_response).status)
unfolding code
code-record_calls es f =
    let h =
      Agrees-record_calls es (record { status = 0; written = false }) 0 f
        (record { same = refl; flag = refl }) in
    rw (h.same, status_of_lem es f) (answered-sent (status_of es 0))

module _ (bytes : String → List ℕ) (itoa : ℕ → String) {Q S : Type 0} (view : Q → View)
    (next : Handler Q S) (r : Q) (s : S) where
  -- Around a handler that writes final statuses only, `Instrument` changes nothing of the response.
  -- After a return it adds one request sample, with the status that net/http sends (200 if the handler
  -- sends none), one duration sample, and one error sample exactly if that status is at least 500;
  -- after a panic it adds nothing.
  pub instrument_counts :
      let ran = next r s in
      let out = instrument bytes itoa view next r s in
      let v = view r in
      let route = route_pattern bytes v in
      let status = answered ((respond ran.events no_response).status) in
      All IsFinal ran.events
      → (out.0 ≡ ran)
        × (ran.panicked ≡ true → out.1 ≡ [])
        × (ran.panicked ≡ false
            → (status < 500
                → out.1 ≡ request v.method route (itoa status) ∷ duration v.method route ∷ [])
              × (500 ≤ status
                  → out.1
                    ≡ request v.method route (itoa status)
                      ∷ duration v.method route
                      ∷ error v.method route
                      ∷ []))
  unfolding instrument samples
  instrument_counts f =
      let c = code-record_calls (next r s).events f in
      (refl, λ p. rw p refl, λ p. rw (p, c) (λ l. ground (arith, l), λ l. ground (arith, l)))
