-- ===== src/Http/Status.antt =====
-- The status that `statusWriter` records against the one that is sent.
use go_handbook_for_software.Base.{
  ℕ, zero, suc, ◌≡◌, ◌≢◌, refl, true, false, List, [], ◌∷◌, Option, none, some, ◌==◌, All, arith,
  eq_false,
}
use go_handbook_for_software.Http.{
  Event, set_header, write_header, write, Response, no_response, is_final, respond, respond_one,
  record_one, status_of,
}

-- every status that is written is a final one
abbrev pub IsFinal : Event → Type 0
IsFinal (set_header k v) = Unit
IsFinal (write_header code) = is_final code ≡ true
IsFinal (write text) = Unit

-- a recorded status as a sent one: 0 is none
abbrev pub sent : ℕ → Option ℕ
sent zero = none
sent (suc n) = some (suc n)

pub sent_none : (n : ℕ) → sent n ≡ none → (n == 0) ≡ true
sent_none zero e = refl
sent_none (suc n) e = cc

pub sent_some : (n : ℕ) → sent n ≢ none → (n == 0) ≡ false
sent_some zero d = absurd (d refl)
sent_some (suc n) d = eq_false (suc n) 0 (omega arith)

sent-record_one :
    (e : Event) (r : Response) (n : ℕ)
    → IsFinal e
    → r.status ≡ sent n
    → (respond_one e r).status ≡ sent (record_one e n)
sent-record_one (set_header k v) r zero f h = rw h refl
sent-record_one (set_header k v) r (suc n) f h = rw h refl
sent-record_one (write_header zero) r n f h = absurd (ground (arith, f))
sent-record_one (write_header (suc code)) r zero f h = rw h (rw f refl)
sent-record_one (write_header (suc code)) r (suc n) f h =
    rw (h, eq_false (suc n) 0 (omega arith)) refl
sent-record_one (write text) r zero f h = rw h refl
sent-record_one (write text) r (suc n) f h = rw (h, eq_false (suc n) 0 (omega arith)) refl

sent-status_of :
    (es : List Event) (r : Response) (n : ℕ)
    → All IsFinal es
    → r.status ≡ sent n
    → (respond es r).status ≡ sent (status_of es n)
sent-status_of [] r n f h = h
sent-status_of (e ∷ es) r n f h =
    sent-status_of es (respond_one e r) (record_one e n) f.1 (sent-record_one e r n f.0 h)

-- `statusWriter` records the status that net/http sends, and 0 exactly while nothing is sent, as long
-- as the handler writes final statuses only.
pub status_of_lem :
    (es : List Event) → All IsFinal es → (respond es no_response).status ≡ sent (status_of es 0)
status_of_lem es f = sent-status_of es no_response 0 f refl
