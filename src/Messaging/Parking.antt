-- ===== src/Messaging/Parking.antt =====
-- `redeliver` and the park of `next`.
use go_handbook_for_software.Base.{
  ℕ, ◌+◌, ◌-◌, ◌*◌, ◌^◌, ◌≤◌, ◌<◌, ◌≡◌, ◌≢◌, refl, ap, [], ◌∷◌, arith, str_dec, String,
}
use go_handbook_for_software.Base.Dict
use go_handbook_for_software.Messaging.{
  Cause, Message, Pending, Broker, enqueue, promote, redeliver, parked, stamp, add_duration,
}

abbrev park : Broker → String → Pending → Broker
park b id p = record b { inflight = (id, p) ∷ [] }

redeliver-park :
    (now later : ℕ) (q : String) (m : Message) (e : Cause) (b : Broker)
    → b.inflight ≡ []
    → redeliver now later q m e b ≡ park b m.id (parked b.backoff now later q m e)
unfolding redeliver Dict.insert
redeliver-park now later q m e b h =
    ap (λ l. record b { inflight = Dict.insert str_dec m.id (parked b.backoff now later q m e) l })
      h

promote-park_early :
    (t : ℕ) (b : Broker) (id : String) (p : Pending)
    → t < p.visible_at
    → promote t ((id, p) ∷ []) (park b id p) ≡ park b id p
unfolding promote
promote-park_early t b id p l = ground arith

promote-park_due :
    (t : ℕ) (b : Broker) (id : String) (p : Pending)
    → p.visible_at ≤ t
    → promote t ((id, p) ∷ []) (park b id p) ≡ enqueue p.msg.queue p (record b { inflight = [] })
unfolding promote enqueue Dict.delete
promote-park_due t b id p l = ground arith

parked-visible_at :
    (now later : ℕ) (q : String) (m : Message) (e : Cause) (backoff : ℕ)
    → 0 < m.attempts
    → backoff * 2 ^ (m.attempts - 1) < 2 ^ 63
    → (parked backoff now later q m e).visible_at ≡ later + backoff * 2 ^ (m.attempts - 1)
unfolding parked add_duration
parked-visible_at now later q m e backoff a o =
    let k : m.attempts + 1 - 2 ≡ m.attempts - 1 = omega arith in
    ground (arith, ap (λ n. backoff * 2 ^ n) k, o)

-- A message that fails on attempt `n` of an otherwise empty park is parked on attempt `n + 1`, keeps
-- the time of its first failure if it has one, and stays parked while the clock is before its
-- deadline, `backoff * 2 ^ (n - 1)` after the failure; from then on the next poll of any queue moves
-- it to the end of its own queue. No `int64` overflow occurs.
pub redeliver_returns :
    (now later t : ℕ) (q : String) (m : Message) (e : Cause) (b : Broker)
    → b.inflight ≡ []
    → 0 < m.attempts
    → b.backoff * 2 ^ (m.attempts - 1) < 2 ^ 63
    → let b' = redeliver now later q m e b in
      let p = parked b.backoff now later q m e in
      (p.visible_at ≡ later + b.backoff * 2 ^ (m.attempts - 1))
      × (p.msg.attempts ≡ m.attempts + 1)
      × (m.first_failed_at ≢ 0 → p.msg.first_failed_at ≡ m.first_failed_at)
      × (t < p.visible_at → promote t b'.inflight b' ≡ b')
      × (p.visible_at ≤ t → promote t b'.inflight b' ≡ enqueue q p (record b { inflight = [] }))
unfolding parked stamp
redeliver_returns now later t q m e b none_parked a o =
    let p = parked b.backoff now later q m e in
    (
      parked-visible_at now later q m e b.backoff a o,
      ground arith,
      λ f. ground arith,
      λ l. rw (redeliver-park now later q m e b none_parked) (promote-park_early t b m.id p l),
      λ l. rw (redeliver-park now later q m e b none_parked) (promote-park_due t b m.id p l),
    )

-- Two messages with one ID: parking the second one overwrites the first, which is then in no place
-- of the broker where it was not before.
pub redeliver-overwrites :
    (now later : ℕ) (q : String) (m : Message) (e : Cause) (b : Broker) (p : Pending)
    → b.inflight ≡ (m.id, p) ∷ []
    → let b' = redeliver now later q m e b in
      (b'.inflight ≡ (m.id, parked b.backoff now later q m e) ∷ [])
      × (b'.ready ≡ b.ready)
      × (b'.dlq ≡ b.dlq)
unfolding redeliver Dict.insert
redeliver-overwrites now later q m e b p one = (ground (arith, one), refl, refl)
