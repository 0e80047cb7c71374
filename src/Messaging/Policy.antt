-- ===== src/Messaging/Policy.antt =====
-- The retry policy of `Consume`.
use go_handbook_for_software.Base.{
  ℕ, ◌≤◌, ◌<◌, ◌≡◌, subst, List, [], ◌∷◌, ◌++◌, Option, none, some, arith, All, All-append, ltb,
  leb, Bool-cases, Option-cases, inl, inr, str_dec, String,
}
use mathlib.Core.Option.{some-injective}
use go_handbook_for_software.Base.Dict
use go_handbook_for_software.Messaging.{
  Cause, Message, Pending, Broker, slice, queued, enqueue, publish, promote, take_visible, next,
  dead, redeliver, parked, settle, handle, is_terminal, Turn, consume,
}

module _ (max : ℕ) where
  abbrev pub MayTry : Pending → Type 0
  MayTry p = p.msg.attempts ≤ max

  -- Every message that can still be delivered is within its attempts.
  pub record IsBounded (b : Broker) : Type 0 where
    pub cap : b.max_attempts ≡ max
    pub ready : Dict.AllValues str_dec (All MayTry) b.ready
    pub inflight : Dict.AllValues str_dec MayTry b.inflight

  queued-MayTry : (q : String) (b : Broker) → IsBounded b → All MayTry (queued q b)
  unfolding slice
  queued-MayTry q b h = elim (Option-cases (Dict.lookup str_dec q b.ready)) [
    | inl e ↦ rw (e, slice) tt
    | inr (l, e) ↦ rw (e, slice) (Dict.AllValues-lookup str_dec (All MayTry) q l b.ready e h.ready)
  ]

  enqueue-IsBounded :
      (q : String) (p : Pending) (b : Broker) → MayTry p → IsBounded b → IsBounded (enqueue q p b)
  unfolding enqueue
  enqueue-IsBounded q p b t h = record {
    cap = h.cap;
    ready =
        Dict.AllValues-insert str_dec (All MayTry) q (queued q b ++ p ∷ []) b.ready
          (All-append MayTry (queued q b) (p ∷ []) (queued-MayTry q b h) (t, tt)) h.ready;
    inflight = h.inflight;
  }

  promote-IsBounded :
      (now : ℕ) (l : List (String × Pending)) (b : Broker)
      → Dict.AllValues str_dec MayTry l
      → IsBounded b
      → IsBounded (promote now l b)
  unfolding promote
  promote-IsBounded now [] b t h = h
  promote-IsBounded now ((id, p) ∷ l) b t h = elim (Bool-cases (ltb now p.visible_at)) [
    | inl e ↦ rw (e, promote) (promote-IsBounded now l b t.1 h)
    | inr e ↦
        rw (e, promote)
          (promote-IsBounded now l
            (enqueue p.msg.queue p (record b { inflight = Dict.delete str_dec id b.inflight })) t.1
            (enqueue-IsBounded p.msg.queue p
              (record b { inflight = Dict.delete str_dec id b.inflight }) t.0
              (record {
                cap = h.cap;
                ready = h.ready;
                inflight = Dict.AllValues-delete str_dec MayTry id b.inflight h.inflight;
              })))
  ]

  take_visible-MayTry :
      (now : ℕ) (q : List Pending) (m : Message) (rest : List Pending)
      → All MayTry q
      → take_visible now q ≡ some (m, rest)
      → (m.attempts ≤ max) × All MayTry rest
  unfolding take_visible
  take_visible-MayTry now [] m rest h e = absurd (cc)
  take_visible-MayTry now (p ∷ q) m rest h e = elim (Bool-cases (ltb now p.visible_at)) [
    | inr v ↦
        let same : p.msg ≡ m = ground arith in
        let others : q ≡ rest = ground arith in
        (subst (λ (x : Message). x.attempts ≤ max) same h.0, subst (All MayTry) others h.1)
    | inl v ↦ elim (Option-cases (take_visible now q)) [
      | inl n ↦ absurd (ground arith)
      | inr ((m', r), t) ↦
          let (a, s) = take_visible-MayTry now q m' r h.1 t in
          let same : m' ≡ m = ground arith in
          let longer : p ∷ r ≡ rest = ground arith in
          (subst (λ (x : Message). x.attempts ≤ max) same a, subst (All MayTry) longer (h.0, s))
    ]
  ]

  next-IsBounded :
      (now : ℕ) (q : String) (b : Broker)
      → IsBounded b
      → IsBounded (next now q b).0 × ((m : Message) → (next now q b).1 ≡ some m → m.attempts ≤ max)
  unfolding next
  next-IsBounded now q b h =
      let b' = promote now b.inflight b in
      let h' = promote-IsBounded now b.inflight b h.inflight h in
      elim (Option-cases (take_visible now (queued q b'))) [
        | inl n ↦ rw (n, next) (h', λ m e. absurd (cc))
        | inr ((m, rest), t) ↦
            let (a, s) = take_visible-MayTry now (queued q b') m rest (queued-MayTry q b' h') t in
            rw (t, next)
              (
                record {
                  cap = h'.cap;
                  ready = Dict.AllValues-insert str_dec (All MayTry) q rest b'.ready s h'.ready;
                  inflight = h'.inflight;
                },
                λ m' e. subst (λ (x : Message). x.attempts ≤ max) (some-injective m m' e) a,
              )
      ]

  settle-IsBounded :
      (now later : ℕ) (q : String) (m : Message) (e : Option Cause) (b : Broker)
      → IsBounded b
      → IsBounded (settle now later q m e b)
  unfolding settle dead redeliver
  settle-IsBounded now later q m none b h = h
  settle-IsBounded now later q m (some e) b h = elim (Bool-cases (is_terminal e)) [
    | inl t ↦ rw t (record { cap = h.cap; ready = h.ready; inflight = h.inflight })
    | inr t ↦ elim (Bool-cases (leb b.max_attempts m.attempts)) [
      | inl l ↦ rw (t, l) (record { cap = h.cap; ready = h.ready; inflight = h.inflight })
      | inr l ↦
          rw (t, l)
            (record {
              cap = h.cap;
              ready = h.ready;
              inflight =
                  Dict.AllValues-insert str_dec MayTry m.id (parked b.backoff now later q m e)
                    b.inflight (ground (arith, h.cap)) h.inflight;
            })
    ]
  ]

  -- `Publish` of a message within the cap keeps every queued and parked message within it.
  pub publish-IsBounded :
      (q : String) (m : Message) (b : Broker)
      → 0 < max
      → m.attempts ≤ max
      → IsBounded b
      → IsBounded (publish q m b)
  unfolding publish
  publish-IsBounded q m b p a h = enqueue-IsBounded q _ b (ground arith) h

  -- From a broker whose messages are within the cap, `Consume` delivers no message on more than the
  -- `maxAttempts`-th attempt, whatever the handler does and however the clock moves, and leaves
  -- every queued and parked message within the cap.
  pub consume-IsBounded :
      (ts : List Turn) (q : String) (b : Broker)
      → IsBounded b
      → IsBounded (consume ts q b).0 × All (λ (m : Message). m.attempts ≤ max) (consume ts q b).2
  unfolding consume
  consume-IsBounded [] q b h = (h, tt)
  consume-IsBounded (t ∷ ts) q b h = elim (Bool-cases t.done) [
    | inl d ↦ rw (d, consume) (h, tt)
    | inr d ↦
        let (h', a) = next-IsBounded t.now q b h in
        elim (Option-cases (next t.now q b).1) [
          | inl n ↦ rw (d, consume) (rw (n, consume) (h', tt))
          | inr (m, s) ↦
              let b'' =
                settle t.failed_at t.parked_at q m (handle (t.outcome m)) (next t.now q b).0 in
              let (h'', all) = consume-IsBounded ts q b'' (
                settle-IsBounded t.failed_at t.parked_at q m (handle (t.outcome m))
                  (next t.now q b).0 h') in
              rw (d, consume) (rw (s, consume) (h'', (a m s, all)))
        ]
  ]
