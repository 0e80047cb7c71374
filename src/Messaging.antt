-- ===== src/Messaging.antt =====
-- 17-messaging/examples/messaging/broker.go: the in-memory queue broker. The mutex serialises the
-- methods. A clock reading is an argument, a number of nanoseconds with 0 for the zero time; a
-- duration is an `int64` pattern. Where Go walks a map in an unspecified order, the model walks the
-- association list, whose order is any. A list of turns stands for what the loop of `Consume` meets:
-- the context, the clock and the handler's outcome.
pub mod Delivery
pub mod Policy
pub mod Parking
mod Tests
use Prim.Native.String.{String}
use go_handbook_for_software.Base.{
  ℕ, zero, suc, ◌+◌, ◌-◌, ◌*◌, ◌^◌, ◌%◌, Bool, true, false, List, [], ◌∷◌, ◌++◌, ite, str_dec,
  ℕ_discrete, Option, none, some, Result, ok, err, if◌then◌else◌, ltb, leb, ◌==◌, length,
}
use go_handbook_for_software.Base.Dict

-- An error value: a plain one, one marked by `Terminal`, or one that wraps another with `%w`. The
-- model keeps the error where the code keeps its text.
pub data Cause : Type 0 where
  plain : String → Cause
  terminal : Cause → Cause
  wrapped : String → Cause → Cause

-- `IsTerminal`: `errors.As` walks the chain
unfoldable pub is_terminal : Cause → Bool
is_terminal (plain s) = false
is_terminal (terminal c) = true
is_terminal (wrapped s c) = is_terminal c

-- `Envelope`
pub record Envelope (Payload : Type 0) : Type 0 where
  pub version : ℕ
  pub kind : String
  pub payload : Payload

-- the end of `DecodeEnvelope`: the decoder of the version
unfoldable pub dispatch :
    {Payload : Type 0} → Option (Payload → Option Cause) → Payload → Option Cause
dispatch none payload = some (terminal (plain "unsupported envelope version"))
dispatch (some decode) payload = decode payload

-- `DecodeEnvelope`; `unmarshal` stands for `json.Unmarshal`, and the result `none` is the nil error
unfoldable pub decode_envelope :
    {Bytes Payload : Type 0}
    → (Bytes → Result Cause (Envelope Payload))
    → Bytes
    → List (ℕ × (Payload → Option Cause))
    → Option Cause
unfolding dispatch
decode_envelope unmarshal value supported = elim (unmarshal value) [
  | err e ↦ some (terminal (wrapped "bad envelope" e))
  | ok env ↦ dispatch (Dict.lookup ℕ_discrete env.version supported) env.payload
]

-- `Message`; the value is not looked at, and left out
pub record Message : Type 0 where
  pub id : String
  pub queue : String
  pub idempotency_key : String
  pub attempts : ℕ
  pub dead_letter_reason : Option Cause
  pub first_failed_at : ℕ

pub record Pending : Type 0 where
  pub msg : Message
  pub visible_at : ℕ

pub record Broker : Type 0 where
  pub ready : List (String × List Pending)
  pub inflight : List (String × Pending)
  pub dlq : List (String × List Message)
  pub max_attempts : ℕ
  pub backoff : ℕ

-- `NewBroker` with its defaults, and the options that replace them
abbrev pub new_broker : Broker
new_broker = record { ready = []; inflight = []; dlq = []; max_attempts = 3; backoff = 1_000_000 }

abbrev pub with_max_attempts : ℕ → Broker → Broker
with_max_attempts n b = record b { max_attempts = n }

abbrev pub with_backoff : ℕ → Broker → Broker
with_backoff d b = record b { backoff = d }

-- a read of a map of slices: a missing key reads as the nil slice
unfoldable pub slice {ℓ} : {A : Type ℓ} → Option (List A) → List A
slice none = []
slice (some l) = l

abbrev pub queued : String → Broker → List Pending
queued q b = slice (Dict.lookup str_dec q b.ready)

-- `Dead`
abbrev pub dead_letters : String → Broker → List Message
dead_letters q b = slice (Dict.lookup str_dec q b.dlq)

-- `Inflight`
abbrev pub inflight_count : Broker → ℕ
inflight_count b = length b.inflight

-- `b.ready[q] = append(b.ready[q], p)`
unfoldable pub enqueue : String → Pending → Broker → Broker
enqueue q p b = record b { ready = Dict.insert str_dec q (queued q b ++ p ∷ []) b.ready }

-- `Publish`
unfoldable pub publish : String → Message → Broker → Broker
unfolding enqueue
publish queue msg b =
    let attempts = if msg.attempts == 0 then 1 else msg.attempts in
    enqueue queue
      (record { msg = record msg { queue = queue; attempts = attempts }; visible_at = 0 }) b

-- the first loop of `next`, over the messages parked when it began
unfoldable pub promote : ℕ → List (String × Pending) → Broker → Broker
unfolding enqueue
promote now [] b = b
promote now ((id, p) ∷ rest) b = promote now rest (
    if ltb now p.visible_at
    then b
    else enqueue p.msg.queue p (record b { inflight = Dict.delete str_dec id b.inflight }))

keep_first : Pending → Option (Message × List Pending) → Option (Message × List Pending)
keep_first p none = none
keep_first p (some (m, rest)) = some (m, p ∷ rest)

-- the second loop of `next`: the first visible message, and the queue without it
unfoldable pub take_visible : ℕ → List Pending → Option (Message × List Pending)
unfolding keep_first
take_visible now [] = none
take_visible now (p ∷ q) =
    if ltb now p.visible_at then keep_first p (take_visible now q) else some (p.msg, q)

-- `next`
unfoldable pub next : ℕ → String → Broker → Broker × Option Message
unfolding promote take_visible
next now queue b =
    let b' = promote now b.inflight b in
    elim (take_visible now (queued queue b')) [
      | none ↦ (b', none)
      | some (m, rest) ↦ (record b' { ready = Dict.insert str_dec queue rest b'.ready }, some m)
    ]

-- `if msg.FirstFailedAt.IsZero()`
unfoldable pub stamp : ℕ → Message → Message
stamp now msg = if msg.first_failed_at == 0 then record msg { first_failed_at = now } else msg

-- `dead`
unfoldable pub dead : ℕ → String → Message → Cause → Broker → Broker
unfolding stamp
dead now queue msg cause b =
    let m = record (stamp now msg) { dead_letter_reason = some cause } in
    record b { dlq = Dict.insert str_dec queue (dead_letters queue b ++ m ∷ []) b.dlq }

-- `now.Add(d)` for a signed duration
unfoldable pub add_duration : ℕ → ℕ → ℕ
add_duration now d = if ltb d (2 ^ 63) then now + d else now - (2 ^ 64 - d)

-- the message that `redeliver` parks
unfoldable pub parked : ℕ → ℕ → ℕ → String → Message → Cause → Pending
unfolding stamp add_duration
parked backoff now later queue msg cause =
    let attempts = msg.attempts + 1 in
    let delay = (backoff * 2 ^ (attempts - 2)) % 2 ^ 64 in
    let m = record (stamp now msg) {
      queue = queue;
      attempts = attempts;
      dead_letter_reason = some cause;
    } in
    record { msg = m; visible_at = add_duration later delay }

-- `redeliver`, which reads the clock for the first failure and for the delay
unfoldable pub redeliver : ℕ → ℕ → String → Message → Cause → Broker → Broker
unfolding parked
redeliver now later queue msg cause b = record b {
  inflight = Dict.insert str_dec msg.id (parked b.backoff now later queue msg cause) b.inflight;
}

-- What a handler does: return nil, return an error, or panic with a text.
pub data Outcome : Type 0 where
  acked : Outcome
  failed : Cause → Outcome
  panicked : String → Outcome

-- `handle`: a panic becomes a terminal error
unfoldable pub handle : Outcome → Option Cause
handle acked = none
handle (failed e) = some e
handle (panicked s) = some (terminal (plain s))

-- the `switch` of `Consume`
unfoldable pub settle : ℕ → ℕ → String → Message → Option Cause → Broker → Broker
settle now later queue msg none b = b
settle now later queue msg (some e) b =
    if is_terminal e
    then dead now queue msg e b
    else if leb b.max_attempts msg.attempts
    then dead now queue msg (wrapped "max attempts reached" e) b
    else redeliver now later queue msg e b

-- What one turn of the loop meets: whether the context is done, the clock when `next` reads it, the
-- handler's outcome for the message, and the clock afterwards.
pub record Turn : Type 0 where
  pub done : Bool
  pub now : ℕ
  pub outcome : Message → Outcome
  pub failed_at : ℕ
  pub parked_at : ℕ

-- How `Consume` stands after its turns.
pub data ConsumeEnd : Type 0 where
  context_done drained still_running : ConsumeEnd

-- `Consume`; the messages beside the end are those delivered, in order
unfoldable pub consume : List Turn → String → Broker → Broker × ConsumeEnd × List Message
consume [] queue b = (b, still_running, [])
consume (t ∷ ts) queue b =
    if t.done
    then (b, context_done, [])
    else (let (b', delivered) = next t.now queue b in
        elim delivered [
          | none ↦ (b', drained, [])
          | some msg ↦
              let (c, end, ms) =
                consume ts queue
                  (settle t.failed_at t.parked_at queue msg (handle (t.outcome msg)) b') in
              (c, end, msg ∷ ms)
        ])
