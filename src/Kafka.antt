-- ===== src/Kafka.antt =====
-- 18-kafka-with-go/examples: the order service with its idempotency claims (service.go) and the
-- processing of a partition (consumer.go). The claim store and the applier of orders are interfaces
-- of the program: a call of one takes the world `S` to a new world and a result. `MemoryClaims` is
-- the store that the program has. JSON decoding and the Kafka client are arguments.
pub mod Claims
pub mod Partition
pub mod Consumer
pub mod Commits
pub mod Loop
mod Tests
use Prim.Native.String.{String}
use go_handbook_for_software.Base.{
  ℕ, zero, suc, ◌+◌, ◌*◌, Bool, true, false, List, [], ◌∷◌, ◌++◌, ite, str_dec, Option, none, some,
  Result, ok, err, if◌then◌else◌, ◌==◌, map,
}
use go_handbook_for_software.Base.Dict

-- An error value, in the chain that `Unwrap` walks.
pub data Cause : Type 0 where
  plain malformed : String → Cause
  terminal : Cause → Cause
  wrapped : String → Cause → Cause

-- `asTerminal`: the loop over the chain
unfoldable pub as_terminal : Cause → Bool
as_terminal (plain s) = false
as_terminal (malformed s) = false
as_terminal (terminal c) = true
as_terminal (wrapped s c) = as_terminal c

-- `Message`; `Bytes` is the type of values
pub record Message (Bytes : Type 0) : Type 0 where
  pub key : String
  pub value : Bytes
  pub headers : List (String × String)

-- `Envelope`; its time stamp is not read
pub record Envelope (Bytes : Type 0) : Type 0 where
  pub version : ℕ
  pub kind : String
  pub payload : Bytes

-- `OrderPayload`
pub record OrderPayload : Type 0 where
  pub order_id : String
  pub account_id : String
  pub amount_minor : ℕ
  pub currency : String

-- `ClaimStore`, over a world `S`
pub record ClaimStore (S : Type 0) : Type 0 where
  pub claim : String → S → S × Result Cause Bool
  pub release : String → S → S × Option Cause

-- `OrderApplier`
abbrev pub OrderApplier : Type 0 → Type 0
OrderApplier S = OrderPayload → S → S × Option Cause

-- `MemoryClaims`
abbrev pub MemoryClaims : Type 0
MemoryClaims = List (String × Bool)

-- `m.active[id]`: a missing key reads as false
unfoldable pub is_active : String → MemoryClaims → Bool
is_active id m = elim (Dict.lookup str_dec id m) [ none ↦ false | some b ↦ b ]

-- `MemoryClaims.Claim`
unfoldable pub memory_claim : String → MemoryClaims → MemoryClaims × Result Cause Bool
memory_claim id m =
    if is_active id m then (m, ok false) else (Dict.insert str_dec id true m, ok true)

-- `MemoryClaims.Release`
unfoldable pub memory_release : String → MemoryClaims → MemoryClaims × Option Cause
memory_release id m = (Dict.delete str_dec id m, none)

module _ {S : Type 0} (store : ClaimStore S) (applier : OrderApplier S) where
  -- the end of `processV1` after a failed apply
  unfoldable pub after_failure : String → OrderPayload → Cause → S → S × Option Cause
  after_failure id order e w =
      let (w', released) = store.release id w in
      elim released [
        | some _ ↦ (w', some (plain "apply failed AND release failed"))
        | none ↦ (w', some (wrapped order.order_id e))
      ]

  -- `processV1` after the claim is won
  unfoldable pub apply_order : String → OrderPayload → S → S × Option Cause
  unfolding after_failure
  apply_order id order w =
      let (w', applied) = applier order w in
      elim applied [ none ↦ (w', none) | some e ↦ after_failure id order e w' ]

  -- `processV1` after the payload is decoded
  unfoldable pub claim_and_apply : String → OrderPayload → S → S × Option Cause
  unfolding apply_order
  claim_and_apply id order w =
      let (w', claimed) = store.claim id w in
      elim claimed [
        | err e ↦ (w', some (wrapped id e))
        | ok inserted ↦ if inserted then apply_order id order w' else (w', none)
      ]

  module _ {Bytes : Type 0} (unmarshal_envelope : Bytes → Result Cause (Envelope Bytes))
      (unmarshal_order : Bytes → Result Cause OrderPayload) where
    -- `processV1`
    unfoldable pub process_v1 : String → Envelope Bytes → S → S × Option Cause
    unfolding claim_and_apply
    process_v1 id env w = elim (unmarshal_order env.payload) [
      | err e ↦ (w, some (terminal (malformed "bad v1 payload")))
      | ok order ↦ claim_and_apply id order w
    ]

    process_envelope : String → Envelope Bytes → S → S × Option Cause
    process_envelope id env w =
        if env.version == 1
        then process_v1 id env w
        else (w, some (terminal (malformed "unsupported envelope version")))

    process_id : String → Bytes → S → S × Option Cause
    process_id id value w =
        ite (str_dec id "") (w, some (terminal (malformed "missing idempotency_key")))
          (elim (unmarshal_envelope value) [
            | err e ↦ (w, some (terminal (malformed "bad envelope")))
            | ok env ↦ process_envelope id env w
          ])

    -- `OrderService.Process`; a missing header reads as ""
    unfoldable pub process : Message Bytes → S → S × Option Cause
    unfolding process_id process_envelope process_v1
    process msg w = elim (Dict.lookup str_dec "idempotency_key" msg.headers) [
      | none ↦ process_id "" msg.value w
      | some id ↦ process_id id msg.value w
    ]

-- `backoff`, in nanoseconds
unfoldable pub backoff : ℕ → ℕ
backoff attempt = (attempt + 1) * 100_000_000

-- What one call of the handler and the wait after it meet: the result, and whether the context is
-- canceled before the backoff ends.
pub record Try : Type 0 where
  pub result : Option Cause
  pub canceled : Bool

-- How the attempts at one record end: acknowledged, to be dead-lettered, or given up on cancelation.
pub data RecordEnd : Type 0 where
  acknowledged canceled_early : RecordEnd
  to_dead_letter : Cause → RecordEnd

finish : Option Cause → RecordEnd
finish none = acknowledged
finish (some e) = to_dead_letter e

-- the inner loop of `processPartition`: `left` is `maxAttempts - attempt`, and the number beside the
-- end counts the calls of the handler
unfoldable pub attempt_record : (ℕ → Try) → ℕ → ℕ → Option Cause → RecordEnd × ℕ
unfolding finish
attempt_record env zero attempt last = (finish last, 0)
attempt_record env (suc left) attempt last = elim ((env attempt).result) [
  | none ↦ (acknowledged, 1)
  | some e ↦
      let (end, calls) = attempt_record env left (attempt + 1) (some e) in
      if as_terminal e
      then (to_dead_letter e, 1)
      else if (env attempt).canceled
      then (canceled_early, 1)
      else (end, calls + 1)
]

-- `processPartition`: the dead letters in order, and whether it ran to the last record. The list
-- gives each record with what its attempts meet.
unfoldable pub process_partition {ℓ} :
    {R : Type ℓ} → ℕ → List (R × (ℕ → Try)) → List (R × Cause) × Bool
process_partition max_attempts [] = ([], true)
process_partition max_attempts ((rec, env) ∷ rest) =
    let (letters, finished) = process_partition max_attempts rest in
    elim ((attempt_record env max_attempts 0 none).0) [
      | acknowledged ↦ (letters, finished)
      | canceled_early ↦ ([], false)
      | to_dead_letter e ↦ ((rec, e) ∷ letters, finished)
    ]
