-- ===== src/Kafka/Claims.antt =====
-- `OrderService.Process` over the `MemoryClaims` store.
use Prim.Native.String.{String}
use go_handbook_for_software.Base.{
  ℕ, zero, suc, ◌≡◌, ◌≢◌, refl, ap, ◌∙◌, true, false, Option, none, some, arith, ite, str_dec,
  Result, ok, if_neg, eq_true,
}
use go_handbook_for_software.Base.Dict
use go_handbook_for_software.Kafka.{
  Cause, wrapped, Message, Envelope, OrderPayload, ClaimStore, OrderApplier, MemoryClaims,
  is_active, memory_claim, memory_release, claim_and_apply, process_v1, process_id,
  process_envelope, process,
}

module _ {A : Type 0} where
  -- the in-memory store beside the applier's own state
  unfoldable pub memory_store : ClaimStore (MemoryClaims × A)
  memory_store = record {
    claim = λ id w. let (m, r) = memory_claim id w.0 in ((m, w.1), r);
    release = λ id w. let (m, r) = memory_release id w.0 in ((m, w.1), r);
  }

  unfoldable pub beside_claims : OrderApplier A → OrderApplier (MemoryClaims × A)
  beside_claims applier order w = let (a, r) = applier order w.1 in ((w.0, a), r)

is_active-insert :
    (id : String) (m : MemoryClaims) → is_active id (Dict.insert str_dec id true m) ≡ true
unfolding is_active
is_active-insert id m = rw (Dict.lookup-insert_self str_dec id true m, is_active)

is_active-delete :
    (id j : String) (m : MemoryClaims)
    → is_active j (Dict.delete str_dec id m) ≡ ite (str_dec id j) false (is_active j m)
unfolding is_active
is_active-delete id j m = ground (arith, Dict.lookup-delete str_dec id j m)

is_active-insert_any :
    (id j : String) (m : MemoryClaims)
    → is_active j (Dict.insert str_dec id true m) ≡ ite (str_dec id j) true (is_active j m)
unfolding is_active
is_active-insert_any id j m = ground (arith, Dict.lookup-insert str_dec id j true m)

module _ {A Bytes : Type 0} (applier : OrderApplier A)
    (unmarshal_envelope : Bytes → Result Cause (Envelope Bytes))
    (unmarshal_order : Bytes → Result Cause OrderPayload) where
  -- The message has the key `id` and decodes to `order`, in version 1.
  pub record IsOrder (msg : Message Bytes) (id : String) (order : OrderPayload) : Type 0 where
    pub header : Dict.lookup str_dec "idempotency_key" msg.headers ≡ some id
    pub named : id ≢ ""
    pub envelope : Envelope Bytes
    pub decoded : unmarshal_envelope msg.value ≡ ok envelope
    pub version : envelope.version ≡ 1
    pub payload : unmarshal_order envelope.payload ≡ ok order

  abbrev pub handle : Message Bytes → MemoryClaims × A → (MemoryClaims × A) × Option Cause
  handle = process memory_store (beside_claims applier) unmarshal_envelope unmarshal_order

  process-order :
      (msg : Message Bytes) (id : String) (order : OrderPayload) (w : MemoryClaims × A)
      → IsOrder msg id order
      → handle msg w ≡ claim_and_apply memory_store (beside_claims applier) id order w
  unfolding process
  process-order msg id order w h =
      rw (h.header, process)
        (rw (if_neg (str_dec id "") h.named, process_id)
          (rw (h.decoded, process_id)
            (rw (eq_true h.envelope.version 1 h.version, process_envelope)
              (rw (h.payload, process_v1)))))

  -- deliver one message again and again
  unfoldable pub deliver : ℕ → Message Bytes → MemoryClaims × A → MemoryClaims × A
  deliver zero msg w = w
  deliver (suc n) msg w = deliver n msg (handle msg w).0

  duplicate :
      (msg : Message Bytes) (id : String) (order : OrderPayload) (w : MemoryClaims × A)
      → IsOrder msg id order
      → is_active id w.0 ≡ true
      → handle msg w ≡ (w, none)
  unfolding claim_and_apply memory_store memory_claim
  duplicate msg id order w h a = process-order msg id order w h ∙ ground arith

  first :
      (msg : Message Bytes) (id : String) (order : OrderPayload) (m : MemoryClaims) (a : A)
      → IsOrder msg id order
      → is_active id m ≡ false
      → (applier order a).1 ≡ none
      → handle msg (m, a) ≡ ((Dict.insert str_dec id true m, (applier order a).0), none)
  unfolding claim_and_apply memory_store memory_claim beside_claims
  first msg id order m a h f p = process-order msg id order (m, a) h ∙ ground arith

  deliver_duplicates :
      (n : ℕ) (msg : Message Bytes) (id : String) (order : OrderPayload) (w : MemoryClaims × A)
      → IsOrder msg id order
      → is_active id w.0 ≡ true
      → deliver n msg w ≡ w
  unfolding deliver
  deliver_duplicates zero msg id order w h a = refl
  deliver_duplicates (suc n) msg id order w h a =
      rw (duplicate msg id order w h a) (deliver_duplicates n msg id order w h a)

  -- A well-formed order message whose key is not claimed. If the applier succeeds, then however often
  -- the message is delivered (once or more), the order is applied exactly once and its key claimed.
  -- If the applier fails, the error is reported with the order's id, and every key is claimed or free
  -- as it was, so that the next delivery tries again.
  pub process_applies_once :
      (msg : Message Bytes) (id : String) (order : OrderPayload) (m : MemoryClaims) (a : A)
      → IsOrder msg id order
      → is_active id m ≡ false
      → ((applier order a).1 ≡ none
          → (n : ℕ)
          → deliver (suc n) msg (m, a) ≡ (Dict.insert str_dec id true m, (applier order a).0))
        × ((e : Cause)
            → (applier order a).1 ≡ some e
            → let (w, r) = handle msg (m, a) in
              (r ≡ some (wrapped order.order_id e))
              × (w.1 ≡ (applier order a).0)
              × ((j : String) → is_active j w.0 ≡ is_active j m))
  unfolding deliver claim_and_apply memory_store memory_claim memory_release beside_claims
  process_applies_once msg id order m a h f = (
    λ p n. rw (first msg id order m a h f p) (
        deliver_duplicates n msg id order (Dict.insert str_dec id true m, (applier order a).0) h
          (is_active-insert id m)),
    λ e p.
        let q = process-order msg id order (m, a) h in
        (
          ground (arith, q, f, p),
          ground (arith, q, f, p),
          λ j. ground (
            arith,
            q,
            f,
            p,
            is_active-delete id j (Dict.insert str_dec id true m),
            is_active-insert_any id j m,
            ap (λ k. is_active k m) {x = id} {y = j},
          ),
        ),
  )
