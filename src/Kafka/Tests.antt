-- ===== src/Kafka/Tests.antt =====
-- The theorems about the order service and the partition at concrete inputs.
use go_handbook_for_software.Base.{
  ℕ, zero, suc, ◌+◌, ◌<◌, ◌≡◌, ◌≢◌, refl, true, false, List, [], ◌∷◌, String, str_dec, texts_differ,
  arith, none, some, Result, ok, All,
}
use go_handbook_for_software.Base.Dict
use go_handbook_for_software.Kafka.{
  Cause, plain, terminal, Message, Envelope, OrderPayload, OrderApplier, is_active, as_terminal,
  Try, acknowledged, to_dead_letter, canceled_early, attempt_record,
}
use go_handbook_for_software.Kafka.Claims.{IsOrder, deliver, process_applies_once}
use go_handbook_for_software.Kafka.Partition.{GoesOn, attempt_record_lem, end_of}
use go_handbook_for_software.Kafka.Consumer.{Rec, Poll}

-- the values are numbers, the decoders know one order, and the applier counts
abbrev order : OrderPayload
order = record { order_id = "o1"; account_id = "a1"; amount_minor = 500; currency = "USD" }

abbrev envelope : Envelope ℕ
envelope = record { version = 1; kind = "order"; payload = 8 }

abbrev to_envelope : ℕ → Result Cause (Envelope ℕ)
to_envelope b = ok envelope

abbrev to_order : ℕ → Result Cause OrderPayload
to_order b = ok order

abbrev counting : OrderApplier ℕ
counting o n = (n + 1, none)

abbrev delivery : Message ℕ
delivery = record { key = "o1"; value = 9; headers = ("idempotency_key", "k1") ∷ [] }

k1_named : ◌≢◌ {A = String} "k1" ""
unfolding str_dec
k1_named = texts_differ "k1" "" refl

delivery-IsOrder : IsOrder counting to_envelope to_order delivery "k1" order
unfolding Dict.lookup str_dec
delivery-IsOrder = record {
  header = refl;
  named = k1_named;
  envelope = envelope;
  decoded = refl;
  version = refl;
  payload = refl;
}

unclaimed : is_active "k1" [] ≡ false
unfolding is_active Dict.lookup
unclaimed = refl

process_applies_once_example :
    deliver counting to_envelope to_order 3 delivery ([], 0) ≡ (Dict.insert str_dec "k1" true [], 1)
process_applies_once_example =
    (process_applies_once counting to_envelope to_order delivery "k1" order [] 0 delivery-IsOrder
        unclaimed).0
      refl 2

-- fails once, then succeeds
abbrev recovering : ℕ → Try
recovering zero = record { result = some (plain "down"); canceled = false }
recovering (suc k) = record { result = none; canceled = false }

abbrev poisoned : ℕ → Try
poisoned k = record { result = some (terminal (plain "bad")); canceled = false }

recovering-GoesOn : (i : ℕ) → i < 1 → GoesOn recovering i
unfolding as_terminal
recovering-GoesOn zero h = (plain "down", refl, refl, refl)
recovering-GoesOn (suc i) h = absurd (omega arith)

attempt_record_lem_example : attempt_record recovering 3 0 none ≡ (acknowledged, 2)
attempt_record_lem_example = (attempt_record_lem recovering 1 1 recovering-GoesOn).1 refl

abbrev recovering_record : String × (ℕ → Try)
recovering_record = ("r1", recovering)

abbrev poisoned_record : String × (ℕ → Try)
poisoned_record = ("r2", poisoned)

recovering_end : end_of 3 recovering_record ≡ acknowledged
unfolding attempt_record as_terminal
recovering_end = refl

poisoned_end : end_of 3 poisoned_record ≡ to_dead_letter (terminal (plain "bad"))
unfolding attempt_record as_terminal
poisoned_end = refl

two_records : List (String × (ℕ → Try))
two_records = poisoned_record ∷ recovering_record ∷ []

two_records-Ends : All (λ r. end_of 3 r ≢ canceled_early) two_records
unfolding two_records
two_records-Ends = (rw poisoned_end (λ e. absurd (cc)), (rw recovering_end (λ e. absurd (cc)), tt))

abbrev spell : ℕ → String
spell n = "bytes"

abbrev number : String → ℕ
number t = 0

abbrev cause_text : Cause → String
cause_text e = "error"

abbrev rec : Rec ℕ
rec = record { key = 1; value = 2; headers = [] }

-- a poll with a record that is acknowledged and one that is dead-lettered, then a closed client
abbrev batch_poll : Poll ℕ
batch_poll = record {
  is_closed = false;
  ctx_err = none;
  errors = [];
  partitions = ((rec, recovering) ∷ (rec, poisoned) ∷ []) ∷ [];
  failed_keys = "o2" ∷ [];
}

abbrev closed_poll : Poll ℕ
closed_poll = record {
  is_closed = true;
  ctx_err = none;
  errors = [];
  partitions = [];
  failed_keys = [];
}

abbrev polls : List (Poll ℕ)
polls = batch_poll ∷ closed_poll ∷ []
