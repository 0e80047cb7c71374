-- ===== src/Kafka/Consumer.antt =====
-- 18-kafka-with-go/examples/consumer.go: the loop of the consumer group. What the Kafka client
-- returns for each poll is given, with what the attempts at each record meet; what the loop asks of
-- the client is a list of effects. The conversions between bytes and text, the text of an error and
-- the time stamp are parameters. `Produce` hands a record to the client, which publishes it later or
-- fails to: then its callback logs the key of the message. Which callbacks run is given by the polls.
use Prim.Native.String.{String, ◌++◌ as ◌+++◌}
use go_handbook_for_software.Base.{
  ℕ, Bool, true, false, ◌||◌, List, [], ◌∷◌, ◌++◌, Option, none, some, if◌then◌else◌, map, str_dec,
}
use go_handbook_for_software.Base.Dict
use go_handbook_for_software.Kafka.{Cause, Message, Try, process_partition}

-- `kgo.Record`, as much of it as the loop reads
pub record Rec (Bytes : Type 0) : Type 0 where
  pub key : Bytes
  pub value : Bytes
  pub headers : List (String × Bytes)

-- the record that `toDeadLetter` hands to `Produce`
pub record DeadLetter (Bytes : Type 0) : Type 0 where
  pub topic : String
  pub key : Bytes
  pub value : Bytes
  pub headers : List (String × Bytes)

-- A fetched record, with what its attempts meet.
abbrev pub Fetched : Type 0 → Type 0
Fetched Bytes = Rec Bytes × (ℕ → Try)

-- What one `PollRecords` returns: whether the client is closed, the context's error after it, the
-- errors of partitions, the records of each partition, and the keys of the dead letters, of this poll
-- or an earlier one, whose publish the client reports as failed between the last commit and this one's.
pub record Poll (Bytes : Type 0) : Type 0 where
  pub is_closed : Bool
  pub ctx_err : Option Cause
  pub errors : List String
  pub partitions : List (List (Fetched Bytes))
  pub failed_keys : List String

-- What the loop does: it logs a fetch error, calls `Produce` with a dead letter, commits records, or
-- commits the marked offsets on the way out; and what the callback of `Produce` does: it logs the key
-- of a dead letter that could not be published.
pub data Effect (Bytes : Type 0) : Type 0 where
  logged : String → Effect Bytes
  enqueued : DeadLetter Bytes → Effect Bytes
  publish_failed : String → Effect Bytes
  committed : List (Fetched Bytes) → Effect Bytes
  drained : Effect Bytes

-- `recordsOf`
unfoldable pub records_of : {Bytes : Type 0} → List (List (Fetched Bytes)) → List (Fetched Bytes)
records_of [] = []
records_of (p ∷ ps) = p ++ records_of ps

unfoldable pub is_some : Option Cause → Bool
is_some none = false
is_some (some e) = true

module _ {Bytes : Type 0} (to_text : Bytes → String) (to_bytes : String → Bytes)
    (error_text : Cause → String) (now : String) (topic : String) where
  -- the loop of `adapt` over the headers: a later one overwrites an earlier
  unfoldable pub adapt_headers :
      List (String × Bytes) → List (String × String) → List (String × String)
  adapt_headers [] m = m
  adapt_headers ((k, v) ∷ hs) m = adapt_headers hs (Dict.insert str_dec k (to_text v) m)

  -- `adapt`
  unfoldable pub adapt : Rec Bytes → Message Bytes
  unfolding adapt_headers
  adapt rec = record {
    key = to_text rec.key;
    value = rec.value;
    headers = adapt_headers rec.headers [];
  }

  -- the record of `toDeadLetter`; `NewConsumer` sets the topic
  unfoldable pub dead_letter : Message Bytes → Cause → DeadLetter Bytes
  dead_letter msg cause = record {
    topic = topic +++ ".DLQ";
    key = to_bytes msg.key;
    value = msg.value;
    headers =
        ("dlq_error", to_bytes (error_text cause))
        ∷ ("dlq_at", to_bytes now)
        ∷ ("dlq_service", to_bytes "order-processor")
        ∷ map (λ h. ("orig_" +++ h.0, to_bytes h.1)) msg.headers;
  }

  -- the calls of `toDeadLetter` in a partition, each one call of `Produce`
  unfoldable pub publish : List (Rec Bytes × Cause) → List (Effect Bytes)
  unfolding dead_letter adapt
  publish [] = []
  publish ((rec, cause) ∷ rest) = enqueued (dead_letter (adapt rec) cause) ∷ publish rest

  -- `EachPartition` with `processPartition`
  unfoldable pub process_all : ℕ → List (List (Fetched Bytes)) → List (Effect Bytes)
  unfolding publish
  process_all max_attempts [] = []
  process_all max_attempts (p ∷ ps) =
      publish (process_partition max_attempts p).0 ++ process_all max_attempts ps

  -- the body of the loop after the check
  unfoldable pub batch : ℕ → Poll Bytes → List (Effect Bytes)
  unfolding process_all records_of
  batch max_attempts p =
      map (λ e. logged e) p.errors
      ++ ((process_all max_attempts p.partitions ++ map (λ k. publish_failed k) p.failed_keys)
          ++ committed (records_of p.partitions) ∷ [])

  -- `Run`, on the polls that it makes: its effects, and what it returns once it ends
  unfoldable pub run : ℕ → List (Poll Bytes) → List (Effect Bytes) × Option (Option Cause)
  unfolding batch is_some
  run max_attempts [] = ([], none)
  run max_attempts (p ∷ ps) =
      let (effects, result) = run max_attempts ps in
      if p.is_closed || is_some p.ctx_err
      then (drained ∷ [], some p.ctx_err)
      else (batch max_attempts p ++ effects, result)
