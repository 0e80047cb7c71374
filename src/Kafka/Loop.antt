-- ===== src/Kafka/Loop.antt =====
-- 18-kafka-with-go/examples/consumer.go: `Run` processes before it commits.
use Prim.Native.String.{String}
use go_handbook_for_software.Base.{ℕ, ◌≡◌, Bool, true, false, List, ◌∷◌, ◌++◌, none, map, All}
use go_handbook_for_software.Kafka.{Cause, process_partition}
use go_handbook_for_software.Kafka.Consumer.{
  Fetched, Poll, Effect, logged, enqueued, publish_failed, committed, drained, is_some, publish,
  process_all, records_of, batch, run,
}
use go_handbook_for_software.Kafka.Commits.{
  In, first, In-append_left, In-append_right, IsSettled, IsCovered, IsUncut,
}

module _ {Bytes : Type 0} where
  abbrev is_commit : Effect Bytes → Bool
  is_commit (logged t) = false
  is_commit (enqueued l) = false
  is_commit (publish_failed k) = false
  is_commit (committed rs) = true
  is_commit drained = false

  abbrev NoCommit : List (Effect Bytes) → Type 0
  NoCommit es = All (λ e. is_commit e ≡ false) es

module _ {Bytes : Type 0} (to_text : Bytes → String) (to_bytes : String → Bytes)
    (error_text : Cause → String) (now : String) (topic : String) (max_attempts : ℕ) where
  abbrev Covered : List (Effect Bytes) → List (Effect Bytes) → Type 0
  Covered = IsCovered to_text to_bytes error_text now topic max_attempts

  abbrev Settled : List (Effect Bytes) → Fetched Bytes → Type 0
  Settled = IsSettled to_text to_bytes error_text now topic max_attempts

  abbrev processed : List (List (Fetched Bytes)) → List (Effect Bytes)
  processed = process_all to_text to_bytes error_text now topic max_attempts

  abbrev Uncut : List (Fetched Bytes) → Type 0
  Uncut = IsUncut to_text to_bytes error_text now topic max_attempts

  abbrev sent : List (Fetched Bytes) → List (Effect Bytes)
  sent p = publish to_text to_bytes error_text now topic (process_partition max_attempts p).0

  -- An iteration of the loop asks for a commit of every record of its poll, those included whose
  -- attempts a cancelation cut off, those after them, which were never tried, and those whose dead
  -- letter could not be published.
  pub run-commits_all :
      (p : Poll Bytes) (ps : List (Poll Bytes))
      → p.is_closed ≡ false
      → p.ctx_err ≡ none
      → In
          (committed (records_of p.partitions))
          (run to_text to_bytes error_text now topic max_attempts (p ∷ ps)).0
  unfolding run batch is_some
  run-commits_all p ps c d =
      rw (c, d)
        (In-append_left (run to_text to_bytes error_text now topic max_attempts ps).0 (
          In-append_right (map (λ e. logged e) p.errors) (
            In-append_right (processed p.partitions ++ map (λ k. publish_failed k) p.failed_keys)
              first)))
