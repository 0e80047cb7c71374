-- ===== src/Kafka/Partition.antt =====
-- `processPartition`: the attempts at one record, and the dead letters of a partition.
use native.Mathlib.Nat.{add-zero, zero-add, suc-add}
use go_handbook_for_software.Base.{
  ℕ, zero, suc, ◌+◌, ◌≤◌, ◌<◌, ◌≡◌, ◌≢◌, refl, sym, subst, true, false, List, [], ◌∷◌, Option, none,
  some, arith, All, Option-cases, inl, inr,
}
use go_handbook_for_software.Kafka.{
  Cause, as_terminal, Try, RecordEnd, acknowledged, canceled_early, to_dead_letter, attempt_record,
  process_partition,
}

module _ (env : ℕ → Try) where
  -- the attempt fails in a way that may be retried, and its backoff ends
  abbrev pub GoesOn : ℕ → Type 0
  GoesOn k =
      (e : Cause) × ((env k).result ≡ some e) × (as_terminal e ≡ false) × ((env k).canceled ≡ false)

  -- after `m` attempts that go on, the loop stands at the next one
  after_retries :
      (m left k : ℕ) (last : Option Cause) (end : RecordEnd) (calls : ℕ)
      → ((i : ℕ) → i < m → GoesOn (k + i))
      → ((last' : Option Cause) → attempt_record env (suc left) (k + m) last' ≡ (end, calls))
      → attempt_record env (m + suc left) k last ≡ (end, m + calls)
  unfolding attempt_record
  after_retries zero left k last end calls g h =
      rw (zero-add, zero-add)
        (subst (λ n. attempt_record env (suc left) n last ≡ (end, calls)) (add-zero k) (h last))
  after_retries (suc m) left k last end calls g h =
      let (e, p, t, c) = subst GoesOn (add-zero k) (g 0 (omega arith)) in
      let ih =
        after_retries m left (k + 1) (some e) end calls
          (λ i l. subst GoesOn (shift i) (g (suc i) (omega arith)))
          (λ last'.
            subst (λ n. attempt_record env (suc left) n last' ≡ (end, calls)) (shift m)
              (h last')) in
      rw (suc-add, suc-add) (ground (arith, p, t, c, ih))
    where
      shift : (i : ℕ) → k + suc i ≡ k + 1 + i
      shift i = omega arith

  calls-le : (left k : ℕ) (last : Option Cause) → (attempt_record env left k last).1 ≤ left
  unfolding attempt_record
  calls-le zero k last = omega arith
  calls-le (suc left) k last = elim (Option-cases ((env k).result)) [
    | inl p ↦ ground (arith, p)
    | inr (e, p) ↦ ground (arith, p, calls-le left (k + 1) (some e))
  ]

  at_success :
      (left k : ℕ) (last : Option Cause)
      → (env k).result ≡ none
      → attempt_record env (suc left) k last ≡ (acknowledged, 1)
  unfolding attempt_record
  at_success left k last p = ground (arith, p)

  at_terminal :
      (left k : ℕ) (last : Option Cause) (e : Cause)
      → (env k).result ≡ some e
      → as_terminal e ≡ true
      → attempt_record env (suc left) k last ≡ (to_dead_letter e, 1)
  unfolding attempt_record
  at_terminal left k last e p t = ground (arith, p, t)

  at_last :
      (k : ℕ) (last : Option Cause) (e : Cause)
      → (env k).result ≡ some e
      → as_terminal e ≡ false
      → (env k).canceled ≡ false
      → attempt_record env 1 k last ≡ (to_dead_letter e, 1)
  unfolding attempt_record
  at_last k last e p t c = ground (arith, p, t, c)

  -- The handler is called at most `maxAttempts` times for a record. After `m` failures that go on,
  -- with the next attempt still below the cap: a success acknowledges the record; a terminal error
  -- sends it to the dead-letter queue with no further attempt; and so does a retryable error of the
  -- last attempt, if the context is live.
  pub attempt_record_lem :
      (m left : ℕ)
      → ((i : ℕ) → i < m → GoesOn i)
      → ((attempt_record env (m + suc left) 0 none).1 ≤ m + suc left)
        × ((env m).result ≡ none → attempt_record env (m + suc left) 0 none ≡ (acknowledged, m + 1))
        × ((e : Cause)
            → (env m).result ≡ some e
            → as_terminal e ≡ true
            → attempt_record env (m + suc left) 0 none ≡ (to_dead_letter e, m + 1))
        × ((e : Cause)
            → (env m).result ≡ some e
            → as_terminal e ≡ false
            → (env m).canceled ≡ false
            → attempt_record env (m + 1) 0 none ≡ (to_dead_letter e, m + 1))
  attempt_record_lem m left g =
      let g' = λ (i : ℕ) (l : i < m). subst GoesOn (sym (zero-add i)) (g i l) in
      let at = λ (P : ℕ → Type 0) (h : P m). subst P (sym (zero-add m)) h in
      (
        calls-le (m + suc left) 0 none,
        λ p.
            after_retries m left 0 none acknowledged 1 g'
              (λ last. at_success left (0 + m) last (at (λ n. (env n).result ≡ none) p)),
        λ e p t.
            after_retries m left 0 none (to_dead_letter e) 1 g'
              (λ last. at_terminal left (0 + m) last e (at (λ n. (env n).result ≡ some e) p) t),
        λ e p t c. after_retries m 0 0 none (to_dead_letter e) 1 g' (λ last.
            at_last (0 + m) last e (at (λ n. (env n).result ≡ some e) p) t
              (at (λ n. (env n).canceled ≡ false) c)),
      )

module _ {ℓ} {R : Type ℓ} (max_attempts : ℕ) where
  -- how the attempts at a record end
  abbrev pub end_of : R × (ℕ → Try) → RecordEnd
  end_of r = (attempt_record r.1 max_attempts 0 none).0

  unfoldable pub letter : R → RecordEnd → List (R × Cause) → List (R × Cause)
  letter rec acknowledged ls = ls
  letter rec canceled_early ls = ls
  letter rec (to_dead_letter e) ls = (rec, e) ∷ ls

  -- the records that end in a dead letter, each once, in their order
  unfoldable pub letters_of : List (R × (ℕ → Try)) → List (R × Cause)
  letters_of [] = []
  letters_of (r ∷ rs) = letter r.0 (end_of r) (letters_of rs)

  partition-step :
      (rec : R) (env : ℕ → Try) (rs : List (R × (ℕ → Try))) (end : RecordEnd)
      → end_of (rec, env) ≡ end
      → end ≢ canceled_early
      → process_partition max_attempts rs ≡ (letters_of rs, true)
      → process_partition max_attempts ((rec, env) ∷ rs) ≡ (letter rec end (letters_of rs), true)
  unfolding process_partition letter
  partition-step rec env rs acknowledged p n ih = rw (p, process_partition) ih
  partition-step rec env rs canceled_early p n ih = absurd (n refl)
  partition-step rec env rs (to_dead_letter e) p n ih = rw (p, process_partition) (rw ih)

  -- Where no record's attempts are cut off by cancelation, the partition is processed to its last
  -- record, and exactly the records whose attempts end so are dead-lettered, once each and in order:
  -- no record is skipped.
  pub process_partition_lem :
      (rs : List (R × (ℕ → Try)))
      → All (λ r. end_of r ≢ canceled_early) rs
      → process_partition max_attempts rs ≡ (letters_of rs, true)
  unfolding letters_of process_partition
  process_partition_lem [] h = refl
  process_partition_lem ((rec, env) ∷ rs) h =
      partition-step rec env rs (end_of (rec, env)) refl h.0 (process_partition_lem rs h.1)
