-- ===== src/Kafka/Commits.antt =====
-- 18-kafka-with-go/examples/consumer.go: what stands before a commit in the loop's effects.
use Prim.Native.String.{String}
use go_handbook_for_software.Base.{
  ℕ, ◌≡◌, ◌≢◌, refl, subst, List, [], ◌∷◌, ◌++◌, append-nil, All, ◌⊎◌, inl, inr,
}
use go_handbook_for_software.Kafka.{
  Cause, Try, RecordEnd, acknowledged, canceled_early, to_dead_letter,
}
use go_handbook_for_software.Kafka.Partition.{end_of, letters_of, letter}
use go_handbook_for_software.Kafka.Consumer.{
  Rec, DeadLetter, Fetched, Effect, logged, enqueued, publish_failed, committed, drained, adapt,
  dead_letter, publish,
}

-- an element stands in a list
pub data In {A : Type 0} (x : A) : List A → Type 0 where
  first : {xs : List A} → In x (x ∷ xs)
  later : {y : A} {xs : List A} → In x xs → In x (y ∷ xs)

pub In-append_left : {A : Type 0} {x : A} {xs : List A} (ys : List A) → In x xs → In x (xs ++ ys)
In-append_left ys first = first
In-append_left ys (later i) = later (In-append_left ys i)

pub In-append_right : {A : Type 0} {x : A} (xs : List A) {ys : List A} → In x ys → In x (xs ++ ys)
In-append_right [] i = i
In-append_right (y ∷ xs) i = later (In-append_right xs i)

module _ {Bytes : Type 0} (to_text : Bytes → String) (to_bytes : String → Bytes)
    (error_text : Cause → String) (now : String) (topic : String) (max_attempts : ℕ) where
  -- The handler acknowledged the record, or `Produce` has been called with its dead letter.
  unfoldable pub IsSettled : List (Effect Bytes) → Fetched Bytes → Type 0
  IsSettled seen r =
      (end_of max_attempts r ≡ acknowledged)
      ⊎ ((e : Cause) × (end_of max_attempts r ≡ to_dead_letter e)
          × In
              (enqueued (
                dead_letter to_text to_bytes error_text now topic
                  (adapt to_text to_bytes error_text now topic r.0) e))
              seen)

  -- Each record of a commit is settled by the effects before it.
  unfoldable pub IsCovered : List (Effect Bytes) → List (Effect Bytes) → Type 0
  unfolding IsSettled
  IsCovered seen [] = Unit
  IsCovered seen (committed rs ∷ es) =
      All (IsSettled seen) rs × IsCovered (seen ++ committed rs ∷ []) es
  IsCovered seen (logged t ∷ es) = IsCovered (seen ++ logged t ∷ []) es
  IsCovered seen (publish_failed k ∷ es) = IsCovered (seen ++ publish_failed k ∷ []) es
  IsCovered seen (enqueued l ∷ es) = IsCovered (seen ++ enqueued l ∷ []) es
  IsCovered seen (drained ∷ es) = IsCovered (seen ++ drained ∷ []) es

  abbrev pub letter_of : Rec Bytes → Cause → DeadLetter Bytes
  letter_of rec =
      dead_letter to_text to_bytes error_text now topic
        (adapt to_text to_bytes error_text now topic rec)

  abbrev pub published : List (Rec Bytes × Cause) → List (Effect Bytes)
  published = publish to_text to_bytes error_text now topic

  weaken :
      (xs seen ys : List (Effect Bytes)) (r : Fetched Bytes)
      → IsSettled seen r
      → IsSettled (xs ++ (seen ++ ys)) r
  unfolding IsSettled
  weaken xs seen ys r (inl a) = inl a
  weaken xs seen ys r (inr (e, p, i)) = inr (e, p, In-append_right xs (In-append_left ys i))

  pub weaken_all :
      (xs seen ys : List (Effect Bytes)) (rs : List (Fetched Bytes))
      → All (IsSettled seen) rs
      → All (IsSettled (xs ++ (seen ++ ys))) rs
  weaken_all xs seen ys [] h = tt
  weaken_all xs seen ys (r ∷ rs) h = (weaken xs seen ys r h.0, weaken_all xs seen ys rs h.1)

  IsSettled-head :
      (rec : Rec Bytes) (env : ℕ → Try) (ls : List (Rec Bytes × Cause)) (end : RecordEnd)
      → end_of max_attempts (rec, env) ≡ end
      → end ≢ canceled_early
      → IsSettled (published (letter max_attempts rec end ls)) (rec, env)
  unfolding IsSettled letter publish
  IsSettled-head rec env ls acknowledged p n = inl p
  IsSettled-head rec env ls canceled_early p n = absurd (n refl)
  IsSettled-head rec env ls (to_dead_letter e) p n = inr (e, p, first)

  IsSettled-tail :
      (rec : Rec Bytes) (ls : List (Rec Bytes × Cause)) (end : RecordEnd)
      (rs : List (Fetched Bytes))
      → All (IsSettled (published ls)) rs
      → All (IsSettled (published (letter max_attempts rec end ls))) rs
  unfolding letter publish
  IsSettled-tail rec ls acknowledged rs h = h
  IsSettled-tail rec ls canceled_early rs h = h
  IsSettled-tail rec ls (to_dead_letter e) rs h =
      subst (λ l. All (IsSettled (enqueued (letter_of rec e) ∷ l)) rs) (append-nil (published ls))
        (weaken_all (enqueued (letter_of rec e) ∷ []) (published ls) [] rs h)

  -- no record of the partition is cut off by a cancelation
  abbrev pub IsUncut : List (Fetched Bytes) → Type 0
  IsUncut p = All (λ r. end_of max_attempts r ≢ canceled_early) p

  pub IsSettled-partition :
      (p : List (Fetched Bytes))
      → IsUncut p
      → All (IsSettled (published (letters_of max_attempts p))) p
  unfolding letters_of
  IsSettled-partition [] h = tt
  IsSettled-partition ((rec, env) ∷ rs) h = (
    IsSettled-head rec env (letters_of max_attempts rs) (end_of max_attempts (rec, env)) refl h.0,
    IsSettled-tail rec (letters_of max_attempts rs) (end_of max_attempts (rec, env)) rs
        (IsSettled-partition rs h.1),
  )
