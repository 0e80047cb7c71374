-- ===== src/Bank/Transactions.antt =====
-- 13-databases/examples/bank/postgres.go: what a transaction leaves in the database, and in the pool.
use go_handbook_for_software.Base.{
  ℕ, ◌+◌, ◌≡◌, ◌≢◌, refl, sym, ap, ◌∙◌, arith, subst, Bool, true, Option, none, some, String,
  Result, ok, err,
}
use go_handbook_for_software.Bank.Postgres.{
  Failure, Db, Body, returned, panicked, TxEnd, done, repanicked, committed, end_tx, run_tx,
  within_tx,
}

-- What is seen of a state: the committed data, what a transaction would commit, whether it is open,
-- and how many connections of the pool are leased.
pub record View (S T D : Type 0) : Type 0 where
  pub data_of : S → D
  pub draft : T → S → D
  pub is_open : T → S → Bool
  pub leases : S → ℕ

-- From one state to another, the committed data stays and the leases change as `change` says.
pub record Keeps {S T D : Type 0} (view : View S T D) (s s' : S) (change : ℕ → ℕ → Type 0)
    : Type 0 where
  pub data_kept : view.data_of s' ≡ view.data_of s
  pub leased : change (view.leases s) (view.leases s')

abbrev pub Same : ℕ → ℕ → Type 0
Same n n' = n' ≡ n

abbrev pub Taken : ℕ → ℕ → Type 0
Taken n n' = n' ≡ n + 1

abbrev pub Released : ℕ → ℕ → Type 0
Released n n' = n' + 1 ≡ n

-- What database/sql documents of a transaction. It leases a connection from BeginTx until Commit or
-- Rollback; Commit, unless it fails, makes its draft the data; the others leave the data alone.
pub record IsTransactional {S T D : Type 0} (db : Db S T) (view : View S T D) : Type 0 where
  pub begins :
      (s s' : S) (t : T)
      → db.begin_tx s ≡ (s', ok t)
      → Keeps view s s' Taken × (view.draft t s' ≡ view.data_of s) × (view.is_open t s' ≡ true)
  pub not_begun : (s s' : S) (e : String) → db.begin_tx s ≡ (s', err e) → Keeps view s s' Same
  pub rolls_back :
      (t : T) (s : S) → view.is_open t s ≡ true → Keeps view s (db.rollback t s) Released
  pub commits :
      (t : T) (s s' : S)
      → view.is_open t s ≡ true
      → db.commit t s ≡ (s', none)
      → (view.data_of s' ≡ view.draft t s) × Released (view.leases s) (view.leases s')
  pub not_committed :
      (t : T) (s s' : S) (e : String)
      → view.is_open t s ≡ true
      → db.commit t s ≡ (s', some e)
      → Keeps view s s' Released

-- A function of a transaction works in it only: it neither ends it nor touches data or pool otherwise.
abbrev pub IsConfined : {S T D X : Type 0} → View S T D → (T → S → S × X) → Type 0
IsConfined {S} {T} view fn =
    (t : T) (s : S)
    → view.is_open t s ≡ true
    → Keeps view s (fn t s).0 Same × (view.is_open t (fn t s).0 ≡ true)

done-injective : {A : Type 0} {a a' : A} → Path (TxEnd A) (done (ok a)) (done (ok a')) → a ≡ a'
done-injective e = cc

module _ {S T D : Type 0} (db : Db S T) (view : View S T D) {A : Type 0} (fn : T → S → S × Body A)
    (s : S) where
  -- A function that returned `a` in a transaction begun on `s`, and what it would commit.
  pub record IsStored (a : A) (d : D) : Type 0 where
    pub tx : T
    pub start : S
    pub begun : db.begin_tx s ≡ (start, ok tx)
    pub ran : (fn tx start).1 ≡ returned (ok a)
    pub stored : d ≡ view.draft tx (fn tx start).0

  -- What a call of `withinTx` on `s` comes to.
  pub record AllOrNothing (out : S × TxEnd A) : Type 0 where
    pub released : view.leases out.0 ≡ view.leases s
    pub nothing : ((a : A) → out.1 ≢ done (ok a)) → view.data_of out.0 ≡ view.data_of s
    pub everything : (a : A) → out.1 ≡ done (ok a) → IsStored a (view.data_of out.0)
    pub panics :
        (t : T) (s' : S) → db.begin_tx s ≡ (s', ok t) → (fn t s').1 ≡ panicked → out.1 ≡ repanicked
    pub fails :
        (t : T) (s' : S) (e : Failure)
        → db.begin_tx s ≡ (s', ok t)
        → (fn t s').1 ≡ returned (err e)
        → out.1 ≡ done (err e)

module _ {S T D : Type 0} (db : Db S T) (view : View S T D) (laws : IsTransactional db view)
    {A : Type 0} (fn : T → S → S × Body A) (confined : IsConfined view fn) (s : S) where
  abbrev Decided : S × TxEnd A → Type 0
  Decided = AllOrNothing db view fn s

  module _ (t : T) (s1 : S) (b : db.begin_tx s ≡ (s1, ok t)) where
    -- what the function leaves, and what an end without a commit leaves
    inside :
        (s2 : S) (x : Body A)
        → fn t s1 ≡ (s2, x)
        → Keeps view s1 s2 Same × (view.is_open t s2 ≡ true)
    inside s2 x f =
        subst (λ q. Keeps view s1 q Same × (view.is_open t q ≡ true)) (ap (λ y. y.0) f)
          (confined t s1 (laws.begins s s1 t b).2)

    kept :
        (s2 s3 : S) (x : Body A)
        → fn t s1 ≡ (s2, x)
        → Keeps view s2 s3 Released
        → (view.leases s3 ≡ view.leases s) × (view.data_of s3 ≡ view.data_of s)
    kept s2 s3 x f k =
        let begun = (laws.begins s s1 t b).0 in
        let ran = (inside s2 x f).0 in
        (
          omega (arith, k.leased, ran.leased, begun.leased),
          k.data_kept ∙ (ran.data_kept ∙ begun.data_kept),
        )

    undone :
        (s2 : S) (x : Body A)
        → fn t s1 ≡ (s2, x)
        → (view.leases (db.rollback t s2) ≡ view.leases s)
          × (view.data_of (db.rollback t s2) ≡ view.data_of s)
    undone s2 x f = kept s2 (db.rollback t s2) x f (laws.rolls_back t s2 (inside s2 x f).1)

    -- only one transaction is begun on `s`
    answer :
        (x : S × Body A)
        → fn t s1 ≡ x
        → (t' : T) (s' : S) → db.begin_tx s ≡ (s', ok t')
        → (fn t' s').1 ≡ x.1
    answer x f t' s' b' = let same : fn t' s' ≡ x = cc in ap (λ y. y.1) same

    after_commit :
        (a : A) (s2 : S) (c : S × Option String)
        → fn t s1 ≡ (s2, returned (ok a))
        → db.commit t s2 ≡ c
        → Decided (committed db a c)
    unfolding committed
    after_commit a s2 (s3, none) f c =
        let begun = (laws.begins s s1 t b).0 in
        let (ran, live) = inside s2 (returned (ok a)) f in
        let (stored, ended) = laws.commits t s2 s3 live c in
        record {
          released = omega (arith, ended, ran.leased, begun.leased);
          nothing = λ n. absurd (n a refl);
          everything = λ a' e. record {
            tx = t;
            start = s1;
            begun = b;
            ran = ap (λ y. y.1) f ∙ ap (λ x. returned (ok x)) (done-injective e);
            stored = stored ∙ ap (λ y. view.draft t y.0) (sym f);
          };
          panics = λ t' s' b' p. let q = answer _ f t' s' b' in absurd cc;
          fails = λ t' s' e b' p. let q = answer _ f t' s' b' in absurd cc;
        }
    after_commit a s2 (s3, some e) f c =
        let live = (inside s2 (returned (ok a)) f).1 in
        let (l, d) = kept s2 s3 (returned (ok a)) f (laws.not_committed t s2 s3 e live c) in
        record {
          released = l;
          nothing = λ n. d;
          everything = λ a' e'. absurd cc;
          panics = λ t' s' b' p. let q = answer _ f t' s' b' in absurd cc;
          fails = λ t' s' e' b' p. let q = answer _ f t' s' b' in absurd cc;
        }

    after_fn : (x : S × Body A) → fn t s1 ≡ x → Decided (end_tx db t x)
    unfolding end_tx
    after_fn (s2, panicked) f =
        let (l, d) = undone s2 panicked f in
        record {
          released = l;
          nothing = λ n. d;
          everything = λ a e. absurd cc;
          panics = λ t' s' b' p. refl;
          fails = λ t' s' e b' p. let q = answer _ f t' s' b' in absurd cc;
        }
    after_fn (s2, returned (err e')) f =
        let (l, d) = undone s2 (returned (err e')) f in
        record {
          released = l;
          nothing = λ n. d;
          everything = λ a e. absurd cc;
          panics = λ t' s' b' p. let q = answer _ f t' s' b' in absurd cc;
          fails = λ t' s' e b' p. let q = answer _ f t' s' b' in cc;
        }
    after_fn (s2, returned (ok a)) f = after_commit a s2 (db.commit t s2) f refl

  after_begin : (x : S × Result String T) → db.begin_tx s ≡ x → Decided (run_tx db fn x)
  unfolding run_tx
  after_begin (s1, ok t) b = after_fn t s1 b (fn t s1) refl
  after_begin (s1, err e) b =
      let k = laws.not_begun s s1 e b in
      record {
        released = k.leased;
        nothing = λ n. k.data_kept;
        everything = λ a p. absurd cc;
        panics = λ t' s' b' p. absurd cc;
        fails = λ t' s' e' b' p. absurd cc;
      }

  -- A transaction is all or nothing, and it is always ended. Whatever the function does inside it:
  -- afterwards as many connections are leased as before. If `withinTx` returns an error or panics, the
  -- committed data is as it was; if it returns without an error, the function returned so in a
  -- transaction begun on this state, and the data is what that transaction had made of it. A panic and
  -- an error of the function are passed on. The database is taken to do what database/sql documents of
  -- transactions, and the function to work inside its transaction only.
  pub within_tx_decides : AllOrNothing db view fn s (within_tx db fn s)
  unfolding within_tx
  within_tx_decides = after_begin (db.begin_tx s) refl
