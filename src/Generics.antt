-- ===== src/Generics.antt =====
-- 07-generics/examples/genlib/genlib.go. An ordered type comes with its test `a < b`, a numeric one
-- with its zero and its sum, a comparable one with its equality. A cache's map is `none` while it is
-- nil. `Retry` meets an environment, attempt by attempt; its loop has no bound, so it takes fuel.
pub mod Collections
pub mod Patience
mod Tests
use go_handbook_for_software.Base.{
  ℕ, zero, suc, ◌+◌, Bool, true, false, List, [], ◌∷◌, ◌++◌, ite, str_dec, Option, none, some,
  Result, ok, err, String, if◌then◌else◌,
}
use go_handbook_for_software.Base.Int64
use go_handbook_for_software.Base.Dict

-- `Max`
unfoldable pub max_of : {T : Type 0} → (T → T → Bool) → T → T → T
max_of less a b = if less a b then b else a

-- the loop of `Sum`
unfoldable pub sum_loop : {V : Type 0} → (V → V → V) → V → List V → V
sum_loop add total [] = total
sum_loop add total (x ∷ xs) = sum_loop add (add total x) xs

-- `Sum`
unfoldable pub sum_of : {V : Type 0} → V → (V → V → V) → List V → V
sum_of zero_value add xs = sum_loop add zero_value xs

-- the loop of `DedupIDs`: the set `seen` and the slice `out`
unfoldable pub dedup_loop : List String → List (String × Unit {0}) → List String → List String
dedup_loop [] seen out = out
dedup_loop (id ∷ ids) seen out = elim (Dict.lookup str_dec id seen) [
  | some _ ↦ dedup_loop ids seen out
  | none ↦ dedup_loop ids (Dict.insert str_dec id tt seen) (out ++ id ∷ [])
]

-- `DedupIDs`
unfoldable pub dedup_ids : List String → List String
dedup_ids ids = dedup_loop ids [] []

-- a read of a map of slices: a missing key reads as the nil slice
unfoldable pub bucket : {E : Type 0} → Option (List E) → List E
bucket none = []
bucket (some l) = l

module _ {E K : Type 0} (dec : Discrete K) (key : E → K) where
  -- the loop of `GroupBy`
  unfoldable pub group_loop : List E → List (K × List E) → List (K × List E)
  group_loop [] out = out
  group_loop (e ∷ s) out =
      group_loop s (Dict.insert dec (key e) (bucket (Dict.lookup dec (key e) out) ++ e ∷ []) out)

  -- `GroupBy`
  unfoldable pub group_by : List E → List (K × List E)
  group_by s = group_loop s []

-- the loop of `Map`
unfoldable pub map_loop : {E R : Type 0} → (E → R) → List E → List R → List R
map_loop f [] out = out
map_loop f (e ∷ s) out = map_loop f s (out ++ f e ∷ [])

-- `Map`
unfoldable pub map_slice : {E R : Type 0} → List E → (E → R) → List R
map_slice s f = map_loop f s []

-- `Stack`: the top is the last item
pub record Stack (T : Type 0) : Type 0 where
  pub items : List T

-- `Stack.Push`
unfoldable pub push : {T : Type 0} → T → Stack T → Stack T
push v s = record { items = s.items ++ v ∷ [] }

-- the last item, and the items before it
unfoldable pub split_last : {T : Type 0} → T → List T → List T × T
split_last x [] = ([], x)
split_last x (y ∷ ys) = let (before, last) = split_last y ys in (x ∷ before, last)

pop_items : {T : Type 0} → List T → Stack T × Option T
pop_items [] = (record { items = [] }, none)
pop_items (x ∷ xs) = let (before, last) = split_last x xs in (record { items = before }, some last)

-- `Stack.Pop`
unfoldable pub pop : {T : Type 0} → Stack T → Stack T × Option T
unfolding pop_items split_last
pop s = pop_items s.items

-- `Cache`
pub record Cache (K V : Type 0) : Type 0 where
  pub items : Option (List (K × V))

abbrev pub new_cache : {K V : Type 0} → Cache K V
new_cache = record { items = some [] }

allocated : {K V : Type 0} → Option (List (K × V)) → List (K × V)
allocated none = []
allocated (some m) = m

-- `Cache.Put`, with its lazy allocation
unfoldable pub put : {K V : Type 0} → Discrete K → K → V → Cache K V → Cache K V
unfolding allocated
put dec k v c = record { items = some (Dict.insert dec k v (allocated c.items)) }

-- `Cache.Get`: a read of a nil map finds nothing
unfoldable pub get : {K V : Type 0} → Discrete K → K → Cache K V → Option V
unfolding allocated
get dec k c = Dict.lookup dec k (allocated c.items)

-- What an attempt of `Retry` meets: the operation's value or error, the context's error after it
-- (`none` while the context is live), the delay that `next` answers (an `int64` pattern), and the
-- context's error if it dies during the delay.
pub record Attempt (E T : Type 0) : Type 0 where
  pub result : Result E T
  pub dead : Option E
  pub delay : ℕ
  pub dies : Option E

-- the loop of `Retry` from an attempt on: the value or the error returned, with the number of calls of
-- the operation; `none` if the fuel runs out
unfoldable pub retry_loop : {E T : Type 0} → (ℕ → Attempt E T) → ℕ → ℕ → Option (Result E T × ℕ)
retry_loop env zero attempt = none
retry_loop env (suc fuel) attempt =
    let again = retry_loop env fuel (attempt + 1) in
    elim ((env attempt).result) [
      | ok v ↦ some (ok v, attempt + 1)
      | err e ↦ elim ((env attempt).dead) [
        | some c ↦ some (err c, attempt + 1)
        | none ↦
            if Int64.le (env attempt).delay 0
            then some (err e, attempt + 1)
            else elim ((env attempt).dies) [ some c ↦ some (err c, attempt + 1) | none ↦ again ]
      ]
    ]

-- `Retry`
unfoldable pub retry : {E T : Type 0} → (ℕ → Attempt E T) → ℕ → Option (Result E T × ℕ)
retry env fuel = retry_loop env fuel 0
