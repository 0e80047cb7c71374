-- ===== src/Ring.antt =====
-- 03-data-structures/examples/ring/ring.go: the fixed-capacity Ring with drop-oldest eviction, and
-- the RecentKeys window over it. `default` is the zero value of the element type. An index out of
-- range, which would panic in Go, reads as `default` here and writes nothing; the indices of a valid
-- ring (Ring.Queue) are in range. Indices stay below twice the capacity, so `int` does not overflow.
pub mod Indices
pub mod Queue
pub mod Window
mod Tests
use go_handbook_for_software.Base.{
  ℕ, zero, suc, ◌+◌, ◌-◌, ◌%◌, Bool, true, false, List, [], ◌∷◌, Option, none, some, String,
  str_dec, if◌then◌else◌, ltb, ◌==◌, length, get_or, set, replicate,
}
use go_handbook_for_software.Base.Dict

pub record Ring {ℓ} (T : Type ℓ) : Type ℓ where
  pub items : List T
  pub head : ℕ
  pub count : ℕ

module _ {ℓ} {T : Type ℓ} (default : T) where
  -- `NewRing`
  unfoldable pub new_ring : ℕ → Ring T
  new_ring capacity =
      let n = if ltb capacity 1 then 1 else capacity in
      record { items = replicate n default; head = 0; count = 0 }

  -- the branch of `Push` for a full ring
  unfoldable pub drop_oldest : Ring T → Ring T × Option T
  drop_oldest r =
      if r.count == length r.items
      then (
        record {
          items = set r.items r.head default;
          head = (r.head + 1) % length r.items;
          count = r.count - 1;
        },
        some (get_or r.items r.head default),
      )
      else (r, none)

  -- `Ring.Push`; `none` is `didEvict == false`
  unfoldable pub push : Ring T → T → Ring T × Option T
  unfolding drop_oldest
  push r v =
      let (r', evicted) = drop_oldest r in
      let tail = (r'.head + r'.count) % length r'.items in
      (record r' { items = set r'.items tail v; count = r'.count + 1 }, evicted)

  -- `Ring.Pop`
  unfoldable pub pop : Ring T → Ring T × Option T
  pop r = if r.count == 0 then (r, none) else (
    record {
      items = set r.items r.head default;
      head = (r.head + 1) % length r.items;
      count = r.count - 1;
    },
    some (get_or r.items r.head default),
  )

  -- `Ring.Peek`
  unfoldable pub peek : Ring T → Option T
  peek r = if r.count == 0 then none else some (get_or r.items r.head default)

abbrev pub len {ℓ} : {T : Type ℓ} → Ring T → ℕ
len r = r.count

abbrev pub cap {ℓ} : {T : Type ℓ} → Ring T → ℕ
cap r = length r.items

module _ {ℓ} {T U : Type ℓ} (default : T) (default' : U) where
  -- the loop of `Ring.Map`: `left` is `r.count - i`
  unfoldable pub map_loop : Ring T → (T → U) → ℕ → ℕ → Ring U → Ring U
  map_loop r f zero i out = out
  map_loop r f (suc left) i out =
      let idx = (r.head + i) % length r.items in
      map_loop r f left (i + 1) (push default' out (f (get_or r.items idx default))).0

  -- `Ring.Map`
  unfoldable pub map_ring : Ring T → (T → U) → Ring U
  map_ring r f = map_loop r f r.count 0 (new_ring default' (length r.items))

-- `RecentKeys`: the ring, and the set of its keys
pub record RecentKeys : Type 0 where
  pub ring : Ring String
  pub seen : List (String × Unit {0})

unfoldable pub new_recent_keys : ℕ → RecentKeys
new_recent_keys size = record { ring = new_ring "" size; seen = [] }

unfoldable pub forget : Option String → List (String × Unit {0}) → List (String × Unit {0})
forget none seen = seen
forget (some old) seen = Dict.delete str_dec old seen

-- `RecentKeys.Seen`
unfoldable pub seen_key : RecentKeys → String → RecentKeys × Bool
seen_key r k = elim (Dict.lookup str_dec k r.seen) [
  | some _ ↦ (r, true)
  | none ↦
      let (ring', evicted) = push "" r.ring k in
      (record { ring = ring'; seen = Dict.insert str_dec k tt (forget evicted r.seen) }, false)
]

abbrev pub is_some : Option (Unit {0}) → Bool
is_some none = false
is_some (some _) = true

-- `RecentKeys.Contains`
unfoldable pub contains : RecentKeys → String → Bool
contains r k = is_some (Dict.lookup str_dec k r.seen)

abbrev pub size : RecentKeys → ℕ
size r = cap r.ring
