-- ===== src/Heap.antt =====
-- 03-data-structures/examples/heap/heap.go: the binary min-heap over a caller's `less`. `default` is
-- the zero value of the element type. An index out of range, which would panic in Go, reads as
-- `default` and writes nothing; the loops of a heap (Heap.Up, Heap.Down) stay in range. Each loop
-- takes fuel: one round more than the index for `siftUp`, which falls, and one more than the length
-- for `siftDown`, whose index grows. Indices stay below twice the length plus two.
pub mod Slots
pub mod Order
pub mod Up
pub mod Down
pub mod Check
pub mod Pop
pub mod Drain
mod Tests
use go_handbook_for_software.Base.{
  ℕ, zero, suc, ◌+◌, ◌-◌, ◌*◌, ◌/◌, Bool, true, false, not, ◌&&◌, List, [], ◌∷◌, ◌++◌, Option, none,
  some, if◌then◌else◌, ltb, ◌==◌, length, get_or, set, take,
}

pub record Heap (T : Type 0) : Type 0 where
  pub entries : List T

-- `New`
abbrev pub new_heap : {T : Type 0} → Heap T
new_heap = record { entries = [] }

-- `Heap.Len`
abbrev pub len : {T : Type 0} → Heap T → ℕ
len h = length h.entries

abbrev pub parent : ℕ → ℕ
parent i = (i - 1) / 2

module _ {T : Type 0} (default : T) where
  -- `h.data[i]`
  abbrev pub slot : List T → ℕ → T
  slot xs i = get_or xs i default

  -- `h.data[i], h.data[j] = h.data[j], h.data[i]`
  unfoldable pub swap : List T → ℕ → ℕ → List T
  swap xs i j = set (set xs i (slot xs j)) j (slot xs i)

  -- `Heap.Peek`
  unfoldable pub peek : Heap T → Option T
  peek h = if length h.entries == 0 then none else some (slot h.entries 0)

  module _ (less : T → T → Bool) where
    -- the loop of `siftUp`
    unfoldable pub up_loop : ℕ → List T → ℕ → List T
    up_loop zero xs i = xs
    up_loop (suc fuel) xs i =
        let rise = up_loop fuel (swap xs i (parent i)) (parent i) in
        if ltb 0 i then (if not (less (slot xs i) (slot xs (parent i))) then xs else rise) else xs

    -- `siftUp`
    unfoldable pub sift_up : List T → ℕ → List T
    sift_up xs i = up_loop (i + 1) xs i

    -- `Heap.Push`
    unfoldable pub push : T → Heap T → Heap T
    push v h = let xs = h.entries ++ v ∷ [] in record { entries = sift_up xs (length xs - 1) }

    -- `if c < n && h.less(h.data[c], h.data[s]) { s = c }`
    abbrev pub pick : List T → ℕ → ℕ → ℕ
    pick xs c s = if ltb c (length xs) && less (slot xs c) (slot xs s) then c else s

    -- `smallest`, after both tests of a round
    unfoldable pub smallest : List T → ℕ → ℕ
    smallest xs i = pick xs (2 * i + 2) (pick xs (2 * i + 1) i)

    -- the loop of `siftDown`
    unfoldable pub down_loop : ℕ → List T → ℕ → List T
    down_loop zero xs i = xs
    down_loop (suc fuel) xs i =
        let s = smallest xs i in
        let sink = down_loop fuel (swap xs i s) s in if s == i then xs else sink

    -- `siftDown`
    unfoldable pub sift_down : List T → ℕ → List T
    sift_down xs i = down_loop (length xs + 1) xs i

    -- the slice of `Pop` before it is sifted: the last element in place of the first
    unfoldable pub cut_top : List T → List T
    cut_top xs =
        let n = length xs in
        let xs' = set xs 0 (slot xs (n - 1)) in take (n - 1) (set xs' (n - 1) default)

    -- `Heap.Pop`
    unfoldable pub pop : Heap T → Heap T × Option T
    pop h =
        let xs = h.entries in
        let rest = cut_top xs in
        if length xs == 0 then (h, none) else (
          record { entries = if ltb 1 (length xs) then sift_down rest 0 else rest },
          some (slot xs 0),
        )

    -- the loop of `checkInvariant`: `left` indices from `i` on
    unfoldable pub check_loop : List T → ℕ → ℕ → Bool
    check_loop xs zero i = true
    check_loop xs (suc left) i =
        let rest = check_loop xs left (i + 1) in
        if less (slot xs i) (slot xs (parent i)) then false else rest

    -- `checkInvariant`
    unfoldable pub check_invariant : Heap T → Bool
    check_invariant h = check_loop h.entries (length h.entries - 1) 1
