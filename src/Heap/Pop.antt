-- ===== src/Heap/Pop.antt =====
-- `Pop`.
use go_handbook_for_software.Base.{
  ℕ, suc, ◌+◌, ◌-◌, ◌<◌, ◌≡◌, Bool, List, ◌∷◌, arith, length, set, dec_lt, ℕ_discrete, Option, none,
  some, lt_true, lt_false, eq_true, eq_false, length-set, length-take,
}
use go_handbook_for_software.Heap.{Heap, slot, parent, down_loop, sift_down, cut_top, pop}
use go_handbook_for_software.Heap.Slots.{
  slot-set, slot-take, one, count, count-set, count-take, SameItems,
}
use go_handbook_for_software.Heap.Order.{IsOrder, Le, Le-of, IsHeap, root_least}
use go_handbook_for_software.Heap.Down.{DownInv, down_loop-IsHeap}

module _ {T : Type 0} (default : T) (less : T → T → Bool) where
  length-cut_top : (xs : List T) → length (cut_top default less xs) ≡ length xs - 1
  unfolding cut_top
  length-cut_top xs =
      let last = slot default xs (length xs - 1) in
      let moved = set xs 0 last in
      omega (
        arith,
        length-take (length xs - 1) (set moved (length xs - 1) default),
        length-set moved (length xs - 1) default,
        length-set xs 0 last,
      )

  slot-cut_top :
      (xs : List T) (j : ℕ)
      → 0 < j
      → j < length xs - 1
      → slot default (cut_top default less xs) j ≡ slot default xs j
  unfolding cut_top
  slot-cut_top xs j p l =
      let last = slot default xs (length xs - 1) in
      let moved = set xs 0 last in
      ground (
        arith,
        slot-take default (length xs - 1) (set moved (length xs - 1) default) j l,
        slot-set default moved (length xs - 1) j default (omega (arith, length-set xs 0 last)),
        slot-set default xs 0 j last (omega arith),
      )

  count-cut_top :
      (p : T → Bool) (xs : List T)
      → 0 < length xs
      → count p (cut_top default less xs) + one p (slot default xs 0) ≡ count p xs
  unfolding cut_top
  count-cut_top p xs l =
      let n = length xs - 1 in
      let last = slot default xs n in
      let moved = set xs 0 last in
      let cleared = set moved n default in
      let inside : n < length moved = omega (arith, length-set xs 0 last, l) in
      let size : length cleared ≡ suc n =
        omega (arith, length-set xs 0 last, length-set moved n default, l) in
      ground (
        arith,
        count-take p default n cleared size,
        slot-set default moved n n default inside,
        count-set p default moved n default inside,
        slot-set default xs 0 n last l,
        count-set p default xs 0 last l,
      )

  -- What `Pop` does: an empty heap stays and gives nothing; any other gives a least element and
  -- leaves a heap of the others.
  pub data IsPop (h : Heap T) : Heap T × Option T → Type 0 where
    empty : length h.entries ≡ 0 → IsPop h (h, none)
    popped :
        (top : T) (rest : Heap T)
        → ((i : ℕ) → i < length h.entries → Le less top (slot default h.entries i))
        → IsHeap less default rest.entries
        → SameItems (top ∷ rest.entries) h.entries
        → IsPop h (rest, some top)

  module _ (o : IsOrder less) where
    -- after the last element has replaced the first, only the edges below the first may be wrong
    cut_top-DownInv :
        (xs : List T) → IsHeap less default xs → DownInv default less o (cut_top default less xs) 0
    cut_top-DownInv xs heap = record {
      edges = λ c p k n.
          Le-of less (slot-cut_top xs (parent c) (omega arith) (omega (arith, length-cut_top xs)))
            (slot-cut_top xs c p (omega (arith, length-cut_top xs)))
            (heap c p (omega (arith, length-cut_top xs)));
      bridged = λ c p k e q. absurd (omega arith);
    }

    pub pop-IsPop : (h : Heap T) → IsHeap less default h.entries → IsPop h (pop default less h)
    unfolding pop sift_down
    pop-IsPop h heap = elim (ℕ_discrete (length h.entries) 0) [
      | yes e ↦ rw (eq_true (length h.entries) 0 e) (empty e)
      | no d ↦
          let xs = h.entries in
          let rest = cut_top default less xs in
          let top_least : (i : ℕ)
              → i < length xs
              → Le less (slot default xs 0) (slot default xs i) =
            λ i l. root_least less default o xs i heap l in
          rw (eq_false (length xs) 0 d) (elim (dec_lt 1 (length xs)) [
            | yes several ↦
                let (order, same) =
                  down_loop-IsHeap default less o (length rest + 1) rest 0
                    (omega (arith, length-cut_top xs)) (omega arith) (cut_top-DownInv xs heap) in
                rw (lt_true 1 (length xs) several) (
                  popped (slot default xs 0)
                    (record { entries = down_loop default less (length rest + 1) rest 0 }) top_least
                    order (λ p. omega (arith, same p, count-cut_top p xs (omega arith))))
            | no one_left ↦ rw (lt_false 1 (length xs) one_left) (
                popped (slot default xs 0) (record { entries = rest }) top_least
                  (λ c p k. absurd (omega (arith, length-cut_top xs)))
                  (λ p. omega (arith, count-cut_top p xs (omega arith))))
          ])
    ]
