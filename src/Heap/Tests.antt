-- ===== src/Heap/Tests.antt =====
-- Concrete runs: a heap of numbers.
use go_handbook_for_software.Base.{ℕ, ◌≡◌, true, List, [], ◌∷◌, arith, ltb, refl}
use go_handbook_for_software.Heap.{Heap, new_heap, check_loop, check_invariant}
use go_handbook_for_software.Heap.Slots.{SameItems}
use go_handbook_for_software.Heap.Order.{IsOrder, IsHeap}
use go_handbook_for_software.Heap.Check.{check_invariant-decides}
use go_handbook_for_software.Heap.Drain.{IsSorted, drain, push_all, drain-push_all}

ltb-IsOrder : IsOrder ltb
ltb-IsOrder = record {
  not_less_self = λ a. ground arith;
  asym = λ a b h. ground (arith, h);
  trans = λ a b c h k. ground (arith, h, k);
}

abbrev numbers : List ℕ
numbers = 5 ∷ 3 ∷ 8 ∷ 1 ∷ 9 ∷ []

-- the heap that pushing `numbers` makes
abbrev ready : Heap ℕ
ready = record { entries = 1 ∷ 3 ∷ 8 ∷ 5 ∷ 9 ∷ [] }

ready-check : check_invariant 0 ltb ready ≡ true
unfolding check_invariant check_loop
ready-check = refl

ready-IsHeap : IsHeap ltb 0 ready.entries
ready-IsHeap = (check_invariant-decides 0 ltb ready).0 ready-check

drain-push_all_example :
    IsSorted 0 ltb (drain 0 ltb 5 (push_all 0 ltb numbers new_heap))
    × SameItems (drain 0 ltb 5 (push_all 0 ltb numbers new_heap)) numbers
drain-push_all_example = drain-push_all 0 ltb ltb-IsOrder numbers
