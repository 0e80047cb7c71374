-- ===== src/Heap/Drain.antt =====
-- Popping until the heap is empty, the way its clients read it out in order.
use go_handbook_for_software.Base.{
  ℕ, zero, suc, ◌+◌, ◌<◌, ◌≤◌, ◌≡◌, refl, sym, ◌∙◌, Bool, true, false, List, [], ◌∷◌, arith, length,
  All, Option, none, some, Bool-cases, inl, inr,
}
use go_handbook_for_software.Heap.{Heap, slot, len, push, pop, new_heap}
use go_handbook_for_software.Heap.Slots.{count, SameItems}
use go_handbook_for_software.Heap.Order.{IsOrder, Le, IsHeap}
use go_handbook_for_software.Heap.Up.{push-IsHeap}
use go_handbook_for_software.Heap.Pop.{IsPop, empty, popped, pop-IsPop}

module _ {T : Type 0} where
  length-SameItems : (xs ys : List T) → SameItems xs ys → length xs ≡ length ys
  length-SameItems xs ys same = sym (count_every xs) ∙ (same (λ x. true) ∙ count_every ys)
    where
      count_every : (zs : List T) → count (λ x. true) zs ≡ length zs
      count_every [] = refl
      count_every (z ∷ zs) = omega (arith, count_every zs)

  SameItems-none : (xs : List T) → length xs ≡ 0 → SameItems [] xs
  SameItems-none [] e p = refl
  SameItems-none (x ∷ xs) e p = absurd (omega (arith, e))

  module _ (p : T → Bool) where
    count_none :
        (default : T) (xs : List T)
        → ((i : ℕ) → i < length xs → p (slot default xs i) ≡ false)
        → count p xs ≡ 0
    count_none default [] h = refl
    count_none default (x ∷ xs) h =
        let rest = count_none default xs (λ i l. h (suc i) (omega arith)) in
        ground (arith, h 0 (omega arith), rest)

    All_of-count : (xs : List T) → count p xs ≡ 0 → All (λ x. p x ≡ false) xs
    All_of-count [] e = tt
    All_of-count (x ∷ xs) e = elim (Bool-cases (p x)) [
      | inl y ↦ absurd (ground (arith, e, y))
      | inr n ↦ (n, All_of-count xs (ground (arith, e, n)))
    ]

module _ {T : Type 0} (default : T) (less : T → T → Bool) where
  -- no element comes after a later one
  abbrev pub IsSorted : List T → Type 0
  IsSorted [] = Unit
  IsSorted (x ∷ xs) = All (Le less x) xs × IsSorted xs

  -- push all of a list
  abbrev pub push_all : List T → Heap T → Heap T
  push_all [] h = h
  push_all (x ∷ xs) h = push_all xs (push default less x h)

  abbrev pub keep : Option T → List T → List T
  keep none xs = []
  keep (some v) xs = v ∷ xs

  -- `for h.Len() > 0 { v, _ := h.Pop(); out = append(out, v) }`
  unfoldable pub drain : ℕ → Heap T → List T
  drain zero h = []
  drain (suc fuel) h = let (rest, top) = pop default less h in keep top (drain fuel rest)

  module _ (o : IsOrder less) where
    drain_least :
        (top : T) (rest xs ys : List T)
        → ((i : ℕ) → i < length ys → Le less top (slot default ys i))
        → SameItems (top ∷ rest) ys
        → SameItems xs rest
        → All (Le less top) xs
    drain_least top rest xs ys least same all =
        let p : T → Bool = λ x. less x top in
        All_of-count p xs (omega (arith, count_none p default ys least, same p, all p))

    -- one round, when the rounds after it are right
    drain_round :
        (fuel : ℕ) (h : Heap T) (r : Heap T × Option T)
        → len h ≤ suc fuel
        → ((rest : Heap T)
            → IsHeap less default rest.entries
            → len rest ≤ fuel
            → IsSorted (drain fuel rest) × SameItems (drain fuel rest) rest.entries)
        → IsPop default less h r
        → IsSorted (keep r.1 (drain fuel r.0)) × SameItems (keep r.1 (drain fuel r.0)) h.entries
    drain_round fuel h _ f next (empty e) = (tt, SameItems-none h.entries e)
    drain_round fuel h _ f next (popped top rest least order same) =
        let size = length-SameItems (top ∷ rest.entries) h.entries same in
        let (sorted, items) = next rest order (omega (arith, f, size)) in
        (
          (drain_least top rest.entries (drain fuel rest) h.entries least same items, sorted),
          λ p. omega (arith, items p, same p),
        )

    drain-IsSorted :
        (fuel : ℕ) (h : Heap T)
        → IsHeap less default h.entries
        → len h ≤ fuel
        → IsSorted (drain fuel h) × SameItems (drain fuel h) h.entries
    unfolding drain
    drain-IsSorted zero h heap f = (tt, SameItems-none h.entries (omega (arith, f)))
    drain-IsSorted (suc fuel) h heap f =
        drain_round fuel h (pop default less h) f (λ rest order l. drain-IsSorted fuel rest order l)
          (pop-IsPop default less o h heap)

    push_all-IsHeap :
        (xs : List T) (h : Heap T)
        → IsHeap less default h.entries
        → IsHeap less default (push_all xs h).entries
          × ((p : T → Bool) → count p (push_all xs h).entries ≡ count p xs + count p h.entries)
    push_all-IsHeap [] h heap = (heap, λ p. omega arith)
    push_all-IsHeap (x ∷ xs) h heap =
        let (order, same) = push-IsHeap default less o x h heap in
        let (order', same') = push_all-IsHeap xs (push default less x h) order in
        (order', λ p. omega (arith, same' p, same p))

    -- Pushing the elements of any list on an empty heap, and then popping until the heap is empty,
    -- gives the list sorted: the same elements, each as often, none after a smaller one; for a
    -- `less` that is a total preorder.
    pub drain-push_all :
        (xs : List T)
        → IsSorted (drain (length xs) (push_all xs new_heap))
          × SameItems (drain (length xs) (push_all xs new_heap)) xs
    drain-push_all xs =
        let (order, same) = push_all-IsHeap xs new_heap (λ c p l. absurd (omega arith)) in
        let size =
          length-SameItems (push_all xs new_heap).entries xs (λ p. omega (arith, same p)) in
        let (sorted, items) =
          drain-IsSorted (length xs) (push_all xs new_heap) order (omega (arith, size)) in
        (sorted, λ p. omega (arith, items p, same p))
