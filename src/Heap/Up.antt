-- ===== src/Heap/Up.antt =====
-- `siftUp` and `Push`.
use go_handbook_for_software.Base.{
  ℕ, zero, suc, ◌+◌, ◌-◌, ◌<◌, ◌≡◌, ◌≢◌, refl, ap, sym, ◌∙◌, subst, Bool, true, List, [], ◌∷◌, ◌++◌,
  arith, length, dec_lt, ℕ_discrete, Bool-cases, inl, inr, lt_true, lt_false, length-append,
}
use go_handbook_for_software.Heap.{Heap, slot, parent, swap, up_loop, sift_up, push}
use go_handbook_for_software.Heap.Slots.{
  slot-swap, length-swap, slot-append, count-append, SameItems, SameItems-swap,
}
use go_handbook_for_software.Heap.Order.{IsOrder, Le, Le-of, IsHeap}

module _ {T : Type 0} (default : T) (xs : List T) (i j : ℕ) (hi : i < length xs)
    (hj : j < length xs) where
  pub swap-left : slot default (swap default xs i j) i ≡ slot default xs j
  swap-left = ground (arith, slot-swap default xs i j i hi hj)

  pub swap-right : slot default (swap default xs i j) j ≡ slot default xs i
  swap-right = ground (arith, slot-swap default xs i j j hi hj)

  pub swap-other :
      (c : ℕ) → c ≢ i → c ≢ j → slot default (swap default xs i j) c ≡ slot default xs c
  swap-other c ni nj = ground (arith, slot-swap default xs i j c hi hj)

module _ {T : Type 0} (default : T) (less : T → T → Bool) (o : IsOrder less) where
  -- only the edge above `i` may be out of order
  record UpInv (xs : List T) (i : ℕ) : Type 0 where
    inside : i < length xs
    edges :
        (c : ℕ)
        → 0 < c
        → c < length xs
        → c ≢ i
        → Le less (slot default xs (parent c)) (slot default xs c)
    bridged :
        (c : ℕ)
        → 0 < c
        → c < length xs
        → parent c ≡ i
        → 0 < i
        → Le less (slot default xs (parent i)) (slot default xs c)

  module _ (xs : List T) (i : ℕ) (v : UpInv xs i) (pos : 0 < i)
      (below : less (slot default xs i) (slot default xs (parent i)) ≡ true) where
    above : parent i < length xs
    above = omega (arith, v.inside)

    at_i : slot default (swap default xs i (parent i)) i ≡ slot default xs (parent i)
    at_i = swap-left default xs i (parent i) v.inside above

    at_parent : slot default (swap default xs i (parent i)) (parent i) ≡ slot default xs i
    at_parent = swap-right default xs i (parent i) v.inside above

    at_other :
        (c : ℕ)
        → c ≢ i
        → c ≢ parent i
        → slot default (swap default xs i (parent i)) c ≡ slot default xs c
    at_other = swap-other default xs i (parent i) v.inside above

    lifted : Le less (slot default xs i) (slot default xs (parent i))
    lifted = o.asym (slot default xs i) (slot default xs (parent i)) below

    lifted_edges :
        (c : ℕ)
        → 0 < c
        → c < length xs
        → c ≢ parent i
        → Le less
            (slot default (swap default xs i (parent i)) (parent c))
            (slot default (swap default xs i (parent i)) c)
    lifted_edges c p l n = elim (ℕ_discrete c i) [
      | yes e ↦
          Le-of less
            (ap (λ k. slot default (swap default xs i (parent i)) (parent k)) e ∙ at_parent)
            (ap (slot default (swap default xs i (parent i))) e ∙ at_i) lifted
      | no d ↦ elim (ℕ_discrete (parent c) i) [
        | yes e ↦
            Le-of less (ap (slot default (swap default xs i (parent i))) e ∙ at_i) (at_other c d n)
              (v.bridged c p l e pos)
        | no d' ↦ elim (ℕ_discrete (parent c) (parent i)) [
          | yes e ↦
              Le-of less (ap (slot default (swap default xs i (parent i))) e ∙ at_parent)
                (at_other c d n)
                (o.trans (slot default xs i) (slot default xs (parent i)) (slot default xs c) lifted
                  (subst (λ k. Le less (slot default xs k) (slot default xs c)) e
                    (v.edges c p l d)))
          | no d'' ↦ Le-of less (at_other (parent c) d' d'') (at_other c d n) (v.edges c p l d)
        ]
      ]
    ]

    lifted_bridged :
        (c : ℕ)
        → 0 < c
        → c < length xs
        → parent c ≡ parent i
        → 0 < parent i
        → Le less
            (slot default (swap default xs i (parent i)) (parent (parent i)))
            (slot default (swap default xs i (parent i)) c)
    lifted_bridged c p l e r =
        let edge = v.edges (parent i) r above (omega arith) in
        let at = at_other (parent (parent i)) (omega arith) (omega arith) in
        elim (ℕ_discrete c i) [
          | yes q ↦ Le-of less at (ap (slot default (swap default xs i (parent i))) q ∙ at_i) edge
          | no d ↦ Le-of less at (at_other c d (omega arith)) (
              o.trans (slot default xs (parent (parent i))) (slot default xs (parent i))
                (slot default xs c) edge
                (subst (λ k. Le less (slot default xs k) (slot default xs c)) e (v.edges c p l d)))
        ]

    swap-UpInv : UpInv (swap default xs i (parent i)) (parent i)
    swap-UpInv = record {
      inside = omega (arith, length-swap default xs i (parent i), above);
      edges = λ c p l n. lifted_edges c p (omega (arith, length-swap default xs i (parent i))) n;
      bridged =
          λ c p l e r. lifted_bridged c p (omega (arith, length-swap default xs i (parent i))) e r;
    }

  up_loop-IsHeap :
      (fuel : ℕ) (xs : List T) (i : ℕ)
      → i < fuel
      → UpInv xs i
      → IsHeap less default (up_loop default less fuel xs i)
        × SameItems (up_loop default less fuel xs i) xs
  unfolding up_loop
  up_loop-IsHeap zero xs i f v = absurd (omega arith)
  up_loop-IsHeap (suc fuel) xs i f v = elim (dec_lt 0 i) [
    | no root ↦ rw (lt_false 0 i root) (λ c p l. v.edges c p l (omega arith), λ p. refl)
    | yes pos ↦ elim (Bool-cases (less (slot default xs i) (slot default xs (parent i)))) [
      | inr settled ↦
          rw (lt_true 0 i pos, settled)
            (
              λ c p l. elim (ℕ_discrete c i) [
                | yes e ↦
                    subst (λ k. Le less (slot default xs (parent k)) (slot default xs k)) (sym e)
                      settled
                | no d ↦ v.edges c p l d
              ],
              λ p. refl,
            )
      | inl below ↦
          let (heap, same) =
            up_loop-IsHeap fuel (swap default xs i (parent i)) (parent i) (omega arith)
              (swap-UpInv xs i v pos below) in
          rw (lt_true 0 i pos, below)
            (
              heap,
              λ p.
                  same p
                  ∙ SameItems-swap default xs i (parent i) v.inside (above xs i v pos below) p,
            )
    ]
  ]

  -- `Push` keeps the heap order, and adds exactly the element.
  pub push-IsHeap :
      (v : T) (h : Heap T)
      → IsHeap less default h.entries
      → IsHeap less default (push default less v h).entries
        × SameItems (push default less v h).entries (v ∷ h.entries)
  unfolding push sift_up
  push-IsHeap v h heap =
      let xs = h.entries ++ v ∷ [] in
      let size : length xs ≡ length h.entries + 1 = length-append h.entries (v ∷ []) in
      let start : UpInv xs (length xs - 1) = record {
        inside = omega (arith, size);
        edges = λ c p l n.
            Le-of less (slot-append default h.entries (v ∷ []) (parent c) (omega (arith, size)))
              (slot-append default h.entries (v ∷ []) c (omega (arith, size)))
              (heap c p (omega (arith, size)));
        bridged = λ c p l e r. absurd (omega (arith, size));
      } in
      let (order, same) =
        up_loop-IsHeap (length xs - 1 + 1) xs (length xs - 1) (omega arith) start in
      (order, λ p. same p ∙ omega (arith, count-append p h.entries (v ∷ [])))
