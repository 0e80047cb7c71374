-- ===== src/Heap/Down.antt =====
-- `siftDown` and `Pop`.
use go_handbook_for_software.Base.{
  ℕ, zero, suc, ◌+◌, ◌-◌, ◌*◌, ◌<◌, ◌≡◌, ◌≢◌, ◌⊎◌, refl, ap, sym, ◌∙◌, subst, Bool, List, arith,
  length, dec_lt, ℕ_discrete, Bool-cases, inl, inr, eq_true, eq_false, lt_true, lt_false,
}
use go_handbook_for_software.Heap.{slot, parent, swap, pick, smallest, down_loop}
use go_handbook_for_software.Heap.Slots.{length-swap, SameItems, SameItems-swap}
use go_handbook_for_software.Heap.Order.{IsOrder, Le, Le-of, IsHeap}
use go_handbook_for_software.Heap.Up.{swap-left, swap-right, swap-other}

module _ {T : Type 0} (default : T) (less : T → T → Bool) (o : IsOrder less) where
  -- only the edges below `i` may be out of order
  pub record DownInv (xs : List T) (i : ℕ) : Type 0 where
    pub edges :
        (c : ℕ)
        → 0 < c
        → c < length xs
        → parent c ≢ i
        → Le less (slot default xs (parent c)) (slot default xs c)
    pub bridged :
        (c : ℕ)
        → 0 < c
        → c < length xs
        → parent c ≡ i
        → 0 < i
        → Le less (slot default xs (parent i)) (slot default xs c)

  -- a place that does not come after `s`, nor after `c` if that is in the list
  pick_least :
      (xs : List T) (c s : ℕ)
      → s < length xs
      → let m = pick default less xs c s in
        (m < length xs)
        × ((m ≡ s) ⊎ (m ≡ c))
        × Le less (slot default xs m) (slot default xs s)
        × (c < length xs → Le less (slot default xs m) (slot default xs c))
  pick_least xs c s l = elim (dec_lt c (length xs)) [
    | no out ↦
        rw (lt_false c (length xs) out)
          (l, inl refl, o.not_less_self (slot default xs s), λ h. absurd (out h))
    | yes in_range ↦ elim (Bool-cases (less (slot default xs c) (slot default xs s))) [
      | inl below ↦
          rw (lt_true c (length xs) in_range, below)
            (
              in_range,
              inr refl,
              o.asym (slot default xs c) (slot default xs s) below,
              λ h. o.not_less_self (slot default xs c),
            )
      | inr above ↦
          rw (lt_true c (length xs) in_range, above)
            (l, inl refl, o.not_less_self (slot default xs s), λ h. above)
    ]
  ]

  -- what the two tests of a round find
  record IsSmallest (xs : List T) (i m : ℕ) : Type 0 where
    inside : m < length xs
    near : (m ≡ i) ⊎ ((i < m) × (parent m ≡ i))
    top : Le less (slot default xs m) (slot default xs i)
    least :
        (c : ℕ)
        → 0 < c
        → c < length xs
        → parent c ≡ i
        → Le less (slot default xs m) (slot default xs c)

  smallest-IsSmallest :
      (xs : List T) (i : ℕ) → i < length xs → IsSmallest xs i (smallest default less xs i)
  unfolding smallest
  smallest-IsSmallest xs i l =
      let left = pick default less xs (2 * i + 1) i in
      let (in1, at1, top1, least1) = pick_least xs (2 * i + 1) i l in
      let (in2, at2, top2, least2) = pick_least xs (2 * i + 2) left in1 in
      let m = pick default less xs (2 * i + 2) left in
      record {
        inside = in2;
        near = elim at2 [
          | inr e ↦ inr (omega (arith, e), omega (arith, e))
          | inl e ↦ elim at1 [
            | inl e' ↦ inl (e ∙ e')
            | inr e' ↦ inr (omega (arith, e, e'), omega (arith, e, e'))
          ]
        ];
        top = o.trans (slot default xs m) (slot default xs left) (slot default xs i) top2 top1;
        least = λ c p k e. elim (ℕ_discrete c (2 * i + 2)) [
          | yes q ↦
              subst (λ x. Le less (slot default xs m) (slot default xs x)) (sym q)
                (least2 (subst (λ x. x < length xs) q k))
          | no d ↦
              let q : c ≡ 2 * i + 1 = omega arith in
              subst (λ x. Le less (slot default xs m) (slot default xs x)) (sym q)
                (o.trans (slot default xs m) (slot default xs left) (slot default xs (2 * i + 1))
                  top2 (least1 (subst (λ x. x < length xs) q k)))
        ];
      }

  module _ (xs : List T) (i m : ℕ) (l : i < length xs) (v : DownInv xs i) (s : IsSmallest xs i m)
      (below : i < m) (child : parent m ≡ i) where
    at_i : slot default (swap default xs i m) i ≡ slot default xs m
    at_i = swap-left default xs i m l s.inside

    at_m : slot default (swap default xs i m) m ≡ slot default xs i
    at_m = swap-right default xs i m l s.inside

    at_other : (c : ℕ) → c ≢ i → c ≢ m → slot default (swap default xs i m) c ≡ slot default xs c
    at_other = swap-other default xs i m l s.inside

    sunk_edges :
        (c : ℕ)
        → 0 < c
        → c < length xs
        → parent c ≢ m
        → Le less
            (slot default (swap default xs i m) (parent c))
            (slot default (swap default xs i m) c)
    sunk_edges c p k n = elim (ℕ_discrete c m) [
      | yes e ↦
          Le-of less
            (ap (λ x. slot default (swap default xs i m) (parent x)) e
              ∙ (ap (slot default (swap default xs i m)) child ∙ at_i))
            (ap (slot default (swap default xs i m)) e ∙ at_m) s.top
      | no d ↦ elim (ℕ_discrete (parent c) i) [
        | yes e ↦
            Le-of less (ap (slot default (swap default xs i m)) e ∙ at_i)
              (at_other c (omega arith) d) (s.least c p k e)
        | no d' ↦ elim (ℕ_discrete c i) [
          | yes e ↦
              Le-of less (at_other (parent c) d' n ∙ ap (λ x. slot default xs (parent x)) e)
                (ap (slot default (swap default xs i m)) e ∙ at_i)
                (v.bridged m (omega arith) s.inside child (subst (λ x. 0 < x) e p))
          | no d'' ↦ Le-of less (at_other (parent c) d' n) (at_other c d'' d) (v.edges c p k d')
        ]
      ]
    ]

    swap-DownInv : DownInv (swap default xs i m) m
    swap-DownInv = record {
      edges = λ c p k n. sunk_edges c p (omega (arith, length-swap default xs i m)) n;
      bridged = λ c p k e r.
          Le-of less (ap (slot default (swap default xs i m)) child ∙ at_i)
            (at_other c (omega arith) (omega arith))
            (subst (λ x. Le less (slot default xs x) (slot default xs c)) e
              (v.edges c p (omega (arith, length-swap default xs i m)) (omega arith)));
    }

  pub down_loop-IsHeap :
      (fuel : ℕ) (xs : List T) (i : ℕ)
      → i < length xs
      → length xs - i < fuel
      → DownInv xs i
      → IsHeap less default (down_loop default less fuel xs i)
        × SameItems (down_loop default less fuel xs i) xs
  unfolding down_loop
  down_loop-IsHeap zero xs i l f v = absurd (omega arith)
  down_loop-IsHeap (suc fuel) xs i l f v =
      let m = smallest default less xs i in
      let s = smallest-IsSmallest xs i l in
      elim (ℕ_discrete m i) [
        | yes e ↦ rw (eq_true m i e) (
          λ c p k. elim (ℕ_discrete (parent c) i) [
            | yes q ↦
                subst (λ x. Le less (slot default xs x) (slot default xs c)) (e ∙ sym q)
                  (s.least c p k q)
            | no d ↦ v.edges c p k d
          ],
          λ p. refl,
        )
        | no d ↦ elim s.near [
          | inl e ↦ absurd (d e)
          | inr (below, child) ↦
              let (heap, same) =
                down_loop-IsHeap fuel (swap default xs i m) m
                  (omega (arith, length-swap default xs i m, s.inside))
                  (omega (arith, length-swap default xs i m, s.inside))
                  (swap-DownInv xs i m l v s below child) in
              rw (eq_false m i d) (heap, λ p. same p ∙ SameItems-swap default xs i m l s.inside p)
        ]
      ]
