-- ===== src/Heap/Check.antt =====
-- `checkInvariant`.
use go_handbook_for_software.Base.{
  ℕ, zero, suc, ◌+◌, ◌-◌, ◌<◌, ◌≤◌, ◌≡◌, refl, sym, subst, Bool, true, List, arith, length,
  Bool-cases, inl, inr, ◌↔◌, ℕ_discrete,
}
use go_handbook_for_software.Heap.{Heap, slot, parent, check_loop, check_invariant}
use go_handbook_for_software.Heap.Order.{Le, IsHeap}

module _ {T : Type 0} (default : T) (less : T → T → Bool) where
  -- the edges above `left` indices from `i` on
  abbrev Edges : List T → ℕ → ℕ → Type 0
  Edges xs left i =
      (c : ℕ) → i ≤ c → c < i + left → Le less (slot default xs (parent c)) (slot default xs c)

  check_loop→Edges :
      (xs : List T) (left i : ℕ) → check_loop default less xs left i ≡ true → Edges xs left i
  unfolding check_loop
  check_loop→Edges xs zero i e c p l = absurd (omega (arith, p, l))
  check_loop→Edges xs (suc left) i e c p l =
      elim (Bool-cases (less (slot default xs i) (slot default xs (parent i)))) [
        | inl bad ↦ absurd (ground (arith, e, bad))
        | inr fine ↦ elim (ℕ_discrete c i) [
          | yes q ↦
              subst (λ k. Le less (slot default xs (parent k)) (slot default xs k)) (sym q) fine
          | no d ↦
              check_loop→Edges xs left (i + 1) (ground (arith, e, fine)) c (omega arith)
                (omega arith)
        ]
      ]

  Edges→check_loop :
      (xs : List T) (left i : ℕ) → Edges xs left i → check_loop default less xs left i ≡ true
  unfolding check_loop
  Edges→check_loop xs zero i h = refl
  Edges→check_loop xs (suc left) i h =
      rw (h i (omega arith) (omega arith))
        (Edges→check_loop xs left (i + 1) (λ c p l. h c (omega arith) (omega arith)))

  -- `checkInvariant` is true exactly when every element but the first does not come before its
  -- parent.
  pub check_invariant-decides :
      (h : Heap T) → (check_invariant default less h ≡ true) ↔ IsHeap less default h.entries
  unfolding check_invariant
  check_invariant-decides h = (
    λ e c p l.
        check_loop→Edges h.entries (length h.entries - 1) 1 e c (omega (arith, p))
          (omega (arith, l, p)),
    λ heap.
        Edges→check_loop h.entries (length h.entries - 1) 1
          (λ c p l. heap c (omega (arith, p)) (omega (arith, l))),
  )
