-- ===== src/Calculator/Operators.antt =====
-- calc.go's `Eval`: where a text is cut, and what its parts come to.
use go_handbook_for_software.Base.{
  ℕ, suc, ◌+◌, ◌≡◌, ◌≢◌, refl, ap, subst, true, false, List, [], ◌∷◌, ◌++◌, Option, none, some,
  Result, err, take, drop, get_or, length, All, arith, Option-cases, inl, inr,
}
use go_handbook_for_software.Calculator.{
  Error, empty_expression, missing_operator, bad_left, bad_right, unknown_operator, is_op, index_op,
  apply_op, divide, operate, eval_trimmed, eval,
}

-- no byte of the text is an operator
abbrev pub NoOp : List ℕ → Type 0
NoOp bs = All (λ b. is_op b ≡ false) bs

index_op-none : (bs : List ℕ) → NoOp bs → index_op bs ≡ none
unfolding index_op
index_op-none [] h = refl
index_op-none (b ∷ bs) h = rw (h.0, index_op) (rw (index_op-none bs h.1) refl)

index_op-some :
    (l r : List ℕ) (op : ℕ) → NoOp l → is_op op ≡ true → index_op (l ++ op ∷ r) ≡ some (length l)
unfolding index_op
index_op-some [] r op h o = rw (o, index_op) refl
index_op-some (b ∷ l) r op h o =
    rw (h.0, index_op) (rw (index_op-some l r op h.1 o) (ap some (omega arith)))

take-left : (l r : List ℕ) → take (length l) (l ++ r) ≡ l
take-left [] r = refl
take-left (b ∷ l) r = ap (λ bs. b ∷ bs) (take-left l r)

drop-left : (l r : List ℕ) (op : ℕ) → drop (suc (length l)) (l ++ op ∷ r) ≡ r
drop-left [] r op = refl
drop-left (b ∷ l) r op = drop-left l r op

get_or-left : (l r : List ℕ) (op : ℕ) → get_or (l ++ op ∷ r) (length l) 0 ≡ op
get_or-left [] r op = refl
get_or-left (b ∷ l) r op = get_or-left l r op

-- what `Eval` makes of its two operands
unfoldable pub combine : ℕ → ℕ → Option ℕ → Option ℕ → Result Error ℕ
combine op at none right = err bad_left
combine op at (some a) none = err (bad_right (at + 1))
combine op at (some a) (some b) = apply_op op at a b

-- an operator byte is one of the four cases of the switch
apply_op-known : (op at a b n : ℕ) → is_op op ≡ true → apply_op op at a b ≢ err (unknown_operator n)
unfolding apply_op is_op divide
apply_op-known op at a b n o e = ground (arith, o, e)

module _ (trim_space : List ℕ → List ℕ) (atoi : List ℕ → Option ℕ) where
  operate-combine :
      (l r : List ℕ) (op : ℕ)
      → operate trim_space atoi (l ++ op ∷ r) (length l)
        ≡ combine op (length l) (atoi (trim_space l)) (atoi (trim_space r))
  unfolding operate combine
  operate-combine l r op =
      let t = take-left l (op ∷ r) in
      let d = drop-left l r op in
      elim (Option-cases (atoi (trim_space l))) [
        | inl e ↦ ground (arith, e, t)
        | inr (a, e) ↦ elim (Option-cases (atoi (trim_space r))) [
          | inl f ↦ ground (arith, e, t, f, d)
          | inr (b, f) ↦ ground (arith, e, t, f, d, get_or-left l r op)
        ]
      ]

  -- `Eval` cuts a trimmed text at the first operator after its first byte, so that a sign may begin it:
  -- what stands before and after, trimmed, are the operands, the left one read first, and a text
  -- without an operator after its first byte has none.
  pub eval_decides :
      (expr : List ℕ)
      → ((c op : ℕ) (l r : List ℕ)
          → trim_space expr ≡ (c ∷ l) ++ op ∷ r
          → NoOp l
          → is_op op ≡ true
          → eval trim_space atoi expr
            ≡ combine op (length l + 1) (atoi (trim_space (c ∷ l))) (atoi (trim_space r)))
        × ((c : ℕ) (l : List ℕ)
            → trim_space expr ≡ c ∷ l
            → NoOp l
            → eval trim_space atoi expr ≡ err missing_operator)
        × (trim_space expr ≡ [] → eval trim_space atoi expr ≡ err empty_expression)
  unfolding eval eval_trimmed
  eval_decides expr = (
    λ c op l r e n o.
        rw (e, eval_trimmed, index_op-some l r op n o)
          (subst
            (λ k.
              operate trim_space atoi ((c ∷ l) ++ op ∷ r) k
              ≡ combine op k (atoi (trim_space (c ∷ l))) (atoi (trim_space r)))
            (shift l) (operate-combine (c ∷ l) r op)),
    λ c l e n. rw (e, eval_trimmed, index_op-none l n) refl,
    λ e. rw e refl,
  )
    where
      shift : (l : List ℕ) → suc (length l) ≡ length l + 1
      shift l = omega arith
