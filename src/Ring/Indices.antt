-- ===== src/Ring/Indices.antt =====
-- Indices that go round at the capacity, and lists given by a function of the index.
use native.Mathlib.Nat.{mod-add-mod, mod-eq_of_lt, mod-eq-sub-mod}
use go_handbook_for_software.Base.{
  ℕ, zero, suc, ◌+◌, ◌-◌, ◌%◌, ◌≤◌, ◌<◌, ◌≡◌, ◌≢◌, ◌⊎◌, inl, inr, refl, ◌∙◌, ap, ap₂, List, [], ◌∷◌,
  ◌++◌, arith, dec_lt, length,
}

-- Less than two rounds: the index is reduced once at most.
pub round-cases : (n k : ℕ) → k < n + n → ((k < n) × (k % n ≡ k)) ⊎ ((n ≤ k) × (k % n ≡ k - n))
round-cases n k h = elim (dec_lt k n) [
  | yes p ↦ inl (p, mod-eq_of_lt p)
  | no p ↦ inr (
    omega arith,
    mod-eq-sub-mod {n = k} {m = n} (omega arith) ∙ mod-eq_of_lt {n = k - n} {m = n} (omega arith),
  )
]

-- Two different offsets below the capacity lead to different indices.
pub round-ne : (n h i j : ℕ) → h < n → i < n → j < n → i ≢ j → (h + i) % n ≢ (h + j) % n
round-ne n h i j hh hi hj ne =
    ground (arith, round-cases n (h + i) (omega arith), round-cases n (h + j) (omega arith))

-- One step further from the next index.
pub round-suc : (n h j : ℕ) → ((h + 1) % n + j) % n ≡ (h + suc j) % n
round-suc n h j = rw mod-add-mod (ap (λ k. k % n) (omega arith))

module _ {ℓ} {A : Type ℓ} where
  -- `f 0`, `f 1`, …, `f (n - 1)`
  abbrev pub tabulate : ℕ → (ℕ → A) → List A
  tabulate zero f = []
  tabulate (suc n) f = f 0 ∷ tabulate n (λ i. f (suc i))

  pub tabulate-cong :
      (n : ℕ) (f g : ℕ → A) → ((i : ℕ) → i < n → f i ≡ g i) → tabulate n f ≡ tabulate n g
  tabulate-cong zero f g h = refl
  tabulate-cong (suc n) f g h =
      ap₂ ◌∷◌ (h 0 (omega arith))
        (tabulate-cong n (λ i. f (suc i)) (λ i. g (suc i)) (λ i l. h (suc i) (omega arith)))

  pub tabulate_last : (n : ℕ) (f : ℕ → A) → tabulate (suc n) f ≡ tabulate n f ++ f n ∷ []
  tabulate_last zero f = refl
  tabulate_last (suc n) f = ap (◌∷◌ (f 0)) (tabulate_last n (λ i. f (suc i)))

  pub length-tabulate : (n : ℕ) (f : ℕ → A) → length (tabulate n f) ≡ n
  length-tabulate zero f = refl
  length-tabulate (suc n) f = ap suc (length-tabulate n (λ i. f (suc i)))
