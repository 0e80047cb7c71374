-- ===== src/Heap/Slots.antt =====
-- Reads after writes, and how often an element stands in a list.
use go_handbook_for_software.Base.{
  ℕ, zero, suc, ◌+◌, ◌<◌, ◌≡◌, refl, ◌∙◌, Bool, List, [], ◌∷◌, ◌++◌, arith, if◌then◌else◌, ◌==◌,
  length, set, take, length-set,
}
use go_handbook_for_software.Heap.{slot, swap}

module _ {T : Type 0} (default : T) where
  pub slot-set :
      (xs : List T) (i j : ℕ) (v : T)
      → i < length xs
      → slot default (set xs i v) j ≡ (if i == j then v else slot default xs j)
  slot-set [] i j v h = absurd (omega arith)
  slot-set (x ∷ xs) zero zero v h = refl
  slot-set (x ∷ xs) zero (suc j) v h = ground arith
  slot-set (x ∷ xs) (suc i) zero v h = ground arith
  slot-set (x ∷ xs) (suc i) (suc j) v h = ground (arith, slot-set xs i j v)

  pub length-swap : (xs : List T) (i j : ℕ) → length (swap default xs i j) ≡ length xs
  unfolding swap
  length-swap xs i j =
      length-set (set xs i (slot default xs j)) j (slot default xs i)
      ∙ length-set xs i (slot default xs j)

  pub slot-swap :
      (xs : List T) (i j c : ℕ)
      → i < length xs
      → j < length xs
      → slot default (swap default xs i j) c ≡ (
          if j == c
          then slot default xs i
          else if i == c
          then slot default xs j
          else slot default xs c)
  unfolding swap
  slot-swap xs i j c p q = ground (
    arith,
    slot-set (set xs i (slot default xs j)) j c (slot default xs i),
    slot-set xs i c (slot default xs j) p,
    length-set xs i (slot default xs j),
  )

  pub slot-append :
      (xs ys : List T) (i : ℕ) → i < length xs → slot default (xs ++ ys) i ≡ slot default xs i
  slot-append [] ys i h = absurd (omega arith)
  slot-append (x ∷ xs) ys zero h = refl
  slot-append (x ∷ xs) ys (suc i) h = slot-append xs ys i (omega arith)

  pub slot-take :
      (n : ℕ) (xs : List T) (i : ℕ) → i < n → slot default (take n xs) i ≡ slot default xs i
  slot-take zero xs i h = absurd (omega arith)
  slot-take (suc n) [] i h = refl
  slot-take (suc n) (x ∷ xs) zero h = refl
  slot-take (suc n) (x ∷ xs) (suc i) h = slot-take n xs i (omega arith)

module _ {T : Type 0} (p : T → Bool) where
  abbrev pub one : T → ℕ
  one x = if p x then 1 else 0

  -- how many elements pass the test
  abbrev pub count : List T → ℕ
  count [] = 0
  count (x ∷ xs) = one x + count xs

  pub count-append : (xs ys : List T) → count (xs ++ ys) ≡ count xs + count ys
  count-append [] ys = omega arith
  count-append (x ∷ xs) ys = omega (arith, count-append xs ys)

  module _ (default : T) where
    pub count-set :
        (xs : List T) (i : ℕ) (v : T)
        → i < length xs
        → count (set xs i v) + one (slot default xs i) ≡ count xs + one v
    count-set [] i v h = absurd (omega arith)
    count-set (x ∷ xs) zero v h = omega arith
    count-set (x ∷ xs) (suc i) v h = omega (arith, count-set xs i v)

    pub count-take :
        (n : ℕ) (xs : List T)
        → length xs ≡ suc n
        → count (take n xs) + one (slot default xs n) ≡ count xs
    count-take n [] h = absurd (omega arith)
    count-take zero (x ∷ []) h = omega arith
    count-take zero (x ∷ y ∷ xs) h = absurd (omega arith)
    count-take (suc n) (x ∷ xs) h = omega (arith, count-take n xs)

-- Two lists hold the same elements, each as often.
abbrev pub SameItems : {T : Type 0} → List T → List T → Type 0
SameItems {T} xs ys = (p : T → Bool) → count p xs ≡ count p ys

pub SameItems-swap :
    {T : Type 0} (default : T) (xs : List T) (i j : ℕ)
    → i < length xs
    → j < length xs
    → SameItems (swap default xs i j) xs
unfolding swap
SameItems-swap default xs i j hi hj p = ground (
  arith,
  count-set p default (set xs i (slot default xs j)) j (slot default xs i),
  count-set p default xs i (slot default xs j),
  slot-set default xs i j (slot default xs j),
  length-set xs i (slot default xs j),
)
