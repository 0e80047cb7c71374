-- ===== src/Heap/Order.antt =====
-- What `less` must be, and the heap order.
use go_handbook_for_software.Base.{
  ℕ, zero, suc, ◌<◌, ◌≡◌, ap₂, ◌∙◌, Bool, true, false, List, arith, length,
}
use go_handbook_for_software.Heap.{slot, parent}

-- `less` tells a total preorder: nothing comes before itself, of two elements one is not after the
-- other, and "not after" is transitive.
pub record IsOrder {T : Type 0} (less : T → T → Bool) : Type 0 where
  pub not_less_self : (a : T) → less a a ≡ false
  pub asym : (a b : T) → less a b ≡ true → less b a ≡ false
  pub trans : (a b c : T) → less b a ≡ false → less c b ≡ false → less c a ≡ false

module _ {T : Type 0} (less : T → T → Bool) where
  -- `a` does not come after `b`
  abbrev pub Le : T → T → Type 0
  Le a b = less b a ≡ false

  pub Le-of : {a a' b b' : T} → a' ≡ a → b' ≡ b → Le a b → Le a' b'
  Le-of p q h = ap₂ less q p ∙ h

  module _ (default : T) where
    -- every element but the first does not come before its parent
    abbrev pub IsHeap : List T → Type 0
    IsHeap xs =
        (c : ℕ) → 0 < c → c < length xs → Le (slot default xs (parent c)) (slot default xs c)

    module _ (o : IsOrder less) where
      root_least_below :
          (k : ℕ) (xs : List T) (i : ℕ)
          → IsHeap xs
          → i < k
          → i < length xs
          → Le (slot default xs 0) (slot default xs i)
      root_least_below zero xs i h f p = absurd (omega arith)
      root_least_below (suc k) xs zero h f p = o.not_less_self (slot default xs 0)
      root_least_below (suc k) xs (suc i) h f p =
          o.trans (slot default xs 0) (slot default xs (parent (suc i))) (slot default xs (suc i))
            (root_least_below k xs (parent (suc i)) h (omega arith) (omega arith))
            (h (suc i) (omega arith) p)

      -- the first element of a heap does not come after any other
      pub root_least :
          (xs : List T) (i : ℕ)
          → IsHeap xs
          → i < length xs
          → Le (slot default xs 0) (slot default xs i)
      root_least xs i h p = root_least_below (suc i) xs i h (omega arith) p
