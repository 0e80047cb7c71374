-- ===== src/Memory/Sessions.antt =====
-- memwatch.go's MapGrowth: the bound that AddWithTTL keeps.
use go_handbook_for_software.Base.{
  ℕ, ◌+◌, ◌≤◌, ◌≡◌, List, [], ◌∷◌, arith, length, String, some, str_dec, max,
}
use go_handbook_for_software.Base.Dict
use go_handbook_for_software.Memory.{SessionMap, add_with_ttl, size}

module _ {P : Type 0} where
  length-insert :
      (k : String) (v : P) (m : SessionMap P) → length (Dict.insert str_dec k v m) ≤ length m + 1
  unfolding Dict.insert
  length-insert k v [] = omega arith
  length-insert k v ((j, w) ∷ m) = ground (arith, length-insert k v m)

  -- the calls of AddWithTTL, the last one first
  unfoldable pub add_all : ℕ → List (String × P) → SessionMap P
  unfolding add_with_ttl
  add_all n [] = []
  add_all n ((k, v) ∷ calls) = add_with_ttl k v n (add_all n calls)

  -- Whatever is added with the same maxEntries, the map never has more than maxEntries sessions (one
  -- where that is 0), and it has the session added last.
  pub add_all-IsBounded :
      (n : ℕ) (calls : List (String × P)) (k : String) (v : P)
      → (size (add_all n calls) ≤ max 1 n)
        × (Dict.lookup str_dec k (add_all n ((k, v) ∷ calls)) ≡ some v)
  unfolding add_all size add_with_ttl
  add_all-IsBounded n [] k v = (omega arith, ground (arith, Dict.lookup-insert_self str_dec k v []))
  add_all-IsBounded n ((j, w) ∷ calls) k v = (
    ground (arith, length-insert j w (add_all n calls), length-insert j w []),
    ground (
      arith,
      Dict.lookup-insert_self str_dec k v [],
      Dict.lookup-insert_self str_dec k v (add_all n ((j, w) ∷ calls)),
    ),
  )
