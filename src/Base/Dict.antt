-- ===== src/Base/Dict.antt =====
-- A Go map as an association list with at most one entry for a key. `insert` is `m[k] = v`,
-- `delete` the built-in, and `lookup` the two-valued read.
use mathlib.Core.Path.{◌≡◌, refl, subst}
use mathlib.Core.Logic.{ite, if_pos, if_neg}
use mathlib.Core.List.{List, [], ◌∷◌}
use mathlib.Core.Option.{Option, none, some, some-injective}
use native.Mathlib.Omega.{arith}
use go_handbook_for_software.Base.Tests.{none≢some}

module _ {ℓ} {K V : Type ℓ} (dec : Discrete K) where
  unfoldable pub lookup : K → List (K × V) → Option V
  lookup k [] = none
  lookup k ((j, v) ∷ m) = ite (dec j k) (some v) (lookup k m)

  unfoldable pub delete : K → List (K × V) → List (K × V)
  delete k [] = []
  delete k ((j, v) ∷ m) = let rest = delete k m in ite (dec j k) rest ((j, v) ∷ rest)

  unfoldable pub insert : K → V → List (K × V) → List (K × V)
  insert k v [] = (k, v) ∷ []
  insert k v ((j, w) ∷ m) = ite (dec j k) ((k, v) ∷ m) ((j, w) ∷ insert k v m)

  pub lookup-insert :
      (k q : K) (v : V) (m : List (K × V))
      → lookup q (insert k v m) ≡ ite (dec k q) (some v) (lookup q m)
  unfolding lookup insert
  lookup-insert k q v [] = refl
  lookup-insert k q v ((j, w) ∷ m) = ground (arith, lookup-insert k q v m)

  pub lookup-delete :
      (k q : K) (m : List (K × V)) → lookup q (delete k m) ≡ ite (dec k q) none (lookup q m)
  unfolding lookup delete
  lookup-delete k q [] = ground arith
  lookup-delete k q ((j, w) ∷ m) = ground (arith, lookup-delete k q m)

  pub lookup-insert_self : (k : K) (v : V) (m : List (K × V)) → lookup k (insert k v m) ≡ some v
  lookup-insert_self k v m = rw (lookup-insert k k v m, if_pos (dec k k) refl)

  -- A property of every value of a map.
  abbrev pub AllValues {κ} : (V → Type κ) → List (K × V) → Type κ
  AllValues P [] = Unit
  AllValues P ((k, v) ∷ m) = P v × AllValues P m

  module _ {κ} (P : V → Type κ) where
    pub AllValues-insert :
        (k : K) (v : V) (m : List (K × V)) → P v → AllValues P m → AllValues P (insert k v m)
    unfolding insert
    AllValues-insert k v [] p h = (p, tt)
    AllValues-insert k v ((j, w) ∷ m) p h = elim (dec j k) [
      | yes e ↦ rw (if_pos (dec j k) e) (p, h.1)
      | no n ↦ rw (if_neg (dec j k) n) (h.0, AllValues-insert k v m p h.1)
    ]

    pub AllValues-delete : (k : K) (m : List (K × V)) → AllValues P m → AllValues P (delete k m)
    unfolding delete
    AllValues-delete k [] h = tt
    AllValues-delete k ((j, w) ∷ m) h = elim (dec j k) [
      | yes e ↦ rw (if_pos (dec j k) e) (AllValues-delete k m h.1)
      | no n ↦ rw (if_neg (dec j k) n) (h.0, AllValues-delete k m h.1)
    ]

    pub AllValues-lookup :
        (k : K) (v : V) (m : List (K × V)) → lookup k m ≡ some v → AllValues P m → P v
    unfolding lookup
    AllValues-lookup k v [] e h = absurd (none≢some e)
    AllValues-lookup k v ((j, w) ∷ m) e h = elim (dec j k) [
      | yes p ↦ subst P (some-injective w v (rw (if_pos (dec j k) p) at e)) h.0
      | no n ↦ AllValues-lookup k v m (rw (if_neg (dec j k) n) at e) h.1
    ]
