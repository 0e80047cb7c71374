-- ===== src/Lru/Nodes.antt =====
-- The list and the map of the cache in step.
use go_handbook_for_software.Base.{
  ℕ, ◌+◌, ◌≡◌, ◌≢◌, refl, sym, ap, subst, ◌∙◌, List, [], ◌∷◌, ite, ℕ_discrete, Option, none, some,
  length, All, All-map, if_pos, if_neg, arith, none≢some,
}
use mathlib.Core.Option.{some-injective}
use go_handbook_for_software.Lru.{Node, find, unlink, back}

module _ {K V : Type 0} where
  -- Two elements differ in handle and key.
  abbrev pub Apart : Node K V → Node K V → Type 0
  Apart n m = (m.handle ≢ n.handle) × (m.key ≢ n.key)

  -- Each handle and each key stands once.
  abbrev pub IsApart : List (Node K V) → Type 0
  IsApart [] = Unit
  IsApart (n ∷ ns) = All (Apart n) ns × IsApart ns

  pub All-unlink :
      (P : Node K V → Type 0) (h : ℕ) (ns : List (Node K V)) → All P ns → All P (unlink h ns)
  unfolding unlink
  All-unlink P h [] a = tt
  All-unlink P h (n ∷ ns) a = elim (ℕ_discrete n.handle h) [
    | yes e ↦ rw (if_pos (ℕ_discrete n.handle h) e) a.1
    | no d ↦ rw (if_neg (ℕ_discrete n.handle h) d) (a.0, All-unlink P h ns a.1)
  ]

  pub IsApart-unlink : (h : ℕ) (ns : List (Node K V)) → IsApart ns → IsApart (unlink h ns)
  unfolding unlink
  IsApart-unlink h [] a = tt
  IsApart-unlink h (n ∷ ns) a = elim (ℕ_discrete n.handle h) [
    | yes e ↦ rw (if_pos (ℕ_discrete n.handle h) e) a.1
    | no d ↦
        rw (if_neg (ℕ_discrete n.handle h) d)
          (All-unlink (Apart n) h ns a.0, IsApart-unlink h ns a.1)
  ]

  pub length-unlink :
      (h : ℕ) (ns : List (Node K V)) (n : Node K V)
      → find h ns ≡ some n
      → length (unlink h ns) + 1 ≡ length ns
  unfolding unlink find
  length-unlink h [] n e = absurd (cc)
  length-unlink h (m ∷ ns) n e = ground (arith, length-unlink h ns n)

  pub All-find :
      (P : Node K V → Type 0) (h : ℕ) (ns : List (Node K V)) (n : Node K V)
      → All P ns
      → find h ns ≡ some n
      → P n
  unfolding find
  All-find P h [] n a e = absurd (none≢some e)
  All-find P h (m ∷ ns) n a e = elim (ℕ_discrete m.handle h) [
    | yes q ↦ subst P (some-injective m n (rw (if_pos (ℕ_discrete m.handle h) q) at e)) a.0
    | no d ↦ All-find P h ns n a.1 (rw (if_neg (ℕ_discrete m.handle h) d) at e)
  ]

  pub find-handle :
      (h : ℕ) (ns : List (Node K V)) (n : Node K V) → find h ns ≡ some n → n.handle ≡ h
  unfolding find
  find-handle h [] n e = absurd (none≢some e)
  find-handle h (m ∷ ns) n e = ground (arith, find-handle h ns n)

  pub find-none : (h : ℕ) (ns : List (Node K V)) → All (λ m. m.handle ≢ h) ns → find h ns ≡ none
  unfolding find
  find-none h [] a = refl
  find-none h (m ∷ ns) a = rw (if_neg (ℕ_discrete m.handle h) a.0) (find-none h ns a.1)

  -- The elements that are left are apart from the one that is unlinked.
  pub Apart-unlink :
      (h : ℕ) (ns : List (Node K V)) (n : Node K V)
      → IsApart ns
      → find h ns ≡ some n
      → All (Apart n) (unlink h ns)
  unfolding unlink find
  Apart-unlink h [] n a e = absurd (none≢some e)
  Apart-unlink h (m ∷ ns) n a e = elim (ℕ_discrete m.handle h) [
    | yes q ↦
        let same = some-injective m n (rw (if_pos (ℕ_discrete m.handle h) q) at e) in
        rw (if_pos (ℕ_discrete m.handle h) q) (subst (λ x. All (Apart x) ns) same a.0)
    | no d ↦
        let e' : find h ns ≡ some n = rw (if_neg (ℕ_discrete m.handle h) d) at e in
        let (x, y) = All-find (Apart m) h ns n a.0 e' in
        rw (if_neg (ℕ_discrete m.handle h) d)
          ((λ p. x (sym p), λ p. y (sym p)), Apart-unlink h ns n a.1 e')
  ]

  pub All-back :
      (P : Node K V → Type 0) (ns : List (Node K V)) (n : Node K V)
      → All P ns
      → back ns ≡ some n
      → P n
  unfolding back
  All-back P [] n a e = absurd (none≢some e)
  All-back P (m ∷ []) n a e = subst P (some-injective m n e) a.0
  All-back P (m ∷ m' ∷ ns) n a e = All-back P (m' ∷ ns) n a.1 e

module _ {K V : Type 0} (dec : Discrete K) where
  -- the element with a key
  unfoldable pub find_key : K → List (Node K V) → Option (Node K V)
  find_key k [] = none
  find_key k (n ∷ ns) = ite (dec n.key k) (some n) (find_key k ns)

  pub find_key-none :
      (k : K) (ns : List (Node K V)) → All (λ m. m.key ≢ k) ns → find_key k ns ≡ none
  unfolding find_key
  find_key-none k [] a = refl
  find_key-none k (m ∷ ns) a = rw (if_neg (dec m.key k) a.0) (find_key-none k ns a.1)

  pub find_key-key :
      (k : K) (ns : List (Node K V)) (n : Node K V) → find_key k ns ≡ some n → n.key ≡ k
  unfolding find_key
  find_key-key k [] n e = absurd (none≢some e)
  find_key-key k (m ∷ ns) n e = ground (arith, find_key-key k ns n)

  pub All-find_key :
      (P : Node K V → Type 0) (k : K) (ns : List (Node K V)) (n : Node K V)
      → All P ns
      → find_key k ns ≡ some n
      → P n
  unfolding find_key
  All-find_key P k [] n a e = absurd (none≢some e)
  All-find_key P k (m ∷ ns) n a e = elim (dec m.key k) [
    | yes q ↦ subst P (some-injective m n (rw (if_pos (dec m.key k) q) at e)) a.0
    | no d ↦ All-find_key P k ns n a.1 (rw (if_neg (dec m.key k) d) at e)
  ]

  -- The element with a key is the one with its handle.
  pub find-find_key :
      (k : K) (ns : List (Node K V)) (n : Node K V)
      → IsApart ns
      → find_key k ns ≡ some n
      → find n.handle ns ≡ some n
  unfolding find find_key
  find-find_key k [] n a e = absurd (none≢some e)
  find-find_key k (m ∷ ns) n a e = elim (dec m.key k) [
    | yes q ↦
        let same = some-injective m n (rw (if_pos (dec m.key k) q) at e) in
        rw (if_pos (ℕ_discrete m.handle n.handle) (ap (λ (x : Node K V). x.handle) same))
          (ap some same)
    | no d ↦
        let e' : find_key k ns ≡ some n = rw (if_neg (dec m.key k) d) at e in
        let x = All-find_key (Apart m) k ns n a.0 e' in
        rw (if_neg (ℕ_discrete m.handle n.handle) (λ p. x.0 (sym p))) (find-find_key k ns n a.1 e')
  ]

  -- Unlinking the element `n` takes its key out, and no other.
  pub find_key-unlink :
      (k : K) (h : ℕ) (ns : List (Node K V)) (n : Node K V)
      → IsApart ns
      → find h ns ≡ some n
      → find_key k (unlink h ns) ≡ ite (dec n.key k) none (find_key k ns)
  unfolding find find_key unlink
  find_key-unlink k h [] n a e = absurd (none≢some e)
  find_key-unlink k h (m ∷ ns) n a e = elim (ℕ_discrete m.handle h) [
    | yes q ↦
        let same = some-injective m n (rw (if_pos (ℕ_discrete m.handle h) q) at e) in
        rw (if_pos (ℕ_discrete m.handle h) q, ← same)
          (elim (dec m.key k) [
            | yes p ↦
                find_key-none k ns (All-map (λ x y z. y.1 (z ∙ sym p)) ns a.0)
                ∙ sym (if_pos (dec m.key k) p none (find_key k (m ∷ ns)))
            | no p ↦ sym (
                if_neg (dec m.key k) p none (find_key k (m ∷ ns))
                ∙ if_neg (dec m.key k) p (some m) (find_key k ns))
          ])
    | no d ↦
        let e' : find h ns ≡ some n = rw (if_neg (ℕ_discrete m.handle h) d) at e in
        let x = All-find (Apart m) h ns n a.0 e' in
        let ih = find_key-unlink k h ns n a.1 e' in
        rw (if_neg (ℕ_discrete m.handle h) d) (elim (dec m.key k) [
          | yes p ↦
              if_pos (dec m.key k) p (some m) (find_key k (unlink h ns))
              ∙ sym (
                  if_neg (dec n.key k) (λ z. x.1 (z ∙ sym p)) none (find_key k (m ∷ ns))
                  ∙ if_pos (dec m.key k) p (some m) (find_key k ns))
          | no p ↦
              if_neg (dec m.key k) p (some m) (find_key k (unlink h ns))
              ∙ ih
              ∙ sym (ap (ite (dec n.key k) none) (if_neg (dec m.key k) p (some m) (find_key k ns)))
        ])
  ]

  pub find_key-none-All :
      (k : K) (ns : List (Node K V)) → find_key k ns ≡ none → All (λ m. m.key ≢ k) ns
  unfolding find_key
  find_key-none-All k [] e = tt
  find_key-none-All k (m ∷ ns) e = elim (dec m.key k) [
    | yes p ↦ absurd (none≢some (sym e ∙ if_pos (dec m.key k) p (some m) (find_key k ns)))
    | no d ↦ (d, find_key-none-All k ns (rw (if_neg (dec m.key k) d) at e))
  ]

  -- The last element is the one with its key.
  pub find_key-back :
      (ns : List (Node K V)) (n : Node K V)
      → IsApart ns
      → back ns ≡ some n
      → find_key n.key ns ≡ some n
  unfolding back find_key
  find_key-back [] n a e = absurd (none≢some e)
  find_key-back (m ∷ []) n a e =
      let same = some-injective m n e in
      if_pos (dec m.key n.key) (ap (λ (x : Node K V). x.key) same) (some m) none ∙ e
  find_key-back (m ∷ m' ∷ ns) n a e =
      let x = All-back (Apart m) (m' ∷ ns) n a.0 e in
      if_neg (dec m.key n.key) (λ p. x.1 (sym p)) (some m) (find_key n.key (m' ∷ ns))
      ∙ find_key-back (m' ∷ ns) n a.1 e

-- A list with an element has a last one.
pub back-some :
    {K V : Type 0} (m : Node K V) (ns : List (Node K V)) → (n : Node K V) × (back (m ∷ ns) ≡ some n)
unfolding back
back-some m [] = (m, refl)
back-some m (m' ∷ ns) = back-some m' ns
