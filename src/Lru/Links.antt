-- ===== src/Lru/Links.antt =====
-- The cache with its list and its map in step, and the parts of its methods.
use go_handbook_for_software.Base.{
  ℕ, suc, ◌≤◌, ◌<◌, ◌≡◌, ◌≢◌, refl, sym, ap, subst, ◌∙◌, List, [], ◌∷◌, ite, ℕ_discrete, Option,
  none, some, length, All, All-map, if_pos, if_neg, arith, Option-cases, inl, inr, none≢some,
}
use go_handbook_for_software.Base.Dict
use mathlib.Core.Option.{some-injective}
use go_handbook_for_software.Lru.{Node, Lru, new_lru, find, unlink, element, push_front}
use go_handbook_for_software.Lru.Nodes.{
  Apart, IsApart, All-find, All-find_key, All-unlink, find_key-none-All, IsApart-unlink,
  Apart-unlink, find_key, find_key-key, find-find_key, find_key-unlink,
}

All-both :
    {A : Type 0} (P Q : A → Type 0) (xs : List A) → All P xs → All Q xs → All (λ x. P x × Q x) xs
All-both P Q [] p q = tt
All-both P Q (x ∷ xs) p q = ((p.0, q.0), All-both P Q xs p.1 q.1)

-- the pairs of the cache, the last used first
abbrev pub pairs : {K V : Type 0} → List (Node K V) → List (K × V)
pairs [] = []
pairs (n ∷ ns) = (n.key, n.value) ∷ pairs ns

pub length-pairs : {K V : Type 0} (ns : List (Node K V)) → length (pairs ns) ≡ length ns
length-pairs [] = refl
length-pairs (n ∷ ns) = ap suc (length-pairs ns)

abbrev pub handle_of : {K V : Type 0} → Option (Node K V) → Option ℕ
handle_of none = none
handle_of (some n) = some n.handle

abbrev pub value_of : {K V : Type 0} → Option (Node K V) → Option V
value_of none = none
value_of (some n) = some n.value

module _ {K V : Type 0} (dec : Discrete K) where
  -- The elements are apart and have handles that were given out, and the map holds, for each key, the
  -- handle of the element with that key.
  pub record IsLinked (c : Lru K V) : Type 0 where
    pub apart : IsApart c.nodes
    pub given : All (λ n. n.handle < c.next) c.nodes
    pub step : (k : K) → Dict.lookup dec k c.item ≡ handle_of (find_key dec k c.nodes)

  -- Moreover, the list is within the bound.
  pub record IsValid (c : Lru K V) : Type 0 where
    pub linked : IsLinked c
    pub room : 0 < c.bound
    pub bounded : length c.nodes ≤ c.bound

  pub new_lru-IsValid : (bound : ℕ) → IsValid (new_lru bound)
  unfolding new_lru Dict.lookup find_key
  new_lru-IsValid bound = record {
    linked = record { apart = tt; given = tt; step = λ k. refl };
    room = ground arith;
    bounded = omega arith;
  }

  pub element-find_key :
      (k : K) (c : Lru K V) → IsLinked c → element dec k c ≡ find_key dec k c.nodes
  unfolding element
  element-find_key k c v = elim (Option-cases (find_key dec k c.nodes)) [
    | inl e ↦
        let l : Dict.lookup dec k c.item ≡ none = v.step k ∙ ap handle_of e in
        rw (l, element) (sym e)
    | inr (n, e) ↦
        let l : Dict.lookup dec k c.item ≡ some n.handle = v.step k ∙ ap handle_of e in
        rw (l, element) (find-find_key dec k c.nodes n v.apart e ∙ sym e)
  ]

  -- the pairs without the one of a key
  abbrev pub erase : K → List (K × V) → List (K × V)
  erase k [] = []
  erase k ((j, v) ∷ ps) = ite (dec j k) ps ((j, v) ∷ erase k ps)

  pub pairs-unlink :
      (h : ℕ) (ns : List (Node K V)) (n : Node K V)
      → IsApart ns
      → find h ns ≡ some n
      → pairs (unlink h ns) ≡ erase n.key (pairs ns)
  unfolding find unlink
  pairs-unlink h [] n a e = absurd (none≢some e)
  pairs-unlink h (m ∷ ns) n a e = elim (ℕ_discrete m.handle h) [
    | yes q ↦
        let same = some-injective m n (rw (if_pos (ℕ_discrete m.handle h) q) at e) in
        rw (if_pos (ℕ_discrete m.handle h) q) (
          sym (
            if_pos (dec m.key n.key) (ap (λ (x : Node K V). x.key) same) (pairs ns)
              ((m.key, m.value) ∷ erase n.key (pairs ns))))
    | no d ↦
        let e' : find h ns ≡ some n = rw (if_neg (ℕ_discrete m.handle h) d) at e in
        let x = All-find (Apart m) h ns n a.0 e' in
        rw (if_neg (ℕ_discrete m.handle h) d) (
          ap (◌∷◌ (m.key, m.value)) (pairs-unlink h ns n a.1 e')
          ∙ sym (
              if_neg (dec m.key n.key) (λ p. x.1 (sym p)) (pairs ns)
                ((m.key, m.value) ∷ erase n.key (pairs ns))))
  ]

  pub lookup-pairs :
      (k : K) (ns : List (Node K V)) → Dict.lookup dec k (pairs ns) ≡ value_of (find_key dec k ns)
  unfolding Dict.lookup find_key
  lookup-pairs k [] = refl
  lookup-pairs k (n ∷ ns) = ground (arith, lookup-pairs k ns)

  -- `n` is the element of a key.
  module _ (c : Lru K V) (key : K) (n : Node K V) (v : IsLinked c)
      (e : find_key dec key c.nodes ≡ some n) where
    pub at_handle : find n.handle c.nodes ≡ some n
    at_handle = find-find_key dec key c.nodes n v.apart e

    pub at_key : find_key dec n.key c.nodes ≡ some n
    at_key = subst (λ k. find_key dec k c.nodes ≡ some n) (sym (find_key-key dec key c.nodes n e)) e

    -- moving it to the front, with any value, keeps the cache valid
    pub front-IsLinked :
        (value : V) (hits : ℕ)
        → IsLinked
            (record c { nodes = record n { value = value } ∷ unlink n.handle c.nodes; hits = hits })
    unfolding find_key
    front-IsLinked value hits = record {
      apart = (
        Apart-unlink n.handle c.nodes n v.apart at_handle,
        IsApart-unlink n.handle c.nodes v.apart,
      );
      given = (
        All-find_key dec (λ m. m.handle < c.next) key c.nodes n v.given e,
        All-unlink (λ m. m.handle < c.next) n.handle c.nodes v.given,
      );
      step = λ k. elim (dec n.key k) [
        | yes p ↦
            v.step k
            ∙ ap handle_of (subst (λ q. find_key dec q c.nodes ≡ some n) p at_key)
            ∙ sym (
                ap handle_of (
                  if_pos (dec n.key k) p (some (record n { value = value }))
                    (find_key dec k (unlink n.handle c.nodes))))
        | no d ↦
            v.step k
            ∙ sym (
                ap handle_of (
                  if_neg (dec n.key k) d (some (record n { value = value }))
                    (find_key dec k (unlink n.handle c.nodes))
                  ∙ find_key-unlink dec k n.handle c.nodes n v.apart at_handle
                  ∙ if_neg (dec n.key k) d none (find_key dec k c.nodes)))
      ];
    }

    -- unlinking it and deleting its key keeps the cache valid
    pub unlink-IsLinked :
        (evictions : ℕ)
        → IsLinked (record c {
          nodes = unlink n.handle c.nodes;
          item = Dict.delete dec n.key c.item;
          evictions = evictions;
        })
    unlink-IsLinked evictions = record {
      apart = IsApart-unlink n.handle c.nodes v.apart;
      given = All-unlink (λ m. m.handle < c.next) n.handle c.nodes v.given;
      step = λ k. Dict.lookup-delete dec n.key k c.item ∙ elim (dec n.key k) [
        | yes p ↦
            if_pos (dec n.key k) p none (Dict.lookup dec k c.item)
            ∙ sym (
                ap handle_of (
                  find_key-unlink dec k n.handle c.nodes n v.apart at_handle
                  ∙ if_pos (dec n.key k) p none (find_key dec k c.nodes)))
        | no d ↦
            if_neg (dec n.key k) d none (Dict.lookup dec k c.item)
            ∙ v.step k
            ∙ sym (
                ap handle_of (
                  find_key-unlink dec k n.handle c.nodes n v.apart at_handle
                  ∙ if_neg (dec n.key k) d none (find_key dec k c.nodes)))
      ];
    }

  -- a new element at the front
  pub push_front-IsLinked :
      (c : Lru K V) (key : K) (value : V)
      → IsLinked c
      → find_key dec key c.nodes ≡ none
      → IsLinked (push_front dec key value c)
  unfolding push_front find_key
  push_front-IsLinked c key value v e = record {
    apart = (
      All-both (λ m. m.handle ≢ c.next) (λ m. m.key ≢ key) c.nodes
          (All-map (λ m l. apart_handle m l) c.nodes v.given) (find_key-none-All dec key c.nodes e),
      v.apart,
    );
    given = (omega arith, All-map (λ m l. omega arith) c.nodes v.given);
    step = λ k. Dict.lookup-insert dec key k c.next c.item ∙ elim (dec key k) [
      | yes p ↦
          if_pos (dec key k) p (some c.next) (Dict.lookup dec k c.item)
          ∙ sym (
              ap handle_of (
                if_pos (dec key k) p (some (record { handle = c.next; key = key; value = value }))
                  (find_key dec k c.nodes)))
      | no d ↦
          if_neg (dec key k) d (some c.next) (Dict.lookup dec k c.item)
          ∙ v.step k
          ∙ sym (
              ap handle_of (
                if_neg (dec key k) d (some (record { handle = c.next; key = key; value = value }))
                  (find_key dec k c.nodes)))
    ];
  }
    where
      apart_handle : (m : Node K V) → m.handle < c.next → m.handle ≢ c.next
      apart_handle m l = λ q. absurd (omega (arith, q))
