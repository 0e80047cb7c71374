-- ===== src/Lru/Refine.antt =====
-- The cache against a list of pairs in order of use.
use go_handbook_for_software.Base.{
  ℕ, suc, ◌+◌, ◌≡◌, refl, sym, ap, ap₂, ◌∙◌, Bool, true, false, List, ◌∷◌, Option, none, some,
  if◌then◌else◌, length, dec_lt, lt_true, lt_false, take_of_length-le, get_elem?-none, get_elem?,
  arith, take, Option-cases, inl, inr,
}
use go_handbook_for_software.Base.Dict
use go_handbook_for_software.Lru.{Node, Lru, count_up, unlink, get, peek, push_front, put, remove}
use go_handbook_for_software.Lru.Eviction.{notified, evict_lem}
use go_handbook_for_software.Lru.Nodes.{find_key, find_key-key, back-some, length-unlink}
use go_handbook_for_software.Lru.Links.{
  pairs, length-pairs, value_of, IsValid, element-find_key, erase, pairs-unlink, lookup-pairs,
  at_handle, front-IsLinked, unlink-IsLinked, push_front-IsLinked,
}

Bool-same : {A : Type 0} (b : Bool) → ◌≡◌ {A = Option A} none (if b then none else none)
Bool-same true = refl
Bool-same false = refl

module _ {K V : Type 0} (dec : Discrete K) where
  -- The specification: the pairs with the last used first. A use moves the pair of its key to the
  -- front.
  unfoldable pub use_spec : K → V → List (K × V) → List (K × V)
  use_spec key v ps = (key, v) ∷ erase dec key ps

  unfoldable pub get_spec : K → List (K × V) → List (K × V) × Option V
  get_spec key ps = elim (Dict.lookup dec key ps) [
    | none ↦ (ps, none)
    | some v ↦ (use_spec key v ps, some v)
  ]

  -- `Put` of a new key adds its pair at the front and cuts the list at the bound; beside it stands
  -- the pair that is cut off.
  unfoldable pub put_spec : ℕ → K → V → List (K × V) → List (K × V) × Option (K × V)
  put_spec bound key v ps = elim (Dict.lookup dec key ps) [
    | some _ ↦ (use_spec key v ps, none)
    | none ↦ (take bound ((key, v) ∷ ps), get_elem? ((key, v) ∷ ps) bound)
  ]

  unfoldable pub remove_spec : K → List (K × V) → List (K × V) × Bool
  remove_spec key ps = elim (Dict.lookup dec key ps) [
    | none ↦ (ps, false)
    | some _ ↦ (erase dec key ps, true)
  ]

  missed-IsValid :
      (c : Lru K V) (misses : ℕ) → IsValid dec c → IsValid dec (record c { misses = misses })
  missed-IsValid c misses v = record {
    linked = record { apart = v.linked.apart; given = v.linked.given; step = v.linked.step };
    room = v.room;
    bounded = v.bounded;
  }

  module _ (c : Lru K V) (key : K) (n : Node K V) (v : IsValid dec c)
      (e : find_key dec key c.nodes ≡ some n) where
    fewer : length (unlink n.handle c.nodes) + 1 ≡ length c.nodes
    fewer = length-unlink n.handle c.nodes n (at_handle dec c key n v.linked e)

    front-IsValid :
        (value : V) (hits : ℕ)
        → IsValid dec
            (record c { nodes = record n { value = value } ∷ unlink n.handle c.nodes; hits = hits })
    front-IsValid value hits = record {
      linked = front-IsLinked dec c key n v.linked e value hits;
      room = v.room;
      bounded = omega (arith, fewer, v.bounded);
    }

    erased : pairs (unlink n.handle c.nodes) ≡ erase dec key (pairs c.nodes)
    erased =
        pairs-unlink dec n.handle c.nodes n v.linked.apart (at_handle dec c key n v.linked e)
        ∙ ap (λ k. erase dec k (pairs c.nodes)) (find_key-key dec key c.nodes n e)

    front-pairs :
        (value : V)
        → pairs (record n { value = value } ∷ unlink n.handle c.nodes)
          ≡ use_spec key value (pairs c.nodes)
    unfolding use_spec
    front-pairs value = ap₂ (λ k ps. (k, value) ∷ ps) (find_key-key dec key c.nodes n e) erased

  -- `Get` on a valid cache keeps it valid, moves the pair of the key to the front if there is one,
  -- returns its value, and counts a hit or a miss; `Peek` returns the same value.
  pub get_refines :
      (key : K) (c : Lru K V)
      → IsValid dec c
      → let (c', r) = get dec key c in
        IsValid dec c'
        × ((pairs c'.nodes, r) ≡ get_spec key (pairs c.nodes))
        × (peek dec key c ≡ r)
        × (c'.bound ≡ c.bound)
        × (c'.hooked ≡ c.hooked)
        × (c'.hits ≡ (elim r [ none ↦ c.hits | some _ ↦ count_up c.hits ]))
        × (c'.misses ≡ (elim r [ none ↦ count_up c.misses | some _ ↦ c.misses ]))
  unfolding get_spec get peek
  get_refines key c v =
      let at = element-find_key dec key c v.linked in
      let look = lookup-pairs dec key c.nodes in
      elim (Option-cases (find_key dec key c.nodes)) [
        | inl e ↦
            rw (at ∙ e, get)
              (rw (at ∙ e, peek)
                (rw (look ∙ ap value_of e, get_spec)
                  (missed-IsValid c (count_up c.misses) v, refl, refl, refl, refl, refl, refl)))
        | inr (n, e) ↦
            rw (at ∙ e, get)
              (rw (at ∙ e, peek)
                (rw (look ∙ ap value_of e, get_spec)
                  (
                    front-IsValid c key n v e n.value (count_up c.hits),
                    ap (λ ps. (ps, some n.value)) (front-pairs c key n v e n.value),
                    refl,
                    refl,
                    refl,
                    refl,
                    refl,
                  )))
      ]

  -- `Remove` takes the pair of the key out, and tells whether there was one.
  pub remove_refines :
      (key : K) (c : Lru K V)
      → IsValid dec c
      → let (c', r) = remove dec key c in
        IsValid dec c'
        × ((pairs c'.nodes, r) ≡ remove_spec key (pairs c.nodes))
        × (c'.bound ≡ c.bound)
        × (c'.hooked ≡ c.hooked)
  unfolding remove_spec remove
  remove_refines key c v =
      let at = element-find_key dec key c v.linked in
      let look = lookup-pairs dec key c.nodes in
      elim (Option-cases (find_key dec key c.nodes)) [
        | inl e ↦ rw (at ∙ e, remove) (rw (look ∙ ap value_of e, remove_spec) (v, refl, refl, refl))
        | inr (n, e) ↦
            rw (at ∙ e, remove)
              (rw (look ∙ ap value_of e, remove_spec)
                (
                  record {
                    linked = unlink-IsLinked dec c key n v.linked e c.evictions;
                    room = v.room;
                    bounded = omega (arith, fewer c key n v e, v.bounded);
                  },
                  ap (λ ps. (ps, true)) (erased c key n v e),
                  refl,
                  refl,
                ))
      ]

  -- `Put` keeps the cache valid, and is the specification's: a known key is moved to the front with
  -- its new value, a new one is added, and of a full cache exactly the pair used longest ago is cut
  -- off and handed to `onEvict`, if that is set.
  pub put_refines :
      (key : K) (value : V) (c : Lru K V)
      → IsValid dec c
      → let (c', r) = put dec key value c in
        let (ps, cut) = put_spec c.bound key value (pairs c.nodes) in
        IsValid dec c'
        × (pairs c'.nodes ≡ ps)
        × (r ≡ notified c.hooked cut)
        × (c'.bound ≡ c.bound)
        × (c'.hooked ≡ c.hooked)
  unfolding put_spec put push_front
  put_refines key value c v =
      let at = element-find_key dec key c v.linked in
      let look = lookup-pairs dec key c.nodes in
      elim (Option-cases (find_key dec key c.nodes)) [
        | inr (n, e) ↦
            rw (at ∙ e, put)
              (rw (look ∙ ap value_of e, put_spec)
                (
                  front-IsValid c key n v e value c.hits,
                  front-pairs c key n v e value,
                  Bool-same c.hooked,
                  refl,
                  refl,
                ))
        | inl e ↦
            let d = push_front dec key value c in
            let linked = push_front-IsLinked dec c key value v.linked e in
            rw (at ∙ e, put)
              (rw (look ∙ ap value_of e, put_spec)
                (elim (dec_lt c.bound (suc (length c.nodes))) [
                  | yes full ↦
                      let (n, last) =
                        back-some (record { handle = c.next; key = key; value = value }) c.nodes in
                      rw (lt_true c.bound (suc (length c.nodes)) full)
                        (evict_lem dec d linked v.room (omega (arith, v.bounded)) n last)
                  | no room ↦ rw (lt_false c.bound (suc (length c.nodes)) room) (
                    record { linked = linked; room = v.room; bounded = omega arith },
                    sym (
                        take_of_length-le c.bound ((key, value) ∷ pairs c.nodes)
                          (omega (arith, length-pairs c.nodes))),
                    Bool-same c.hooked
                        ∙ sym (
                            ap (notified c.hooked) (
                              get_elem?-none ((key, value) ∷ pairs c.nodes) c.bound
                                (omega (arith, length-pairs c.nodes)))),
                    refl,
                    refl,
                  )
                ]))
      ]
