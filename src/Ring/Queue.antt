-- ===== src/Ring/Queue.antt =====
-- The ring against a queue of at most `cap` elements.
use go_handbook_for_software.Base.{
  ℕ, suc, ◌+◌, ◌-◌, ◌%◌, ◌≤◌, ◌<◌, ◌≡◌, ◌≢◌, refl, sym, ap, ap₂, ◌∙◌, List, [], ◌∷◌, ◌++◌, Option,
  none, some, if◌then◌else◌, ◌==◌, arith, length, get_or, set, length-set, get_or-set_self,
  get_or-set_ne, length-replicate, ℕ_discrete, drop, get_elem?, eq_true, eq_false,
}
use go_handbook_for_software.Ring.{Ring, new_ring, drop_oldest, push, pop, peek, cap}
use go_handbook_for_software.Ring.Indices.{
  round-cases, round-ne, round-suc, tabulate, tabulate-cong, tabulate_last, length-tabulate,
}

pub record IsValid {ℓ} {T : Type ℓ} (r : Ring T) : Type ℓ where
  pub head_in : r.head < length r.items
  pub count_in : r.count ≤ length r.items

module _ {ℓ} {T : Type ℓ} where
  -- The specification of `Push`: a bounded queue that drops its oldest element when it is full.
  unfoldable pub push_spec : ℕ → List T → T → List T × Option T
  push_spec bound q v =
      if length q == bound then (drop 1 q ++ v ∷ [], get_elem? q 0) else (q ++ v ∷ [], none)

  -- The specification of `Pop`.
  unfoldable pub pop_spec : List T → List T × Option T
  pop_spec [] = ([], none)
  pop_spec (x ∷ q) = (q, some x)

module _ {ℓ} {T : Type ℓ} (default : T) where
  -- the element `j` places behind the oldest
  abbrev pub slot : Ring T → ℕ → T
  slot r j = get_or r.items ((r.head + j) % length r.items) default

  -- the elements of the ring, oldest first
  abbrev pub contents : Ring T → List T
  contents r = tabulate r.count (slot r)

  pub new_ring-IsValid :
      (n : ℕ) → IsValid (new_ring default n) × (contents (new_ring default n) ≡ [])
  unfolding new_ring
  new_ring-IsValid n = ground (arith, length-replicate n default, length-replicate 1 default)

  pub cap-new_ring : (n : ℕ) → 0 < n → cap (new_ring default n) ≡ n
  unfolding new_ring
  cap-new_ring n h = ground (arith, length-replicate n default)

  -- The ring without its oldest element.
  abbrev pub rest : Ring T → Ring T
  rest r = record {
    items = set r.items r.head default;
    head = (r.head + 1) % length r.items;
    count = r.count - 1;
  }

  rest-IsValid : (r : Ring T) → IsValid r → 0 < r.count → IsValid (rest r)
  rest-IsValid r v p = record {
    head_in = rw length-set (omega arith);
    count_in = rw length-set (omega (arith, v.count_in));
  }

  slot-rest :
      (r : Ring T) (i : ℕ) → IsValid r → suc i < length r.items → slot r (suc i) ≡ slot (rest r) i
  slot-rest r i v l = sym (
      rw (
        length-set,
        round-suc (length r.items) r.head i,
        get_or-set_ne r.items r.head ((r.head + suc i) % length r.items) default default away,
      ))
    where
      away : r.head ≢ (r.head + suc i) % length r.items
      away = ground (
        arith,
        round-ne (length r.items) r.head 0 (suc i) v.head_in,
        round-cases (length r.items) (r.head + 0) (omega (arith, v.head_in)),
        v.head_in,
      )

  contents-rest :
      (r : Ring T) (k : ℕ) → IsValid r → r.count ≡ suc k → contents r ≡ slot r 0 ∷ contents (rest r)
  contents-rest r k v e =
      ap (λ n. tabulate n (slot r)) e
      ∙ ap (◌∷◌ (slot r 0)) (
          tabulate-cong k (λ i. slot r (suc i)) (slot (rest r))
            (λ i l. slot-rest r i v (omega (arith, v.count_in)))
          ∙ ap (λ n. tabulate n (slot (rest r))) (omega arith))

  -- writing behind the youngest element
  abbrev pub with_last : Ring T → T → Ring T
  with_last r v = record r {
    items = set r.items ((r.head + r.count) % length r.items) v;
    count = r.count + 1;
  }

  with_last-IsValid :
      (r : Ring T) (v : T) → IsValid r → r.count < length r.items → IsValid (with_last r v)
  with_last-IsValid r v h l = record {
    head_in = rw length-set h.head_in;
    count_in = rw length-set (omega arith);
  }

  slot-with_last :
      (r : Ring T) (v : T) (i : ℕ)
      → IsValid r
      → r.count < length r.items
      → i < r.count
      → slot (with_last r v) i ≡ slot r i
  slot-with_last r v i h l p = rw (
    length-set,
    get_or-set_ne r.items ((r.head + r.count) % length r.items) ((r.head + i) % length r.items) v
        default
        (round-ne (length r.items) r.head r.count i h.head_in l (omega arith) (omega arith)),
  )

  contents-with_last :
      (r : Ring T) (v : T)
      → IsValid r
      → r.count < length r.items
      → contents (with_last r v) ≡ contents r ++ v ∷ []
  contents-with_last r v h l =
      ap (λ n. tabulate n (slot (with_last r v))) {y = suc r.count} (omega arith)
      ∙ tabulate_last r.count (slot (with_last r v))
      ∙ ap₂ (λ q x. q ++ x ∷ [])
          (tabulate-cong r.count (slot (with_last r v)) (slot r)
            (λ i p. slot-with_last r v i h l p))
          (rw (
            length-set,
            get_or-set_self r.items ((r.head + r.count) % length r.items) v default (omega arith),
          ))

  oldest : (r : Ring T) → IsValid r → get_or r.items r.head default ≡ slot r 0
  oldest r v =
      ap (λ i. get_or r.items i default)
        (ground
          (arith, round-cases (length r.items) (r.head + 0) (omega (arith, v.head_in)), v.head_in))

  pop-empty : (r : Ring T) → r.count ≡ 0 → pop default r ≡ (r, none)
  unfolding pop
  pop-empty r e = ground arith

  pop-rest : (r : Ring T) → IsValid r → 0 < r.count → pop default r ≡ (rest r, some (slot r 0))
  unfolding pop
  pop-rest r v p = ground (arith, oldest r v)

  -- `Pop` of a valid ring keeps it valid, at the same capacity, and takes the oldest element of its
  -- queue, if there is one.
  pub pop_refines :
      (r : Ring T)
      → IsValid r
      → IsValid (pop default r).0
        × (cap (pop default r).0 ≡ cap r)
        × ((contents (pop default r).0, (pop default r).1) ≡ pop_spec (contents r))
  unfolding pop_spec
  pop_refines r v = elim (ℕ_discrete r.count 0) [
    | yes e ↦
        let c : contents r ≡ [] = ap (λ n. tabulate n (slot r)) e in
        rw (pop-empty r e) (v, refl, ground (arith, c))
    | no n ↦
        let c = contents-rest r (r.count - 1) v (omega arith) in
        rw (pop-rest r v (omega arith))
          (rest-IsValid r v (omega arith), length-set r.items r.head default, ground (arith, c))
  ]

  push-full :
      (r : Ring T) (x : T)
      → IsValid r
      → r.count ≡ length r.items
      → push default r x ≡ (with_last (rest r) x, some (slot r 0))
  unfolding push drop_oldest
  push-full r x v e =
      rw (eq_true r.count (length r.items) e, push, drop_oldest)
        (ap (λ y. (with_last (rest r) x, some y)) (oldest r v))

  push-room :
      (r : Ring T) (x : T) → r.count < length r.items → push default r x ≡ (with_last r x, none)
  unfolding push drop_oldest
  push-room r x l = rw (eq_false r.count (length r.items) (omega arith), push, drop_oldest)

  -- `Push` on a valid ring keeps it valid, at the same capacity, and appends to its queue; if the
  -- queue was full, the oldest element leaves and is returned.
  pub push_refines :
      (r : Ring T) (x : T)
      → IsValid r
      → IsValid (push default r x).0
        × (cap (push default r x).0 ≡ cap r)
        × ((contents (push default r x).0, (push default r x).1) ≡ push_spec (cap r) (contents r) x)
  unfolding push_spec
  push_refines r x v = elim (ℕ_discrete r.count (length r.items)) [
    | no n ↦
        let l : r.count < length r.items = omega (arith, v.count_in) in
        rw (push-room r x l) (
          with_last-IsValid r x v l,
          length-set r.items ((r.head + r.count) % length r.items) x,
          ground (arith, contents-with_last r x v l, length-tabulate r.count (slot r)),
        )
    | yes e ↦
        let p : 0 < r.count = omega (arith, v.head_in) in
        let w = rest-IsValid r v p in
        let l : (rest r).count < length (rest r).items = rw length-set (omega arith) in
        let size = length-set r.items r.head default in
        rw (push-full r x v e) (
          with_last-IsValid (rest r) x w l,
          length-set (rest r).items (((rest r).head + (rest r).count) % length (rest r).items) x
              ∙ size,
          ground (
            arith,
            contents-with_last (rest r) x w l,
            contents-rest r (r.count - 1) v (omega arith),
            length-tabulate r.count (slot r),
            e,
          ),
        )
  ]

  -- With room left, `Push` only appends.
  pub contents-push_room :
      (r : Ring T) (x : T)
      → IsValid r
      → length (contents r) < cap r
      → contents (push default r x).0 ≡ contents r ++ x ∷ []
  unfolding push_spec
  contents-push_room r x v l =
      ap (λ (p : List T × Option T). p.0) (push_refines r x v).2
      ∙ rw (eq_false (length (contents r)) (cap r) (omega arith))

  -- `Peek` shows the oldest element of the queue, and is what `Pop` returns.
  pub peek_refines : (r : Ring T) → IsValid r → peek default r ≡ (pop default r).1
  unfolding peek pop
  peek_refines r v = ground arith
