-- ===== src/Ring/Window.antt =====
-- `Map`, and the RecentKeys window.
use go_handbook_for_software.Base.{
  ℕ, zero, suc, ◌+◌, ◌≤◌, ◌<◌, ◌≡◌, refl, sym, subst, ap, ap₂, ◌∙◌, Bool, true, false, List, [],
  ◌∷◌, ◌++◌, Option, none, some, if◌then◌else◌, ◌==◌, arith, length, length-append, map, drop,
  get_elem?, append_assoc, append-nil, String, str_dec, ite, eq_false, Bool-cases, inl, inr, has,
  IsDistinct, has_last, IsDistinct-last,
}
use mathlib.Core.Option.{some-injective}
use go_handbook_for_software.Base.Dict
use go_handbook_for_software.Ring.{
  Ring, new_ring, push, cap, map_loop, map_ring, RecentKeys, new_recent_keys, forget, seen_key,
  contains, is_some,
}
use go_handbook_for_software.Ring.Indices.{tabulate, tabulate-cong}
use go_handbook_for_software.Ring.Queue.{
  IsValid, slot, contents, push_spec, contents-push_room, cap-new_ring, push_refines,
  new_ring-IsValid,
}

module _ {ℓ} {T U : Type ℓ} (default : T) (default' : U) (r : Ring T) (f : T → U) where
  -- the results for the elements from place `i` on
  abbrev results : ℕ → ℕ → List U
  results i zero = []
  results i (suc left) = f (slot default r i) ∷ results (i + 1) left

  map_loop-contents :
      (left i : ℕ) (out : Ring U)
      → IsValid out
      → length (contents default' out) + left ≤ cap out
      → contents default' (map_loop default default' r f left i out)
        ≡ contents default' out ++ results i left
  unfolding map_loop
  map_loop-contents zero i out v b = sym (append-nil (contents default' out))
  map_loop-contents (suc left) i out v b =
      let x = f (slot default r i) in
      let out' = (push default' out x).0 in
      let (v', kept, _) = push_refines default' out x v in
      let added = contents-push_room default' out x v (omega arith) in
      let size : length (contents default' out') ≡ length (contents default' out) + 1 =
        ap length added ∙ length-append (contents default' out) (x ∷ []) in
      map_loop-contents left (i + 1) out' v' (omega (arith, size, kept))
      ∙ rw added (append_assoc (contents default' out) (x ∷ []) (results (i + 1) left))

  results-map : (left i : ℕ) → results i left ≡ map f (tabulate left (λ j. slot default r (i + j)))
  results-map zero i = refl
  results-map (suc left) i = ap₂ ◌∷◌ (ap (λ k. f (slot default r k)) {y = i + 0} (omega arith)) (
      results-map left (i + 1)
      ∙ ap (map f) (
          tabulate-cong left (λ j. slot default r (i + 1 + j)) (λ j. slot default r (i + suc j))
            (λ j l. ap (slot default r) (omega arith))))

  -- `Map` of a valid ring is a valid ring of the same capacity, and its queue holds the results for
  -- the elements, in order.
  pub map_ring-contents :
      IsValid r → contents default' (map_ring default default' r f) ≡ map f (contents default r)
  unfolding map_ring
  map_ring-contents v =
      let out = new_ring default' (length r.items) in
      let (w, e) = new_ring-IsValid default' (length r.items) in
      let c = cap-new_ring default' (length r.items) (omega (arith, v.head_in)) in
      map_loop-contents r.count 0 out w (omega (arith, ap length e, c, v.count_in))
      ∙ ap (λ q. q ++ results 0 r.count) e
      ∙ results-map r.count 0
      ∙ ap (map f) (
          tabulate-cong r.count (λ j. slot default r (0 + j)) (slot default r)
            (λ j l. ap (slot default r) (omega arith)))

-- The keys of the map are the elements of the ring, each once.
pub record InStep (r : RecentKeys) : Type 0 where
  pub valid : IsValid r.ring
  pub same : (k : String) → contains r k ≡ has k (contents "" r.ring)
  pub distinct : IsDistinct (contents "" r.ring)

-- The queue of the last keys, after `k` is recorded: the specification of `Seen`.
pub window_spec : ℕ → List String → String → List String
window_spec bound q k = if has k q then q else (push_spec bound q k).0

pub new_recent_keys-InStep : (n : ℕ) → InStep (new_recent_keys n)
unfolding new_recent_keys contains Dict.lookup
new_recent_keys-InStep n =
    let (v, e) = new_ring-IsValid "" n in
    record { valid = v; same = λ k. rw e refl; distinct = rw e tt }

is_some-insert :
    (k j : String) (m : List (String × Unit {0}))
    → is_some (Dict.lookup str_dec j (Dict.insert str_dec k tt m))
      ≡ ite (str_dec k j) true (is_some (Dict.lookup str_dec j m))
is_some-insert k j m = ground (arith, Dict.lookup-insert str_dec k j tt m)

is_some-delete :
    (k j : String) (m : List (String × Unit {0}))
    → is_some (Dict.lookup str_dec j (Dict.delete str_dec k m))
      ≡ ite (str_dec k j) false (is_some (Dict.lookup str_dec j m))
is_some-delete k j m = ground (arith, Dict.lookup-delete str_dec k j m)

-- without its oldest key a list of distinct keys has the others
has-drop :
    (j x : String) (q : List String)
    → IsDistinct q
    → get_elem? q 0 ≡ some x
    → has j (drop 1 q) ≡ ite (str_dec x j) false (has j q)
has-drop j x [] d e = cc
has-drop j x (y ∷ q) d e = elim (str_dec x j) [
  | yes p ↦ ground (arith, subst (λ z. has z q ≡ false) (some-injective y x e ∙ p) d.0)
  | no n ↦ ground (arith, some-injective y x e)
]

IsDistinct-drop : (q : List String) → IsDistinct q → IsDistinct (drop 1 q)
IsDistinct-drop [] d = tt
IsDistinct-drop (x ∷ q) d = d.1

-- what an eviction leaves of a membership test
without : Option String → String → Bool → Bool
without none j b = b
without (some x) j b = ite (str_dec x j) false b

is_some-forget :
    (e : Option String) (j : String) (m : List (String × Unit {0}))
    → is_some (Dict.lookup str_dec j (forget e m)) ≡ without e j (is_some (Dict.lookup str_dec j m))
unfolding forget without
is_some-forget none j m = refl
is_some-forget (some x) j m = is_some-delete x j m

push_spec-IsDistinct :
    (bound : ℕ) (q : List String) (k : String)
    → 0 < bound
    → IsDistinct q
    → has k q ≡ false
    → IsDistinct (push_spec bound q k).0
      × ((j : String)
          → has j (push_spec bound q k).0
            ≡ ite (str_dec k j) true (without (push_spec bound q k).1 j (has j q)))
unfolding push_spec without
push_spec-IsDistinct bound [] k b d h = rw (eq_false 0 bound (omega arith)) ((refl, tt), λ j. refl)
push_spec-IsDistinct bound (x ∷ q) k b d h = elim (Bool-cases (length (x ∷ q) == bound)) [
  | inr n ↦ rw n (IsDistinct-last k (x ∷ q) d h, λ j. has_last j k (x ∷ q))
  | inl f ↦ rw f (
    IsDistinct-last k q d.1 (ground arith),
    λ j. has_last j k q ∙ ap (ite (str_dec k j) true) (has-drop j x (x ∷ q) d refl),
  )
]

seen_hit : (r : RecentKeys) (k : String) → contains r k ≡ true → seen_key r k ≡ (r, true)
unfolding seen_key contains
seen_hit r k h = ground arith

-- `Seen` of a key that is not in the map
abbrev pub recorded : RecentKeys → String → RecentKeys
recorded r k =
    let (ring', evicted) = push "" r.ring k in
    record { ring = ring'; seen = Dict.insert str_dec k tt (forget evicted r.seen) }

seen_miss :
    (r : RecentKeys) (k : String) → contains r k ≡ false → seen_key r k ≡ (recorded r k, false)
unfolding seen_key contains
seen_miss r k h = ground arith

recorded-InStep :
    (r : RecentKeys) (k : String)
    → InStep r
    → contains r k ≡ false
    → InStep (recorded r k)
      × (contents "" (recorded r k).ring ≡ (push_spec (cap r.ring) (contents "" r.ring) k).0)
unfolding contains
recorded-InStep r k s m =
    let q = contents "" r.ring in
    let (v, kept, e) = push_refines "" r.ring k s.valid in
    let new : contents "" (recorded r k).ring ≡ (push_spec (cap r.ring) q k).0 =
      ap (λ (p : List String × Option String). p.0) e in
    let evicted : (push "" r.ring k).1 ≡ (push_spec (cap r.ring) q k).1 =
      ap (λ (p : List String × Option String). p.1) e in
    let (d, t) =
      push_spec-IsDistinct (cap r.ring) q k (omega (arith, s.valid.head_in)) s.distinct
        (sym (s.same k) ∙ m) in
    (
      record {
        valid = v;
        same = λ j.
            is_some-insert k j (forget (push "" r.ring k).1 r.seen)
            ∙ ap (ite (str_dec k j) true) (
                is_some-forget (push "" r.ring k).1 j r.seen
                ∙ ap (without (push "" r.ring k).1 j) (s.same j)
                ∙ ap (λ e. without e j (has j q)) evicted)
            ∙ sym (t j)
            ∙ ap (has j) (sym new);
        distinct = subst IsDistinct (sym new) d;
      },
      new,
    )

-- `Seen` answers whether the key is among the keys of the window, and leaves the map and the ring in
-- step: a hit changes nothing (it does not refresh the key), and a miss records the key, dropping the
-- oldest one if the window was full. `Contains` is the same answer with no change.
pub seen_key_refines :
    (r : RecentKeys) (k : String)
    → InStep r
    → let (r', answer) = seen_key r k in
      InStep r'
      × (contents "" r'.ring ≡ window_spec (cap r.ring) (contents "" r.ring) k)
      × (answer ≡ has k (contents "" r.ring))
      × (answer ≡ contains r k)
unfolding window_spec
seen_key_refines r k s = elim (Bool-cases (contains r k)) [
  | inl h ↦ rw (seen_hit r k h) (s, rw (← s.same k, h), sym h ∙ s.same k, sym h)
  | inr m ↦
      let (s', e) = recorded-InStep r k s m in
      rw (seen_miss r k m) (s', rw (← s.same k, m) e, sym m ∙ s.same k, sym m)
]
