-- ===== src/Lru/Eviction.antt =====
-- The eviction of the element used longest ago.
use go_handbook_for_software.Base.{
  ℕ, zero, suc, ◌<◌, ◌≡◌, refl, sym, ap, ◌∙◌, Bool, List, [], ◌∷◌, Option, none, some,
  if◌then◌else◌, length, if_pos, if_neg, ℕ_discrete, get_elem?, arith, take, none≢some,
}
use go_handbook_for_software.Base.Dict
use mathlib.Core.Option.{some-injective}
use go_handbook_for_software.Lru.{Node, Lru, count_up, unlink, back, evict}
use go_handbook_for_software.Lru.Nodes.{Apart, IsApart, All-back, find_key-back, length-unlink}
use go_handbook_for_software.Lru.Links.{pairs, IsLinked, IsValid, at_handle, unlink-IsLinked}

-- Unlinking the last element cuts the list by one.
pub unlink-back :
    {K V : Type 0} (ns : List (Node K V)) (n : Node K V) (m : ℕ)
    → IsApart ns
    → back ns ≡ some n
    → length ns ≡ suc m
    → (pairs (unlink n.handle ns) ≡ take m (pairs ns))
      × (get_elem? (pairs ns) m ≡ some (n.key, n.value))
unfolding back unlink
unlink-back [] n m a e l = absurd (none≢some e)
unlink-back (x ∷ []) n zero a e l =
    let same = some-injective x n e in
    (
      rw (if_pos (ℕ_discrete x.handle n.handle) (ap (λ (y : Node _ _). y.handle) same)) refl,
      ap (λ (y : Node _ _). some (y.key, y.value)) same,
    )
unlink-back (x ∷ []) n (suc m) a e l = absurd (omega arith)
unlink-back (x ∷ y ∷ ns) n zero a e l = absurd (omega arith)
unlink-back (x ∷ y ∷ ns) n (suc m) a e l =
    let apart = All-back (Apart x) (y ∷ ns) n a.0 e in
    let (p, q) = unlink-back (y ∷ ns) n m a.1 e (omega arith) in
    (
      rw (if_neg (ℕ_discrete x.handle n.handle) (λ z. apart.0 (sym z)))
          (ap (◌∷◌ (x.key, x.value)) p),
      q,
    )

-- the pair that `onEvict` is called with, if it is set
abbrev pub notified : {K V : Type 0} → Bool → Option (K × V) → Option (K × V)
notified hooked p = if hooked then p else none

module _ {K V : Type 0} (dec : Discrete K) where
  evict_nodes :
      (d : Lru K V) (ns : List (Node K V)) (n : Node K V)
      → d.nodes ≡ ns
      → back ns ≡ some n
      → evict dec d ≡ (
        record d {
          nodes = unlink n.handle d.nodes;
          item = Dict.delete dec n.key d.item;
          evictions = count_up d.evictions;
        },
        notified d.hooked (some (n.key, n.value)),
      )
  unfolding evict
  evict_nodes d ns n q e = rw (ap back q ∙ e, evict) refl

  -- the eviction of a cache with one element too many
  pub evict_lem :
      (d : Lru K V)
      → IsLinked dec d
      → 0 < d.bound
      → length d.nodes ≡ suc d.bound
      → (n : Node K V) → back d.nodes ≡ some n
      → let (c', r) = evict dec d in
        IsValid dec c'
        × (pairs c'.nodes ≡ take d.bound (pairs d.nodes))
        × (r ≡ notified d.hooked (get_elem? (pairs d.nodes) d.bound))
        × (c'.bound ≡ d.bound)
        × (c'.hooked ≡ d.hooked)
  evict_lem d v room size n e =
      let found = find_key-back dec d.nodes n v.apart e in
      let (p, q) = unlink-back d.nodes n d.bound v.apart e size in
      rw (evict_nodes d d.nodes n refl e) (
        record {
          linked = unlink-IsLinked dec d n.key n v found (count_up d.evictions);
          room = room;
          bounded =
              omega (arith, length-unlink n.handle d.nodes n (at_handle dec d n.key n v found));
        },
        p,
        sym (ap (notified d.hooked) q),
        refl,
        refl,
      )
