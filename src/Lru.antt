-- ===== src/Lru.antt =====
-- 03-data-structures/examples/lru/lru.go: the LRU cache of a map and a linked list. An element of the
-- list is known by its handle, which is what the map holds; `next` is the handle that the list gives
-- out next. The mutex serialises the methods. A read of an element that is not in the list, which
-- cannot be in Go, reads as a miss; the map of a valid cache (Lru.Links) holds no such element.
pub mod Nodes
pub mod Links
pub mod Eviction
pub mod Refine
pub mod History
mod Tests
use go_handbook_for_software.Base.{
  ℕ, suc, ◌+◌, ◌%◌, ◌^◌, Bool, true, false, List, [], ◌∷◌, ite, ℕ_discrete, Option, none, some,
  if◌then◌else◌, ltb, length,
}
use go_handbook_for_software.Base.Dict

-- an element of the list, with its `entry`
pub record Node (K V : Type 0) : Type 0 where
  pub handle : ℕ
  pub key : K
  pub value : V

-- `LRU`; the front of the list is its head, and `hooked` tells that `onEvict` is set
pub record Lru (K V : Type 0) : Type 0 where
  pub bound : ℕ
  pub nodes : List (Node K V)
  pub item : List (K × ℕ)
  pub next : ℕ
  pub hooked : Bool
  pub hits : ℕ
  pub misses : ℕ
  pub evictions : ℕ

-- `New`
unfoldable pub new_lru : {K V : Type 0} → ℕ → Lru K V
new_lru bound = record {
  bound = if ltb bound 1 then 1 else bound;
  nodes = [];
  item = [];
  next = 0;
  hooked = false;
  hits = 0;
  misses = 0;
  evictions = 0;
}

-- `OnEvict`
abbrev pub on_evict : {K V : Type 0} → Lru K V → Lru K V
on_evict c = record c { hooked = true }

-- a `uint64` that is counted up
abbrev pub count_up : ℕ → ℕ
count_up n = (n + 1) % 2 ^ 64

module _ {K V : Type 0} where
  -- the element with a handle
  unfoldable pub find : ℕ → List (Node K V) → Option (Node K V)
  find h [] = none
  find h (n ∷ ns) = ite (ℕ_discrete n.handle h) (some n) (find h ns)

  -- `list.Remove`
  unfoldable pub unlink : ℕ → List (Node K V) → List (Node K V)
  unlink h [] = []
  unlink h (n ∷ ns) = let rest = unlink h ns in ite (ℕ_discrete n.handle h) ns (n ∷ rest)

  -- `list.Back`
  unfoldable pub back : List (Node K V) → Option (Node K V)
  back [] = none
  back (n ∷ []) = some n
  back (n ∷ m ∷ ns) = back (m ∷ ns)

module _ {K V : Type 0} (dec : Discrete K) where
  -- the element that the map holds for a key
  unfoldable pub element : K → Lru K V → Option (Node K V)
  element key c = elim (Dict.lookup dec key c.item) [ none ↦ none | some h ↦ find h c.nodes ]

  -- `LRU.Get`
  unfoldable pub get : K → Lru K V → Lru K V × Option V
  get key c = elim (element key c) [
    | none ↦ (record c { misses = count_up c.misses }, none)
    | some n ↦
        (record c { nodes = n ∷ unlink n.handle c.nodes; hits = count_up c.hits }, some n.value)
  ]

  -- `LRU.Peek`
  unfoldable pub peek : K → Lru K V → Option V
  peek key c = elim (element key c) [ none ↦ none | some n ↦ some n.value ]

  -- the branch of `Put` for a full cache: the pair beside the cache is what `onEvict` is called with
  unfoldable pub evict : Lru K V → Lru K V × Option (K × V)
  evict c = elim (back c.nodes) [
    | none ↦ (c, none)
    | some n ↦ (
      record c {
        nodes = unlink n.handle c.nodes;
        item = Dict.delete dec n.key c.item;
        evictions = count_up c.evictions;
      },
      if c.hooked then some (n.key, n.value) else none,
    )
  ]

  -- `Put` of a new key, before the eviction
  unfoldable pub push_front : K → V → Lru K V → Lru K V
  push_front key value c = record c {
    nodes = record { handle = c.next; key = key; value = value } ∷ c.nodes;
    item = Dict.insert dec key c.next c.item;
    next = c.next + 1;
  }

  -- `LRU.Put`
  unfoldable pub put : K → V → Lru K V → Lru K V × Option (K × V)
  put key value c = elim (element key c) [
    | some n ↦ (record c { nodes = record n { value = value } ∷ unlink n.handle c.nodes }, none)
    | none ↦
        let c' = push_front key value c in
        if ltb c'.bound (length c'.nodes) then evict c' else (c', none)
  ]

  -- `LRU.Remove`
  unfoldable pub remove : K → Lru K V → Lru K V × Bool
  remove key c = elim (element key c) [
    | none ↦ (c, false)
    | some n ↦
        (record c { nodes = unlink n.handle c.nodes; item = Dict.delete dec n.key c.item }, true)
  ]

-- `LRU.Len`
abbrev pub len : {K V : Type 0} → Lru K V → ℕ
len c = length c.nodes

-- `LRU.Metrics`
abbrev pub metrics : {K V : Type 0} → Lru K V → ℕ × ℕ × ℕ
metrics c = (c.hits, c.misses, c.evictions)
