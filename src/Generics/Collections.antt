-- ===== src/Generics/Collections.antt =====
-- DedupIDs, GroupBy, Map, the Stack and the Cache.
use go_handbook_for_software.Base.{
  ◌≡◌, refl, ap, sym, ◌∙◌, true, false, List, [], ◌∷◌, ◌++◌, ite, str_dec, none, some, String,
  arith, Option-cases, inl, inr, map, append_assoc, append-nil, has, IsDistinct, has_last,
  IsDistinct-last, if◌then◌else◌,
}
use go_handbook_for_software.Base.Dict
use go_handbook_for_software.Generics.{
  dedup_loop, dedup_ids, bucket, group_loop, group_by, map_loop, map_slice, Stack, push, pop,
  pop_items, split_last, Cache, put, get, allocated,
}

-- the set `seen` holds the ids of `out`, which are distinct
record IsSeen (seen : List (String × Unit {0})) (out : List String) : Type 0 where
  hit : (k : String) (u : Unit {0}) → Dict.lookup str_dec k seen ≡ some u → has k out ≡ true
  miss : (k : String) → Dict.lookup str_dec k seen ≡ none → has k out ≡ false
  distinct : IsDistinct out

-- the first occurrences in `ids` of texts that are not in `out`
abbrev pub first_new : List String → List String → List String
first_new out [] = []
first_new out (id ∷ ids) =
    if has id out then first_new out ids else id ∷ first_new (out ++ id ∷ []) ids

IsSeen-insert :
    (seen : List (String × Unit {0})) (out : List String) (id : String)
    → IsSeen seen out
    → Dict.lookup str_dec id seen ≡ none
    → IsSeen (Dict.insert str_dec id tt seen) (out ++ id ∷ [])
IsSeen-insert seen out id h n = record {
  hit = λ k u e. ground (
    arith,
    Dict.lookup-insert str_dec id k tt seen,
    has_last k id out,
    Option-cases (Dict.lookup str_dec k seen),
    h.hit k tt,
    e,
  );
  miss = λ k e.
      ground (arith, Dict.lookup-insert str_dec id k tt seen, has_last k id out, h.miss k, e);
  distinct = IsDistinct-last id out h.distinct (h.miss id n);
}

dedup_loop-first_new :
    (ids : List String) (seen : List (String × Unit {0})) (out : List String)
    → IsSeen seen out
    → (dedup_loop ids seen out ≡ out ++ first_new out ids) × IsDistinct (dedup_loop ids seen out)
unfolding dedup_loop
dedup_loop-first_new [] seen out h = (sym (append-nil out), h.distinct)
dedup_loop-first_new (id ∷ ids) seen out h = elim (Option-cases (Dict.lookup str_dec id seen)) [
  | inr (u, e) ↦ rw (e, dedup_loop) (rw (h.hit id u e) (dedup_loop-first_new ids seen out h))
  | inl e ↦
      let (same, distinct) =
        dedup_loop-first_new ids (Dict.insert str_dec id tt seen) (out ++ id ∷ [])
          (IsSeen-insert seen out id h e) in
      rw (e, dedup_loop)
        (rw (h.miss id e)
          (same ∙ append_assoc out (id ∷ []) (first_new (out ++ id ∷ []) ids), distinct))
]

-- `DedupIDs` returns the first occurrence of each id, in order, and each id once.
pub dedup_ids_lem :
    (ids : List String) → (dedup_ids ids ≡ first_new [] ids) × IsDistinct (dedup_ids ids)
unfolding dedup_ids Dict.lookup
dedup_ids_lem ids =
    dedup_loop-first_new ids [] []
      (record { hit = λ k u e. absurd (cc); miss = λ k e. refl; distinct = tt })

module _ {E K : Type 0} (dec : Discrete K) (key : E → K) where
  -- the elements with the key `k`, in order
  abbrev pub with_key : K → List E → List E
  with_key k [] = []
  with_key k (e ∷ s) = ite (dec (key e) k) (e ∷ with_key k s) (with_key k s)

  bucket-insert :
      (e : E) (s : List E) (out : List (K × List E)) (k : K)
      → bucket (
            Dict.lookup dec k
              (Dict.insert dec (key e) (bucket (Dict.lookup dec (key e) out) ++ e ∷ []) out))
          ++ with_key k s
        ≡ bucket (Dict.lookup dec k out) ++ with_key k (e ∷ s)
  unfolding bucket
  bucket-insert e s out k = ground (
    arith,
    Dict.lookup-insert dec (key e) k (bucket (Dict.lookup dec (key e) out) ++ e ∷ []) out,
    append_assoc (bucket (Dict.lookup dec k out)) (e ∷ []) (with_key k s),
    ap (λ (j : K). bucket (Dict.lookup dec j out)) {x = key e} {y = k},
  )

  group_loop-bucket :
      (s : List E) (out : List (K × List E)) (k : K)
      → bucket (Dict.lookup dec k (group_loop dec key s out))
        ≡ bucket (Dict.lookup dec k out) ++ with_key k s
  unfolding group_loop
  group_loop-bucket [] out k = sym (append-nil (bucket (Dict.lookup dec k out)))
  group_loop-bucket (e ∷ s) out k =
      group_loop-bucket s
        (Dict.insert dec (key e) (bucket (Dict.lookup dec (key e) out) ++ e ∷ []) out) k
      ∙ bucket-insert e s out k

  -- Under each key `GroupBy` holds exactly the elements with that key, in their order.
  pub group_by_lem :
      (s : List E) (k : K) → bucket (Dict.lookup dec k (group_by dec key s)) ≡ with_key k s
  unfolding group_by bucket Dict.lookup
  group_by_lem s k = group_loop-bucket s [] k

map_loop-map :
    {E R : Type 0} (f : E → R) (s : List E) (out : List R) → map_loop f s out ≡ out ++ map f s
unfolding map_loop
map_loop-map f [] out = sym (append-nil out)
map_loop-map f (e ∷ s) out =
    map_loop-map f s (out ++ f e ∷ []) ∙ append_assoc out (f e ∷ []) (map f s)

-- `Map` holds the results for the elements, in order.
pub map_slice_lem : {E R : Type 0} (s : List E) (f : E → R) → map_slice s f ≡ map f s
unfolding map_slice
map_slice_lem s f = map_loop-map f s []

split_last-append :
    {T : Type 0} (x : T) (xs : List T) (v : T) → split_last x (xs ++ v ∷ []) ≡ (x ∷ xs, v)
unfolding split_last
split_last-append x [] v = refl
split_last-append x (y ∷ ys) v = rw (split_last-append y ys v)

pop-push_items :
    {T : Type 0} (v : T) (xs : List T) → pop_items (xs ++ v ∷ []) ≡ (record { items = xs }, some v)
unfolding pop_items split_last
pop-push_items v [] = refl
pop-push_items v (x ∷ xs) = rw (split_last-append x xs v)

-- `Pop` after `Push` returns the pushed value and the stack as it was, whatever that held; so does a
-- second `Pop` for the value pushed before.
pub pop-push :
    {T : Type 0} (v w : T) (s : Stack T)
    → (pop (push v s) ≡ (s, some v)) × (pop (pop (push w (push v s))).0 ≡ (s, some v))
unfolding push pop
pop-push v w s =
    (pop-push_items v s.items, rw (pop-push_items w (s.items ++ v ∷ [])) (pop-push_items v s.items))

-- `Get` after `Put` finds the value under its key and what was there under any other key, on an
-- allocated map and on a nil one.
pub get-put :
    {K V : Type 0} (dec : Discrete K) (k q : K) (v : V) (c : Cache K V)
    → get dec q (put dec k v c) ≡ ite (dec k q) (some v) (get dec q c)
unfolding get put allocated
get-put dec k q v c = Dict.lookup-insert dec k q v (allocated c.items)
