-- ===== src/Security/Sweeps.antt =====
-- `Limiter.Sweep`.
use go_handbook_for_software.Base.{
  ℕ, ◌-◌, ◌≡◌, ◌≢◌, refl, sym, ap, ◌∙◌, true, false, List, [], ◌∷◌, ite, str_dec, Option, none,
  some, String, if◌then◌else◌, ltb, if_pos, if_neg, inl, inr, ◌⊎◌, All, arith,
}
use go_handbook_for_software.Base.Int64
use go_handbook_for_software.Base.Dict
use go_handbook_for_software.Security.{Keyed, Limiter, sweep_key, sweep_keys, ids_of, sweep}

module _ {B : Type 0} (cutoff : ℕ) where
  -- an identity's entry if it is not idle
  abbrev pub fresh : Option (Keyed B) → Option (Keyed B)
  fresh none = none
  fresh (some k) = if ltb k.last cutoff then none else some k

  fresh-fresh : (o : Option (Keyed B)) → fresh (fresh o) ≡ fresh o
  fresh-fresh none = refl
  fresh-fresh (some k) = ground arith

  lookup-sweep_key :
      (id q : String) (keys : List (String × Keyed B))
      → Dict.lookup str_dec q (sweep_key cutoff id keys)
        ≡ ite (str_dec id q) (fresh (Dict.lookup str_dec q keys)) (Dict.lookup str_dec q keys)
  unfolding sweep_key
  lookup-sweep_key id q keys = ground (arith, Dict.lookup-delete str_dec id q keys)

  lookup-sweep_keys :
      (ids : List String) (q : String) (keys : List (String × Keyed B))
      → let o = Dict.lookup str_dec q keys in
        let o' = Dict.lookup str_dec q (sweep_keys cutoff ids keys) in
        (o' ≡ fresh o) ⊎ ((o' ≡ o) × All (λ id. id ≢ q) ids)
  lookup-sweep_keys [] q keys = inr (refl, tt)
  lookup-sweep_keys (id ∷ ids) q keys =
      let o = Dict.lookup str_dec q keys in
      let step = lookup-sweep_key id q keys in
      let rest = lookup-sweep_keys ids q (sweep_key cutoff id keys) in
      elim (str_dec id q) [
        | yes e ↦
            let here = step ∙ if_pos (str_dec id q) e (fresh o) o in
            inl (elim rest [ inl p ↦ p ∙ (ap fresh here ∙ fresh-fresh o) | inr (p, _) ↦ p ∙ here ])
        | no n ↦
            let here = step ∙ if_neg (str_dec id q) n (fresh o) o in
            elim rest [
              | inl p ↦ inl (p ∙ ap fresh here)
              | inr (p, away) ↦ inr (p ∙ here, (n, away))
            ]
      ]

  lookup_absent :
      (q : String) (keys : List (String × Keyed B))
      → All (λ id. id ≢ q) (ids_of keys)
      → Dict.lookup str_dec q keys ≡ none
  unfolding Dict.lookup
  lookup_absent q [] h = refl
  lookup_absent q ((id, k) ∷ keys) h =
      if_neg (str_dec id q) h.0 (some k) (Dict.lookup str_dec q keys) ∙ lookup_absent q keys h.1

  swept :
      (q : String) (keys : List (String × Keyed B))
      → Dict.lookup str_dec q (sweep_keys cutoff (ids_of keys) keys)
        ≡ fresh (Dict.lookup str_dec q keys)
  swept q keys = elim (lookup-sweep_keys (ids_of keys) q keys) [
    | inl p ↦ p
    | inr (p, away) ↦ p ∙ (lookup_absent q keys away ∙ sym (ap fresh (lookup_absent q keys away)))
  ]

-- `Sweep` keeps an identity's entry exactly if the identity was seen at the cutoff or later, as it
-- was, and drops every other; with a `ttl` of 0 or below it changes nothing. The global bucket
-- stays.
pub sweep_decides :
    {B : Type 0} (now : ℕ) (l : Limiter B)
    → (Int64.le l.ttl 0 ≡ true → sweep now l ≡ l)
      × (Int64.le l.ttl 0 ≡ false
          → ((sweep now l).global ≡ l.global)
            × ((q : String)
                → Dict.lookup str_dec q (sweep now l).keys
                  ≡ fresh (now - l.ttl) (Dict.lookup str_dec q l.keys)))
unfolding sweep
sweep_decides now l = (λ off. rw off refl, λ on. rw on (refl, λ q. swept (now - l.ttl) q l.keys))
