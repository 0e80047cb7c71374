-- ===== src/Security/Limits.antt =====
-- `Limiter.Allow` against one global bucket and a bucket for every identity there could be.
use go_handbook_for_software.Base.{
  ℕ, ◌≡◌, refl, sym, ap, ◌∙◌, Bool, false, not, List, [], ◌∷◌, ite, str_dec, some, String,
  if◌then◌else◌, if_pos, if_neg, inl, inr, Bool-cases,
}
use go_handbook_for_software.Base.Dict
use go_handbook_for_software.Security.{Bucket, Keyed, Limiter, load, allow_keyed, allow}

-- a call of `Allow`: its three clock readings and its identity
pub record Call : Type 0 where
  pub now : ℕ
  pub seen : ℕ
  pub later : ℕ
  pub id : String

pub record Family (B : Type 0) : Type 0 where
  pub global : B
  pub own : String → B

module _ {B : Type 0} (bucket : Bucket B) where
  -- The specification: the global bucket is asked first; if it lets the call pass, the bucket of the
  -- identity decides, and no other bucket is touched.
  unfoldable pub allow_spec : Call → Family B → Family B × Bool
  allow_spec c s =
      let (global, passed) = bucket.allow c.now s.global in
      let (own, answer) = bucket.allow c.later (s.own c.id) in
      if not passed
      then (record s { global = global }, false)
      else (record { global = global; own = λ q. ite (str_dec c.id q) own (s.own q) }, answer)

  abbrev pub bucket_of : List (String × Keyed B) → String → B
  bucket_of keys id = (load bucket (Dict.lookup str_dec id keys)).l

  -- an identity that is not in the map has a new bucket
  abbrev pub view : Limiter B → Family B
  view l = record { global = l.global; own = bucket_of l.keys }

  bucket_of-insert :
      (id : String) (k : Keyed B) (keys : List (String × Keyed B)) (q : String)
      → bucket_of (Dict.insert str_dec id k keys) q ≡ ite (str_dec id q) k.l (bucket_of keys q)
  bucket_of-insert id k keys q = elim (str_dec id q) [
    | yes e ↦
        ap (λ o. (load bucket o).l)
          (Dict.lookup-insert str_dec id q k keys
            ∙ if_pos (str_dec id q) e (some k) (Dict.lookup str_dec q keys))
        ∙ sym (if_pos (str_dec id q) e k.l (bucket_of keys q))
    | no n ↦
        ap (λ o. (load bucket o).l)
          (Dict.lookup-insert str_dec id q k keys
            ∙ if_neg (str_dec id q) n (some k) (Dict.lookup str_dec q keys))
        ∙ sym (if_neg (str_dec id q) n k.l (bucket_of keys q))
  ]

  -- `allow` on the record of a call
  abbrev pub call : Call → Limiter B → Limiter B × Bool
  call c l = allow bucket c.now c.seen c.later c.id l

  allow_refines :
      (c : Call) (l : Limiter B) → (view (call c l).0, (call c l).1) ≡ allow_spec c (view l)
  unfolding allow allow_keyed allow_spec
  allow_refines c l = elim (Bool-cases (bucket.allow c.now l.global).1) [
    | inr refused ↦ rw refused refl
    | inl passed ↦ rw passed (
        ap
          (λ own. (
            record { global = (bucket.allow c.now l.global).0; own = own },
            (bucket.allow c.later (bucket_of l.keys c.id)).1,
          ))
          (λ i q.
            bucket_of-insert c.id
              (record { l = (bucket.allow c.later (bucket_of l.keys c.id)).0; last = c.seen })
              l.keys q i))
  ]

  unfoldable pub run : List Call → Limiter B → Limiter B × List Bool
  run [] l = (l, [])
  run (c ∷ cs) l =
      let (l', answer) = call c l in let (l'', answers) = run cs l' in (l'', answer ∷ answers)

  unfoldable pub run_spec : List Call → Family B → Family B × List Bool
  run_spec [] s = (s, [])
  run_spec (c ∷ cs) s =
      let (s', answer) = allow_spec c s in
      let (s'', answers) = run_spec cs s' in (s'', answer ∷ answers)

  -- Any sequence of `Allow` calls answers, and leaves the buckets, as the specification does from
  -- the buckets of the limiter.
  pub run_refines :
      (cs : List Call) (l : Limiter B) → (view (run cs l).0, (run cs l).1) ≡ run_spec cs (view l)
  unfolding run run_spec
  run_refines [] l = refl
  run_refines (c ∷ cs) l =
      ap (λ (r : Family B × List Bool). (r.0, (call c l).1 ∷ r.1)) (run_refines cs (call c l).0)
      ∙ ap (λ (r : Family B × Bool). ((run_spec cs r.0).0, r.1 ∷ (run_spec cs r.0).1))
          (allow_refines c l)
