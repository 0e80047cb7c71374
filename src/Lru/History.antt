-- ===== src/Lru/History.antt =====
-- Sequences of calls of the cache, and of its specification.
use go_handbook_for_software.Base.{ℕ, ◌≡◌, refl, ap, ap₂, ◌∙◌, Bool, List, [], ◌∷◌, Option}
use go_handbook_for_software.Lru.{Lru, new_lru, get, put, remove}
use go_handbook_for_software.Lru.Links.{pairs, IsValid, new_lru-IsValid}
use go_handbook_for_software.Lru.Eviction.{notified}
use go_handbook_for_software.Lru.Refine.{
  get_spec, put_spec, remove_spec, get_refines, put_refines, remove_refines,
}

pub data Op (K V : Type 0) : Type 0 where
  put_op : K → V → Op K V
  get_op remove_op : K → Op K V

-- what a caller sees of a call: the value of `Get`, the pair that `onEvict` saw, the result of `Remove`
pub data Answer (K V : Type 0) : Type 0 where
  got : Option V → Answer K V
  evicted : Option (K × V) → Answer K V
  removed : Bool → Answer K V

module _ {K V : Type 0} (dec : Discrete K) where
  unfoldable pub step : Op K V → Lru K V → Lru K V × Answer K V
  step (put_op k v) c = let (c', r) = put dec k v c in (c', evicted r)
  step (get_op k) c = let (c', r) = get dec k c in (c', got r)
  step (remove_op k) c = let (c', r) = remove dec k c in (c', removed r)

  unfoldable pub step_spec : ℕ → Bool → Op K V → List (K × V) → List (K × V) × Answer K V
  step_spec bound hooked (put_op k v) ps =
      let (ps', cut) = put_spec dec bound k v ps in (ps', evicted (notified hooked cut))
  step_spec bound hooked (get_op k) ps = let (ps', r) = get_spec dec k ps in (ps', got r)
  step_spec bound hooked (remove_op k) ps = let (ps', r) = remove_spec dec k ps in (ps', removed r)

  -- the calls in order, with their answers
  unfoldable pub run : List (Op K V) → Lru K V → Lru K V × List (Answer K V)
  run [] c = (c, [])
  run (o ∷ os) c = let (c', a) = step o c in let (c'', answers) = run os c' in (c'', a ∷ answers)

  unfoldable pub run_spec :
      ℕ → Bool → List (Op K V) → List (K × V) → List (K × V) × List (Answer K V)
  run_spec bound hooked [] ps = (ps, [])
  run_spec bound hooked (o ∷ os) ps =
      let (ps', a) = step_spec bound hooked o ps in
      let (ps'', answers) = run_spec bound hooked os ps' in (ps'', a ∷ answers)

  -- what a call on a valid cache keeps and does
  record Follows (o : Op K V) (c : Lru K V) (r : Lru K V × Answer K V) : Type 0 where
    valid : IsValid dec r.0
    bound : r.0.bound ≡ c.bound
    hooked : r.0.hooked ≡ c.hooked
    same : (pairs r.0.nodes, r.1) ≡ step_spec c.bound c.hooked o (pairs c.nodes)

  step-Follows : (o : Op K V) (c : Lru K V) → IsValid dec c → Follows o c (step o c)
  unfolding step step_spec
  step-Follows (put_op k v) c h =
      let (valid, list, cut, bound, hooked) = put_refines dec k v c h in
      record {
        valid = valid;
        bound = bound;
        hooked = hooked;
        same = ap₂ (λ ps r. (ps, evicted r)) list cut;
      }
  step-Follows (get_op k) c h =
      let (valid, same, _, bound, hooked, _, _) = get_refines dec k c h in
      record {
        valid = valid;
        bound = bound;
        hooked = hooked;
        same = ap (λ (p : List (K × V) × Option V). (p.0, got p.1)) same;
      }
  step-Follows (remove_op k) c h =
      let (valid, same, bound, hooked) = remove_refines dec k c h in
      record {
        valid = valid;
        bound = bound;
        hooked = hooked;
        same = ap (λ (p : List (K × V) × Bool). (p.0, removed p.1)) same;
      }

  run_refines :
      (os : List (Op K V)) (c : Lru K V) (bound : ℕ) (hooked : Bool) (ps : List (K × V))
      → IsValid dec c
      → c.bound ≡ bound
      → c.hooked ≡ hooked
      → pairs c.nodes ≡ ps
      → let (c', answers) = run os c in
        IsValid dec c' × ((pairs c'.nodes, answers) ≡ run_spec bound hooked os ps)
  unfolding run run_spec
  run_refines [] c bound hooked ps h b k p = (h, ap (λ qs. (qs, [])) p)
  run_refines (o ∷ os) c bound hooked ps h b k p =
      let f = step-Follows o c h in
      let s = step_spec bound hooked o ps in
      let e : (pairs (step o c).0.nodes, (step o c).1) ≡ s = f.same ∙ rw (b, k, p) refl in
      let (valid, ih) =
        run_refines os (step o c).0 bound hooked s.0 f.valid (f.bound ∙ b) (f.hooked ∙ k)
          (ap (λ (q : List (K × V) × Answer K V). q.0) e) in
      (
        valid,
        ap₂ (λ (q : List (K × V) × List (Answer K V)) a. (q.0, a ∷ q.1)) ih
            (ap (λ (q : List (K × V) × Answer K V). q.1) e),
      )

  -- From a new cache, with or without `onEvict`, every sequence of `Put`, `Get` and `Remove` answers
  -- each call as the list of pairs in order of use does, and holds that list's pairs in its order.
  pub run-equivalent :
      (os : List (Op K V)) (bound : ℕ) (hooked : Bool)
      → let new : Lru K V = record (new_lru bound) { hooked = hooked } in
        let (c', answers) = run os new in
        (pairs c'.nodes, answers) ≡ run_spec new.bound hooked os []
  unfolding new_lru
  run-equivalent os bound hooked =
      let v = new_lru-IsValid dec bound in
      (run_refines os (record (new_lru bound) { hooked = hooked })
        (new_lru {K = K} {V = V} bound).bound hooked []
        (record {
          linked = record { apart = tt; given = tt; step = v.linked.step };
          room = v.room;
          bounded = v.bounded;
        })
        refl refl refl).1
