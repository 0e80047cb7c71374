-- ===== src/Messaging/Delivery.antt =====
-- The scan of a queue in `next`.
use go_handbook_for_software.Base.{
  ℕ, ◌≤◌, ◌<◌, ◌≡◌, refl, ap, ◌∙◌, List, [], ◌∷◌, ◌++◌, none, some, arith, All, ltb, Bool-cases,
  Option-cases, inl, inr,
}
use go_handbook_for_software.Messaging.{Message, Pending, take_visible}

-- How a queue is split at the first message that is visible at `now`.
pub record IsFirstVisible (now : ℕ) (q : List Pending) (m : Message) (rest : List Pending)
    : Type 0 where
  pub before : List Pending
  pub chosen : Pending
  pub after : List Pending
  pub whole : q ≡ before ++ chosen ∷ after
  pub left : rest ≡ before ++ after
  pub message : m ≡ chosen.msg
  pub visible : chosen.visible_at ≤ now
  pub hidden : All (λ (p : Pending). now < p.visible_at) before

first_visible :
    (now : ℕ) (q : List Pending) (m : Message) (rest : List Pending)
    → take_visible now q ≡ some (m, rest)
    → IsFirstVisible now q m rest
unfolding take_visible
first_visible now [] m rest e = absurd (cc)
first_visible now (p ∷ q) m rest e = elim (Bool-cases (ltb now p.visible_at)) [
  | inr v ↦ record {
    before = [];
    chosen = p;
    after = q;
    whole = refl;
    left = ground (arith, e, v);
    message = ground (arith, e, v);
    visible = ground arith;
    hidden = tt;
  }
  | inl h ↦ elim (Option-cases (take_visible now q)) [
    | inl n ↦ absurd (ground arith)
    | inr ((m', r), t) ↦
        let ih = first_visible now q m' r t in
        let same : m ≡ m' = ground arith in
        let longer : rest ≡ p ∷ r = ground arith in
        record {
          before = p ∷ ih.before;
          chosen = ih.chosen;
          after = ih.after;
          whole = ap (◌∷◌ p) ih.whole;
          left = longer ∙ ap (◌∷◌ p) ih.left;
          message = same ∙ ih.message;
          visible = ih.visible;
          hidden = (ground arith, ih.hidden);
        }
  ]
]

none_visible :
    (now : ℕ) (q : List Pending)
    → take_visible now q ≡ none
    → All (λ (p : Pending). now < p.visible_at) q
unfolding take_visible
none_visible now [] e = tt
none_visible now (p ∷ q) e = elim (Bool-cases (ltb now p.visible_at)) [
  | inr v ↦ absurd (ground arith)
  | inl h ↦ (ground arith, none_visible now q (ground (arith, Option-cases (take_visible now q))))
]

-- The scan of `next` over a queue delivers the first message that is visible at `now` and takes
-- exactly that one out, the others in their order; it delivers nothing only if none is visible.
pub take_visible_lem :
    (now : ℕ) (q : List Pending)
    → ((m : Message) (rest : List Pending)
        → take_visible now q ≡ some (m, rest)
        → IsFirstVisible now q m rest)
      × (take_visible now q ≡ none → All (λ (p : Pending). now < p.visible_at) q)
take_visible_lem now q = (first_visible now q, none_visible now q)
