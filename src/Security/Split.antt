-- ===== src/Security/Split.antt =====
-- `CutPrefix` and `Split`.
use Prim.Native.String.{slice, len, find, ◌++◌}
use text.Mathlib.Text.{starts_with}
use text.Mathlib.TextPositions.{
  len-append, slice-append_left, slice-append_right, starts_with-append,
}
use text.Mathlib.TextLemmas.{append_assoc}
use text.Mathlib.TextEquality.{starts_with_iff}
use text.Mathlib.TextFind.{find_cases}
use go_handbook_for_software.Base.{
  ℕ, zero, suc, ◌+◌, ◌<◌, ◌≤◌, ◌≡◌, ◌≢◌, refl, sym, ap, ◌∙◌, subst, List, [], ◌∷◌, some, String,
  inl, inr, Bool-cases, true, false, leb, arith, none≢some, ◌↔◌,
}
use mathlib.Core.Option.{some-injective}
use go_handbook_for_software.Security.{cut_prefix, split_from, split}

slice_rest : (s t : String) → slice (s ++ t) (len s) (len (s ++ t)) ≡ t
slice_rest s t = rw (len-append s t) (slice-append_right s t)

-- `CutPrefix` gives what follows the prefix, and nothing where the text does not begin with it.
pub cut_prefix_iff : (s p t : String) → (cut_prefix s p ≡ some t) ↔ (s ≡ p ++ t)
unfolding cut_prefix
cut_prefix_iff s p t = (
  λ e. elim (Bool-cases (starts_with s p)) [
    | inr n ↦ absurd (none≢some (rw n at e))
    | inl y ↦
        let (rest, q) = (starts_with_iff s p).0 y in
        let given : slice s (len p) (len s) ≡ t =
          some-injective (slice s (len p) (len s)) t (rw y at e) in
        let same : slice s (len p) (len s) ≡ rest =
          subst (λ u. slice u (len p) (len u) ≡ rest) q (slice_rest p rest) in
        sym q ∙ ap (λ u. p ++ u) (sym same ∙ given)
  ],
  λ q.
      subst (λ u. cut_prefix u p ≡ some t) (sym q)
        (rw (starts_with-append p t) (ap some (slice_rest p t))),
)

-- `strings.Join`
abbrev pub join : String → List String → String
join sep [] = ""
join sep (x ∷ []) = x
join sep (x ∷ y ∷ ys) = x ++ (sep ++ join sep (y ∷ ys))

-- the first of the parts stands before the others
join-cons :
    (sep x s : String) (ys : List String)
    → ys ≢ []
    → join sep ys ≡ s
    → join sep (x ∷ ys) ≡ x ++ (sep ++ s)
join-cons sep x s [] n e = absurd (n refl)
join-cons sep x s (y ∷ ys) n e = ap (λ u. x ++ (sep ++ u)) e

split_from-ne_nil : (fuel : ℕ) (s sep : String) → split_from fuel s sep ≢ []
unfolding split_from
split_from-ne_nil zero s sep e = cc
split_from-ne_nil (suc fuel) s sep e = ground (arith, e)

before :
    (s sep u v : String) → s ≡ u ++ (sep ++ v) → find s sep ≡ len u → slice s 0 (find s sep) ≡ u
before s sep u v q at =
    ap (λ k. slice s 0 k) at ∙ (ap (λ w. slice w 0 (len u)) q ∙ slice-append_left u (sep ++ v))

after :
    (s sep u v : String)
    → s ≡ u ++ (sep ++ v)
    → find s sep ≡ len u
    → slice s (find s sep + len sep) (len s) ≡ v
after s sep u v q at =
    let whole : s ≡ (u ++ sep) ++ v = q ∙ sym (append_assoc u sep v) in
    let from : find s sep + len sep ≡ len (u ++ sep) = omega (arith, at, len-append u sep) in
    ap (λ k. slice s k (len s)) from
    ∙ (ap (λ w. slice w (len (u ++ sep)) (len w)) whole ∙ slice_rest (u ++ sep) v)

shorter : (s sep u v : String) → s ≡ u ++ (sep ++ v) → len s ≡ len u + (len sep + len v)
shorter s sep u v q = ap len q ∙ omega (arith, len-append u (sep ++ v), len-append sep v)

le_true : (a b : ℕ) → a ≤ b → leb a b ≡ true
le_true a b h = ground arith

le_false : (a b : ℕ) → b < a → leb a b ≡ false
le_false a b h = ground arith

join-split_from :
    (sep : String)
    → 0 < len sep
    → (fuel : ℕ) (s : String) → len s < fuel
    → join sep (split_from fuel s sep) ≡ s
unfolding split_from
join-split_from sep l zero s f = absurd (omega arith)
join-split_from sep l (suc fuel) s f = elim (find_cases s sep) [
  | inr miss ↦ rw (le_false (find s sep) (len s) (omega (arith, miss))) refl
  | inl (u, v, q, at) ↦
      let size = shorter s sep u v q in
      let rest = join-split_from sep l fuel v (omega (arith, size, f, l)) in
      let tail = slice s (find s sep + len sep) (len s) in
      rw (le_true (find s sep) (len s) (omega (arith, size, at))) (
        join-cons sep (slice s 0 (find s sep)) v (split_from fuel tail sep)
          (split_from-ne_nil fuel tail sep)
          (ap (λ w. join sep (split_from fuel w sep)) (after s sep u v q at) ∙ rest)
        ∙ (ap (λ x. x ++ (sep ++ v)) (before s sep u v q at) ∙ sym q))
]

-- Joining the parts that `Split` makes at a nonempty text gives the whole text back.
pub join-split : (s sep : String) → 0 < len sep → join sep (split s sep) ≡ s
unfolding split
join-split s sep l = join-split_from sep l (suc (len s)) s (omega arith)
