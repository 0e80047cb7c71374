-- ===== src/Linkcheck/Fences.antt =====
-- The lines that `linksIn` keeps.
use go_handbook_for_software.Base.{
  ◌≡◌, refl, sym, ap, ◌∙◌, Bool, true, false, ◌||◌, List, [], ◌∷◌, ◌++◌, All, Bool-cases, inl, inr,
  ℕ_discrete, subst, eq_false,
}
use go_handbook_for_software.Linkcheck.{
  Bytes, has_prefix, backquotes, is_fence, marker_of, Reading, at_fence, read_line, read_lines,
  Files, links_in, targets_in, strip_inline_code, new_reading,
}

false≢true : false ≡ true → ⊥
false≢true e = cc

or_true : (b : Bool) → (b || true) ≡ true
or_true true = refl
or_true false = refl

-- a fence of three equal bytes begins with the marker of its own first byte alone
closes-fence :
    (opening closing : Bytes)
    → is_fence opening ≡ true
    → has_prefix closing (marker_of opening) ≡ true
    → is_fence closing ≡ true
closes-fence [] closing o c = absurd (false≢true o)
closes-fence (b ∷ opening) closing o c = elim (ℕ_discrete b 96) [
  | yes e ↦ let p = subst (λ x. has_prefix closing (x ∷ x ∷ x ∷ []) ≡ true) e c in rw p refl
  | no n ↦ elim (ℕ_discrete b 126) [
    | yes e ↦
        let p = subst (λ x. has_prefix closing (x ∷ x ∷ x ∷ []) ≡ true) e c in
        rw p (or_true (has_prefix closing backquotes))
    | no n' ↦ absurd (false≢true (rw (eq_false b 96 n, eq_false b 126 n') at o))
  ]
]

module _ (trim_space : Bytes → Bytes) where
  abbrev inside : Bytes → List Bytes → Reading
  inside marker active = record { in_fence = true; fence_marker = marker; active = active }

  abbrev outside : Bytes → List Bytes → Reading
  outside marker active = record { in_fence = false; fence_marker = marker; active = active }

  module _ (l marker : Bytes) (active : List Bytes) where
    opened :
        is_fence (trim_space l) ≡ true
        → read_line trim_space l (outside marker active) ≡ inside (marker_of (trim_space l)) active
    unfolding read_line at_fence
    opened e = rw e refl

    kept_out :
        has_prefix (trim_space l) marker ≡ false
        → read_line trim_space l (inside marker active) ≡ inside marker active
    unfolding read_line at_fence
    kept_out h = elim (Bool-cases (is_fence (trim_space l))) [
      | inl fence ↦ rw (fence, h) refl
      | inr plain ↦ rw plain refl
    ]

    closed :
        is_fence (trim_space l) ≡ true
        → has_prefix (trim_space l) marker ≡ true
        → read_line trim_space l (inside marker active) ≡ outside marker active
    unfolding read_line at_fence
    closed e h = rw (e, h) refl

    taken :
        is_fence (trim_space l) ≡ false
        → read_line trim_space l (outside marker active) ≡ outside marker (active ++ l ∷ [])
    unfolding read_line at_fence
    taken e = rw e refl

  -- outside a fence the marker of an earlier one is not read
  active-marker :
      (lines : List Bytes) (marker marker' : Bytes) (active : List Bytes)
      → (read_lines trim_space lines (outside marker active)).active
        ≡ (read_lines trim_space lines (outside marker' active)).active
  unfolding read_lines
  active-marker [] marker marker' active = refl
  active-marker (l ∷ ls) marker marker' active =
      let go : Reading → List Bytes = λ x. (read_lines trim_space ls x).active in
      elim (Bool-cases (is_fence (trim_space l))) [
        | inl fence ↦ ap go (opened l marker active fence ∙ sym (opened l marker' active fence))
        | inr plain ↦
            ap go (taken l marker active plain)
            ∙ (active-marker ls marker marker' (active ++ l ∷ [])
                ∙ sym (ap go (taken l marker' active plain)))
      ]

  -- no line of the block closes a fence of this marker
  abbrev pub IsBody : Bytes → List Bytes → Type 0
  IsBody marker = All (λ l. has_prefix (trim_space l) marker ≡ false)

  skip-body :
      (marker : Bytes) (body rest active : List Bytes)
      → IsBody marker body
      → read_lines trim_space (body ++ rest) (inside marker active)
        ≡ read_lines trim_space rest (inside marker active)
  unfolding read_lines
  skip-body marker [] rest active h = refl
  skip-body marker (l ∷ ls) rest active h =
      ap (read_lines trim_space (ls ++ rest)) (kept_out l marker active h.0)
      ∙ skip-body marker ls rest active h.1

  -- A fenced block adds no line: outside a fence, the lines from an opening fence to the first line
  -- that begins with three bytes of its kind are skipped, whatever other fences stand between, and
  -- the lines after the block are read as without it.
  pub fence_skipped :
      (opening closing : Bytes) (body rest : List Bytes) (s : Reading)
      → s.in_fence ≡ false
      → is_fence (trim_space opening) ≡ true
      → IsBody (marker_of (trim_space opening)) body
      → has_prefix (trim_space closing) (marker_of (trim_space opening)) ≡ true
      → (read_lines trim_space (opening ∷ (body ++ closing ∷ rest)) s).active
        ≡ (read_lines trim_space rest s).active
  unfolding read_lines
  fence_skipped opening closing body rest s out o inner c =
      let marker = marker_of (trim_space opening) in
      let s' = outside s.fence_marker s.active in
      let same : s ≡ s' = ap (λ (b : Bool). record s { in_fence = b }) out in
      let ends = closes-fence (trim_space opening) (trim_space closing) o c in
      let whole : (read_lines trim_space (opening ∷ (body ++ closing ∷ rest)) s').active
          ≡ (read_lines trim_space rest s').active =
        ap (λ x. (read_lines trim_space (body ++ closing ∷ rest) x).active)
          (opened opening s.fence_marker s.active o)
        ∙ (ap (λ (x : Reading). x.active) (skip-body marker body (closing ∷ rest) s.active inner)
            ∙ (ap (λ x. (read_lines trim_space rest x).active)
                  (closed closing marker s.active ends c)
                ∙ active-marker rest marker s.fence_marker s.active)) in
      subst
        (λ (x : Reading).
          (read_lines trim_space (opening ∷ (body ++ closing ∷ rest)) x).active
          ≡ (read_lines trim_space rest x).active)
        (sym same) whole

-- A fenced block at the start of a file adds no target.
links_in-fenced :
    (files : Files) (opening closing : Bytes) (body : List Bytes)
    → is_fence (files.trim_space opening) ≡ true
    → IsBody files.trim_space (marker_of (files.trim_space opening)) body
    → has_prefix (files.trim_space closing) (marker_of (files.trim_space opening)) ≡ true
    → (lines : List Bytes)
    → links_in files (opening ∷ (body ++ closing ∷ lines)) ≡ links_in files lines
unfolding links_in
links_in-fenced files opening closing body o inner c lines =
    ap (λ ls. targets_in files (strip_inline_code ls))
      (fence_skipped files.trim_space opening closing body lines new_reading refl o inner c)
