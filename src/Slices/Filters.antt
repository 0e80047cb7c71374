-- ===== src/Slices/Filters.antt =====
-- `FilterAlloc`.
use go_handbook_for_software.Base.{
  ◌≡◌, sym, ◌∙◌, Bool, List, [], ◌∷◌, ◌++◌, Bool-cases, inl, inr, if◌then◌else◌, append-nil,
  append_assoc,
}
use go_handbook_for_software.Slices.{filter_loop, filter_alloc}

module _ {T : Type 0} (pred : T → Bool) where
  -- the elements that `pred` keeps, in order
  abbrev pub kept : List T → List T
  kept [] = []
  kept (v ∷ s) = if pred v then v ∷ kept s else kept s

  filter_loop-kept : (s out : List T) → filter_loop pred s out ≡ out ++ kept s
  unfolding filter_loop
  filter_loop-kept [] out = sym (append-nil out)
  filter_loop-kept (v ∷ s) out = elim (Bool-cases (pred v)) [
    | inl p ↦ rw p (filter_loop-kept s (out ++ v ∷ []) ∙ append_assoc out (v ∷ []) (kept s))
    | inr p ↦ rw p (filter_loop-kept s out)
  ]

  -- `FilterAlloc` returns the elements that the test keeps, each once and in order, and no other.
  pub filter_alloc_lem : (s : List T) → filter_alloc s pred ≡ kept s
  unfolding filter_alloc
  filter_alloc_lem s = filter_loop-kept s []
