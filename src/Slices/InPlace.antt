-- ===== src/Slices/InPlace.antt =====
-- `FilterInPlace` and its backing array.
use go_handbook_for_software.Base.{
  ℕ, suc, ◌+◌, ◌≡◌, refl, ap, ap₂, sym, ◌∙◌, Bool, true, false, List, [], ◌∷◌, ◌++◌, arith,
  Bool-cases, inl, inr, length, take, drop, get_or, set, length-append, append-nil, append_assoc,
}
use go_handbook_for_software.Slices.{in_place_loop, filter_in_place}
use go_handbook_for_software.Slices.Filters.{kept}

get_or-middle : {T : Type 0} (xs ys : List T) (v d : T) → get_or (xs ++ v ∷ ys) (length xs) d ≡ v
get_or-middle [] ys v d = refl
get_or-middle (x ∷ xs) ys v d = get_or-middle xs ys v d

set-middle :
    {T : Type 0} (xs ys : List T) (u v : T) → set (xs ++ u ∷ ys) (length xs) v ≡ xs ++ v ∷ ys
set-middle [] ys u v = refl
set-middle (x ∷ xs) ys u v = ap (◌∷◌ x) (set-middle xs ys u v)

take-length : {T : Type 0} (xs ys : List T) → take (length xs) (xs ++ ys) ≡ xs
take-length [] ys = refl
take-length (x ∷ xs) ys = ap (◌∷◌ x) (take-length xs ys)

module _ {T : Type 0} (pred : T → Bool) (default : T) where
  -- the backing array and the length of `out` at the end, where `done` is written, `mid` was read
  -- and is not written over, and `todo` is to be read
  abbrev final : List T → List T → List T → List T × ℕ
  final done mid todo = (
    done ++ kept pred todo ++ drop (length (kept pred todo)) (mid ++ todo),
    length done + length (kept pred todo),
  )

  -- where the read position is
  record IsAt (done mid todo : List T) (i k : ℕ) (b : List T) : Type 0 where
    read : i ≡ length done + length mid
    written : k ≡ length done
    backing : b ≡ done ++ mid ++ todo

  IsAt-read :
      (done mid todo : List T) (v : T) (i k : ℕ) (b : List T)
      → IsAt done mid (v ∷ todo) i k b
      → get_or b i default ≡ v
  IsAt-read done mid todo v i k b h =
      let at : i ≡ length (done ++ mid) = h.read ∙ sym (length-append done mid) in
      rw (h.backing, at) (get_or-middle (done ++ mid) todo v default)

  IsAt-drop :
      (done mid todo : List T) (v : T) (i k : ℕ) (b : List T)
      → IsAt done mid (v ∷ todo) i k b
      → IsAt done (mid ++ v ∷ []) todo (i + 1) k b
  IsAt-drop done mid todo v i k b h = record {
    read = omega (arith, h.read, length-append mid (v ∷ []));
    written = h.written;
    backing =
        h.backing
        ∙ (sym (append_assoc (done ++ mid) (v ∷ []) todo)
            ∙ ap (λ x. x ++ todo) (append_assoc done mid (v ∷ [])));
  }

  -- what is left of `mid` and the kept element after it is written
  abbrev rest : List T → T → List T
  rest [] v = []
  rest (m ∷ ms) v = ms ++ v ∷ []

  IsAt-keep :
      (done mid todo : List T) (v : T) (i k : ℕ) (b : List T)
      → IsAt done mid (v ∷ todo) i k b
      → IsAt (done ++ v ∷ []) (rest mid v) todo (i + 1) (k + 1) (set b k v)
  IsAt-keep done [] todo v i k b h = record {
    read = omega (arith, h.read, length-append done (v ∷ []));
    written = omega (arith, h.written, length-append done (v ∷ []));
    backing =
        rw (h.backing ∙ ap (λ x. x ++ v ∷ todo) (append-nil done), h.written)
          (set-middle done todo v v
            ∙ (sym (append_assoc done (v ∷ []) todo)
                ∙ ap (λ x. x ++ todo) (sym (append-nil (done ++ v ∷ [])))));
  }
  IsAt-keep done (m ∷ ms) todo v i k b h = record {
    read = omega (arith, h.read, length-append done (v ∷ []), length-append ms (v ∷ []));
    written = omega (arith, h.written, length-append done (v ∷ []));
    backing =
        rw (h.backing ∙ append_assoc done (m ∷ ms) (v ∷ todo), h.written)
          (set-middle done (ms ++ v ∷ todo) m v
            ∙ sym (
                append_assoc (done ++ v ∷ []) (ms ++ v ∷ []) todo
                ∙ (append_assoc done (v ∷ []) ((ms ++ v ∷ []) ++ todo)
                    ∙ ap (λ x. done ++ v ∷ x) (append_assoc ms (v ∷ []) todo))));
  }

  drop-rest :
      (n : ℕ) (mid todo : List T) (v : T)
      → drop n (rest mid v ++ todo) ≡ drop (suc n) (mid ++ v ∷ todo)
  drop-rest n [] todo v = refl
  drop-rest n (m ∷ ms) todo v = ap (drop n) (append_assoc ms (v ∷ []) todo)

  step-keep :
      (left i k : ℕ) (b : List T) (v : T)
      → get_or b i default ≡ v
      → pred v ≡ true
      → in_place_loop pred default (suc left) i k b
        ≡ in_place_loop pred default left (i + 1) (k + 1) (set b k v)
  unfolding in_place_loop
  step-keep left i k b v e p = ground (arith, e, p)

  step-drop :
      (left i k : ℕ) (b : List T) (v : T)
      → get_or b i default ≡ v
      → pred v ≡ false
      → in_place_loop pred default (suc left) i k b ≡ in_place_loop pred default left (i + 1) k b
  unfolding in_place_loop
  step-drop left i k b v e p = ground (arith, e, p)

  in_place_loop-final :
      (todo done mid : List T) (i k : ℕ) (b : List T)
      → IsAt done mid todo i k b
      → in_place_loop pred default (length todo) i k b ≡ final done mid todo
  unfolding in_place_loop
  in_place_loop-final [] done mid i k b h =
      let whole : b ≡ done ++ [] ++ (mid ++ []) =
        h.backing
        ∙ (append-nil (done ++ mid) ∙ sym (ap₂ ◌++◌ (append-nil done) (append-nil mid))) in
      let size : k ≡ length done + 0 = omega (arith, h.written) in ap₂ (λ x y. (x, y)) whole size
  in_place_loop-final (v ∷ todo) done mid i k b h = elim (Bool-cases (pred v)) [
    | inl p ↦
        let ih =
          in_place_loop-final todo (done ++ v ∷ []) (rest mid v) (i + 1) (k + 1) (set b k v)
            (IsAt-keep done mid todo v i k b h) in
        let size : length (done ++ v ∷ []) + length (kept pred todo)
            ≡ length done + length (v ∷ kept pred todo) =
          omega (arith, length-append done (v ∷ [])) in
        rw p (
          step-keep (length todo) i k b v (IsAt-read done mid todo v i k b h) p
          ∙ ih
          ∙ ap₂ (λ x y. (x, y))
              (ap₂ ◌++◌ (append_assoc done (v ∷ []) (kept pred todo))
                (drop-rest (length (kept pred todo)) mid todo v))
              size)
    | inr p ↦
        let ih =
          in_place_loop-final todo done (mid ++ v ∷ []) (i + 1) k b
            (IsAt-drop done mid todo v i k b h) in
        rw p (
          step-drop (length todo) i k b v (IsAt-read done mid todo v i k b h) p
          ∙ ih
          ∙ ap
              (λ x. (
                done ++ kept pred todo ++ drop (length (kept pred todo)) x,
                length done + length (kept pred todo),
              ))
              (append_assoc mid (v ∷ []) todo))
  ]

  -- `FilterInPlace` returns the elements that the test keeps, in order, as `FilterAlloc` does; behind
  -- them the backing array holds what the slice held there before.
  pub filter_in_place_lem :
      (s : List T)
      → filter_in_place default s pred ≡ (kept pred s ++ drop (length (kept pred s)) s, kept pred s)
  unfolding filter_in_place
  filter_in_place_lem s =
      let e =
        in_place_loop-final s [] [] 0 0 s
          (record { read = refl; written = refl; backing = refl }) in
      let shown : take (0 + length (kept pred s)) (kept pred s ++ drop (length (kept pred s)) s)
          ≡ kept pred s =
        ap (λ k. take k (kept pred s ++ drop (length (kept pred s)) s)) {y = length (kept pred s)}
          (omega arith)
        ∙ take-length (kept pred s) (drop (length (kept pred s)) s) in
      ap (λ (p : List T × ℕ). (p.0, take p.1 p.0)) e
      ∙ ap (λ x. (kept pred s ++ drop (length (kept pred s)) s, x)) shown
