-- ===== src/Slices/Chunks.antt =====
-- `Chunk` and `Truncate`.
use go_handbook_for_software.Base.{
  ℕ, zero, suc, ◌+◌, ◌-◌, ◌^◌, ◌≤◌, ◌<◌, ◌≡◌, refl, ap, sym, ◌∙◌, false, List, [], ◌∷◌, ◌++◌, arith,
  length, take, drop, take-append-drop, take_of_length-le, length-take, length-drop, All, dec_lt,
  ℕ_discrete, append-nil,
}
use go_handbook_for_software.Base.Int64
use go_handbook_for_software.Slices.{chunk_loop, chunk, truncate_loop, truncate}

abbrev pub concat : {T : Type 0} → List (List T) → List T
concat [] = []
concat (c ∷ cs) = c ++ concat cs

module _ {T : Type 0} where
  drop_nil : (n : ℕ) → drop {A = T} n [] ≡ []
  drop_nil zero = refl
  drop_nil (suc n) = refl

  take_nil : (n : ℕ) → take {A = T} n [] ≡ []
  take_nil zero = refl
  take_nil (suc n) = refl

  drop-drop : (n i : ℕ) (s : List T) → drop n (drop i s) ≡ drop (i + n) s
  drop-drop n zero s = ap (λ k. drop k s) (omega arith)
  drop-drop n (suc i) [] = drop_nil n ∙ sym (drop_nil (suc i + n))
  drop-drop n (suc i) (x ∷ s) =
      drop-drop n i s ∙ ap (λ k. drop k (x ∷ s)) {x = suc (i + n)} (omega arith)

  drop_of_length-le : (n : ℕ) (s : List T) → length s ≤ n → drop n s ≡ []
  drop_of_length-le zero [] h = refl
  drop_of_length-le (suc n) [] h = refl
  drop_of_length-le zero (x ∷ s) h = absurd (omega arith)
  drop_of_length-le (suc n) (x ∷ s) h = drop_of_length-le n s (omega arith)

  -- a chunk is not empty, and not longer than `n`
  abbrev pub IsChunk : ℕ → List T → Type 0
  IsChunk n c = (0 < length c) × (length c ≤ n)

  chunk_concat :
      (fuel : ℕ) (s : List T) (n i : ℕ)
      → 0 < n
      → length s - i < fuel
      → concat (chunk_loop fuel s n i) ≡ drop i s
  unfolding chunk_loop
  chunk_concat zero s n i p f = absurd (omega arith)
  chunk_concat (suc fuel) s n i p f = elim (dec_lt i (length s)) [
    | no l ↦ ground (arith, drop_of_length-le i s (omega arith))
    | yes l ↦
        let ih = chunk_concat fuel s n (i + n) p (omega arith) in
        elim (dec_lt (length s) (i + n)) [
          | yes short ↦ ground (
            arith,
            ih,
            drop_of_length-le (i + n) s (omega arith),
            take_of_length-le (length s - i) (drop i s) (omega (arith, length-drop i s)),
            append-nil (drop i s),
          )
          | no long ↦
              let width : i + n - i ≡ n = omega arith in
              ground (
                arith,
                ih,
                ap (λ k. take k (drop i s)) width,
                sym (drop-drop n i s),
                take-append-drop n (drop i s),
              )
        ]
  ]

  chunk_loop-All :
      (fuel : ℕ) (s : List T) (n i : ℕ) → 0 < n → All (IsChunk n) (chunk_loop fuel s n i)
  unfolding chunk_loop
  chunk_loop-All zero s n i p = tt
  chunk_loop-All (suc fuel) s n i p = elim (dec_lt i (length s)) [
    | no l ↦ ground arith
    | yes l ↦ ground (
      arith,
      chunk_loop-All fuel s n (i + n) p,
      length-take (length s - i) (drop i s),
      length-take (i + n - i) (drop i s),
      length-drop i s,
    )
  ]

  -- At a positive `n` (where the length and `n` together stay an `int`), the chunks of a slice make it up when they are put together in order, and each
  -- holds between one and `n` elements: no element is lost, repeated or moved, and the loop ends.
  pub chunk_lem :
      (s : List T) (n : ℕ)
      → 0 < n
      → length s + n < 2 ^ 63
      → (concat (chunk s n) ≡ s) × All (IsChunk n) (chunk s n)
  unfolding chunk
  chunk_lem s n p b =
      let positive : Int64.le n 0 ≡ false = ground arith in
      rw positive
        (chunk_concat (length s + 1) s n 0 p (omega arith), chunk_loop-All (length s + 1) s n 0 p)

truncate_loop-take :
    {Rune : Type 0} (s : List Rune) (m n : ℕ) → n ≤ m → truncate_loop s m n ≡ take (m - n) s
unfolding truncate_loop
truncate_loop-take [] m n h = sym (take_nil (m - n))
truncate_loop-take {Rune} (r ∷ s) m n h = elim (ℕ_discrete n m) [
  | yes e ↦ let none : m - n ≡ 0 = omega arith in ground (arith, none)
  | no d ↦
      let more : m - n ≡ suc (m - (n + 1)) = omega arith in
      let ih = truncate_loop-take s m (n + 1) (omega arith) in ground (arith, more, ih)
]

-- `Truncate` to a number of runes from 0 on is the prefix of that many runes, or the whole text if it
-- has no more; to a negative number it is empty.
pub truncate_lem :
    {Rune : Type 0} (s : List Rune) (m : ℕ)
    → (m < 2 ^ 63 → truncate s m ≡ take m s) × (2 ^ 63 ≤ m → m < 2 ^ 64 → truncate s m ≡ [])
unfolding truncate
truncate_lem s m = (
  λ b.
      let nonneg : Int64.lt m 0 ≡ false = ground arith in
      rw nonneg (truncate_loop-take s m 0 (omega arith) ∙ ap (λ k. take k s) {y = m} (omega arith)),
  λ b c. ground arith,
)
