-- ===== src/Slices.antt =====
-- 02-go-language/examples/seqops/seqops.go: chunks, filters and truncation. A slice is its list of
-- elements; FilterInPlace also says what its backing array holds afterwards. A string is the list of
-- its runes, each with the bytes that encode it, so that a cut between runes is a cut of the list.
pub mod Chunks
pub mod Filters
pub mod InPlace
mod Tests
use go_handbook_for_software.Base.{
  ℕ, zero, suc, ◌+◌, ◌-◌, Bool, true, false, List, [], ◌∷◌, ◌++◌, if◌then◌else◌, ltb, leb, ◌==◌,
  length, take, drop, set, get_or,
}
use go_handbook_for_software.Base.Int64

module _ {T : Type 0} where
  -- `s[i:j]`
  abbrev pub slice : List T → ℕ → ℕ → List T
  slice s i j = take (j - i) (drop i s)

  -- the loop of `Chunk` on fuel; `n` is positive, and `out` what was appended
  unfoldable pub chunk_loop : ℕ → List T → ℕ → ℕ → List (List T)
  chunk_loop zero s n i = []
  chunk_loop (suc fuel) s n i =
      let end = if ltb (length s) (i + n) then length s else i + n in
      let rest = chunk_loop fuel s n (i + n) in
      if ltb i (length s) then slice s i end ∷ rest else []

  -- `Chunk`: at a positive `n`; otherwise nil
  unfoldable pub chunk : List T → ℕ → List (List T)
  chunk s n = if Int64.le n 0 then [] else chunk_loop (length s + 1) s n 0

  -- the loop of `FilterAlloc`
  unfoldable pub filter_loop : (T → Bool) → List T → List T → List T
  filter_loop pred [] out = out
  filter_loop pred (v ∷ s) out = filter_loop pred s (if pred v then out ++ v ∷ [] else out)

  -- `FilterAlloc`
  unfoldable pub filter_alloc : List T → (T → Bool) → List T
  filter_alloc s pred = filter_loop pred s []

  -- the loop of `FilterInPlace`: `left` elements are still to be read, from index `i` on, and `kept`
  -- is `len(out)`, where the next kept element is written
  unfoldable pub in_place_loop : (T → Bool) → T → ℕ → ℕ → ℕ → List T → List T × ℕ
  in_place_loop pred default zero i kept backing = (backing, kept)
  in_place_loop pred default (suc left) i kept backing =
      let v = get_or backing i default in
      let keep = pred v in
      in_place_loop pred default left (i + 1) (if keep then kept + 1 else kept)
        (if keep then set backing kept v else backing)

  -- `FilterInPlace`: the backing array afterwards, and the shortened view of it
  unfoldable pub filter_in_place : T → List T → (T → Bool) → List T × List T
  filter_in_place default s pred =
      let (backing, kept) = in_place_loop pred default (length s) 0 0 s in
      (backing, take kept backing)

-- the loop of `Truncate` over the runes, `n` of them read
unfoldable pub truncate_loop : {Rune : Type 0} → List Rune → ℕ → ℕ → List Rune
truncate_loop [] max_runes n = []
truncate_loop (r ∷ rs) max_runes n =
    let rest = truncate_loop rs max_runes (n + 1) in if n == max_runes then [] else r ∷ rest

-- `Truncate`
unfoldable pub truncate : {Rune : Type 0} → List Rune → ℕ → List Rune
truncate s max_runes = if Int64.lt max_runes 0 then [] else truncate_loop s max_runes 0
