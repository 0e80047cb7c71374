-- ===== src/Lease/Fencing.antt =====
-- The storage guard `Fenced`, alone and together with the Coordinator.
use go_handbook_for_software.Base.{
  ℕ, ◌+◌, ◌^◌, ◌≤◌, ◌<◌, ◌≡◌, refl, ap, subst, List, [], ◌∷◌, ◌++◌, String, str_dec, arith, length,
  if_pos, if_neg, ite, ok, err,
}
use go_handbook_for_software.Base.Dict
use go_handbook_for_software.Lease.{Token, Coordinator, Fenced, fenced_out, newest, write, insert}
use go_handbook_for_software.Lease.Grant.{IsSingle, Ascends, Op, run, run-Kept}

-- Every watermark is a number from 0 on.
abbrev pub IsGuard : Fenced → Type 0
IsGuard f = (q : String) → newest f q < 2 ^ 63

newest-insert :
    (r q : String) (n : ℕ) (f : Fenced)
    → newest (record f { watermarks = insert r n f.watermarks }) q
      ≡ ite (str_dec r q) n (newest f q)
unfolding newest
newest-insert r q n f = ground (arith, Dict.lookup-insert str_dec r q n f.watermarks)

module _ {ℓ} {S : Type ℓ} where
  -- `Write` runs its effect exactly if the token is newer than every one accepted for the resource;
  -- then that token becomes the resource's watermark and the other resources keep theirs. Otherwise
  -- it reports ErrFencedOut, and neither the guard nor the stored state changes.
  pub write_decides :
      (r : String) (t : Token) (apply : S → S) (f : Fenced) (s : S)
      → t.number < 2 ^ 63
      → newest f r < 2 ^ 63
      → (t.number ≤ newest f r → write r t apply (f, s) ≡ ((f, s), err fenced_out))
        × (newest f r < t.number
            → let ((f', s'), result) = write r t apply (f, s) in
              (result ≡ ok tt)
              × (s' ≡ apply s)
              × ((q : String) → newest f' q ≡ ite (str_dec r q) t.number (newest f q)))
  unfolding write
  write_decides r t apply f s tb nb = (
    λ h. ground arith,
    λ h. (ground arith, ground arith, λ q. ground (arith, newest-insert r q t.number f)),
  )

-- A write: the resource, the token and the effect.
pub record Attempt {ℓ} (S : Type ℓ) : Type ℓ where
  pub resource : String
  pub token : Token
  pub effect : S → S

module _ {ℓ} {S : Type ℓ} where
  unfoldable pub writes : List (Attempt S) → Fenced × S → Fenced × S
  writes [] fs = fs
  writes (w ∷ ws) fs = writes ws (write w.resource w.token w.effect fs).0

  abbrev pub IsSmall : List (Attempt S) → Type ℓ
  IsSmall [] = Unit
  IsSmall (w ∷ ws) = (w.token.number < 2 ^ 63) × IsSmall ws

  newest-write :
      (r q : String) (t : Token) (apply : S → S) (f : Fenced) (s : S)
      → t.number < 2 ^ 63
      → newest f q < 2 ^ 63
      → newest f r < 2 ^ 63
      → (newest f q ≤ newest (write r t apply (f, s)).0.0 q)
        × (newest (write r t apply (f, s)).0.0 q < 2 ^ 63)
  unfolding write
  newest-write r q t apply f s tb nb rb = elim (str_dec r q) [
    | yes e ↦ ground (
      arith,
      newest-insert r q t.number f,
      ap (newest f) e,
      if_pos (str_dec r q) e t.number (newest f q),
    )
    | no n ↦
        ground (arith, newest-insert r q t.number f, if_neg (str_dec r q) n t.number (newest f q))
  ]

  newest-writes :
      (ws : List (Attempt S)) (f : Fenced) (s : S) (q : String)
      → IsSmall ws
      → IsGuard f
      → (newest f q ≤ newest (writes ws (f, s)).0 q) × IsGuard (writes ws (f, s)).0
  unfolding writes
  newest-writes [] f s q b g = (omega arith, g)
  newest-writes (w ∷ ws) f s q b g =
      let after = (write w.resource w.token w.effect (f, s)).0 in
      let kept =
        λ (x : String). newest-write w.resource x w.token w.effect f s b.0 (g x) (g w.resource) in
      let rest = newest-writes ws after.0 after.1 q b.1 (λ x. (kept x).1) in
      (omega (arith, (kept q).0, rest.0), rest.1)

  -- Once a write under the token `new` is accepted for a resource, a write there under a token that
  -- is not newer is fenced out, however many writes of any holders lie between: neither the guard
  -- nor the stored state changes.
  pub write-fenced_out :
      (r : String) (old new : Token) (e e' : S → S) (ws : List (Attempt S)) (f : Fenced) (s : S)
      → old.number ≤ new.number
      → new.number < 2 ^ 63
      → IsSmall ws
      → IsGuard f
      → newest f r < new.number
      → let later = writes ws (write r new e (f, s)).0 in
        write r old e' later ≡ (later, err fenced_out)
  write-fenced_out r old new e e' ws f s o n b g h =
      let after = (write r new e (f, s)).0 in
      let first = ((write_decides r new e f s n (g r)).1 h).2 r in
      let kept = λ (x : String). newest-write r x new e f s n (g x) (g r) in
      let (grown, guard) = newest-writes ws after.0 after.1 r b (λ x. (kept x).1) in
      let later = writes ws after in
      (write_decides r old e' later.0 later.1 (omega arith) (guard r)).0
        (omega (arith, first, if_pos (str_dec r r) refl new.number (newest f r)))

above-lt :
    (n : ℕ) (mid after : List Token) (new : Token) → Ascends n (mid ++ new ∷ after) → n < new.number
above-lt n [] after new h = h.0
above-lt n (t ∷ mid) after new h = omega (arith, h.0, above-lt t.number mid after new h.1)

Ascends-lt :
    (n : ℕ) (before mid after : List Token) (old new : Token)
    → Ascends n (before ++ (old ∷ (mid ++ new ∷ after)))
    → old.number < new.number
Ascends-lt n [] mid after old new h = above-lt old.number mid after new h.1
Ascends-lt n (t ∷ before) mid after old new h = Ascends-lt t.number before mid after old new h.1

module _ {ℓ} {S : Type ℓ} where
  -- The two sides together. If a coordinator issued `old` before `new`, and the storage guard has
  -- accepted a write to a resource under `new`, then a later write there under `old` is fenced out
  -- and changes nothing, whatever calls and writes lie between. The coordinator starts with at most
  -- one active holder, and no counter or token reaches 2 ^ 63.
  pub zombie-fenced_out :
      (ops : List Op) (c : Coordinator) (before mid after : List Token) (old new : Token)
      (r : String) (e e' : S → S) (ws : List (Attempt S)) (f : Fenced) (s : S)
      → IsSingle c
      → c.next + length ops < 2 ^ 63
      → (run ops c).1 ≡ before ++ (old ∷ (mid ++ new ∷ after))
      → new.number < 2 ^ 63
      → IsSmall ws
      → IsGuard f
      → newest f r < new.number
      → let later = writes ws (write r new e (f, s)).0 in
        write r old e' later ≡ (later, err fenced_out)
  zombie-fenced_out ops c before mid after old new r e e' ws f s single bound issued n b g h =
      let up = subst (Ascends c.next) issued (run-Kept ops c single bound).ascending in
      write-fenced_out r old new e e' ws f s
        (omega (arith, Ascends-lt c.next before mid after old new up)) n b g h
