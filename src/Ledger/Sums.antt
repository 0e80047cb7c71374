-- ===== src/Ledger/Sums.antt =====
-- What a balanced list of lines is, and the loops that add lines.
use Prim.Native.String.{len}
use go_handbook_for_software.Base.{
  ℕ, ◌+◌, ◌%◌, ◌^◌, ◌≤◌, ◌<◌, ◌≡◌, ◌≢◌, refl, sym, ◌∙◌, subst, List, [], ◌∷◌, String, str_dec, ok,
  Result-cases, All, arith, length, if_pos, if_neg, inl, inr,
}
use go_handbook_for_software.Base.Int64
use go_handbook_for_software.Ledger.{Money, Line, add, add_lines, total_lines}

-- The sum of the amounts, before any reduction.
abbrev pub sum : List Line → ℕ
sum [] = 0
sum (l ∷ ls) = l.amount.amount + sum ls

abbrev pub HasCurrency : String → Line → Type 0
HasCurrency c l = l.amount.currency ≡ c

abbrev pub IsNamed : Line → Type 0
IsNamed l = l.account ≢ ""

-- What `Post` asks of a reference and its lines.
pub record IsPostable (ref : String) (lines : List Line) : Type 0 where
  pub currency : String
  pub referenced : ref ≢ ""
  pub two : 2 ≤ length lines
  pub valid : len currency ≡ 3
  pub uniform : All (HasCurrency currency) lines
  pub named : All IsNamed lines
  pub balanced : sum lines % 2 ^ 64 ≡ 0

-- What adding the lines `ls` to `t` gives.
pub record IsSum (t : Money) (ls : List Line) (r : Money) : Type 0 where
  pub currency : r.currency ≡ t.currency
  pub amount : r.amount % 2 ^ 64 ≡ (t.amount + sum ls) % 2 ^ 64
  pub word : t.amount < 2 ^ 64 → r.amount < 2 ^ 64

pub add-ok :
    (m o : Money)
    → len m.currency ≡ 3
    → o.currency ≡ m.currency
    → add m o ≡ ok (record { amount = Int64.add m.amount o.amount; currency = m.currency })
unfolding add
add-ok m o h e = ground (arith, h, e)

pub add_inv :
    (m o r : Money)
    → add m o ≡ ok r
    → (o.currency ≡ m.currency)
      × (r.currency ≡ m.currency)
      × (r.amount ≡ Int64.add m.amount o.amount)
unfolding add
add_inv m o r h = ground arith

pub add_lines-ok :
    (t : Money) (ls : List Line)
    → len t.currency ≡ 3
    → All (HasCurrency t.currency) ls
    → All IsNamed ls
    → (r : Money) × (add_lines t ls ≡ ok r) × IsSum t ls r
unfolding add_lines
add_lines-ok t [] v u n = (t, refl, record { currency = refl; amount = omega arith; word = λ h. h })
add_lines-ok t (l ∷ ls) v u n =
    let t' : Money = record {
      amount = Int64.add t.amount l.amount.amount;
      currency = t.currency;
    } in
    let (r, e, s) = add_lines-ok t' ls v u.1 n.1 in
    (
      r,
      rw (if_neg (str_dec l.account "") n.0, add-ok t l.amount v u.0) e,
      record {
        currency = s.currency;
        amount = omega (arith, s.amount);
        word = λ h. s.word (omega arith);
      },
    )

pub add_lines_inv :
    (t : Money) (ls : List Line) (r : Money)
    → add_lines t ls ≡ ok r
    → All (HasCurrency t.currency) ls × All IsNamed ls × IsSum t ls r
unfolding add_lines
add_lines_inv t [] r h = (tt, tt, ground arith)
add_lines_inv t (l ∷ ls) r h = elim (str_dec l.account "") [
  | yes e ↦ absurd (ground arith)
  | no n ↦ elim (Result-cases (add t l.amount)) [
    | inr (_, e) ↦ absurd (ground arith)
    | inl (t', e) ↦
        let (c, c', a) = add_inv t l.amount t' e in
        let (u, k, s) = add_lines_inv t' ls r (ground arith) in
        (
          (c, subst (λ k. All (HasCurrency k) ls) c' u),
          (n, k),
          record {
            currency = s.currency ∙ c';
            amount = omega (arith, s.amount, a);
            word = λ h. s.word (omega (arith, a));
          },
        )
  ]
]

-- `Total`'s loop over lines of the wanted currency.
pub total_lines-ok :
    (c : String) (t : Money) (ls : List Line)
    → len c ≡ 3
    → t.currency ≡ c
    → All (HasCurrency c) ls
    → (r : Money) × (total_lines c t ls ≡ ok r) × IsSum t ls r
unfolding total_lines
total_lines-ok c t [] v e u =
    (t, refl, record { currency = refl; amount = omega arith; word = λ h. h })
total_lines-ok c t (l ∷ ls) v e u =
    let t' : Money = record {
      amount = Int64.add t.amount l.amount.amount;
      currency = t.currency;
    } in
    let (r, q, s) = total_lines-ok c t' ls v e u.1 in
    (
      r,
      rw (if_pos (str_dec l.amount.currency c) u.0, add-ok t l.amount (rw e v) (u.0 ∙ sym e)) q,
      record {
        currency = s.currency;
        amount = omega (arith, s.amount);
        word = λ h. s.word (omega arith);
      },
    )

-- Lines of another currency are passed over.
pub total_lines_skip :
    (c d : String) (t : Money) (ls : List Line)
    → d ≢ c
    → All (HasCurrency d) ls
    → total_lines c t ls ≡ ok t
unfolding total_lines
total_lines_skip c d t [] ne u = refl
total_lines_skip c d t (l ∷ ls) ne u =
    rw (if_neg (str_dec l.amount.currency c) (λ e. ne (sym u.0 ∙ e)))
      (total_lines_skip c d t ls ne u.1)
