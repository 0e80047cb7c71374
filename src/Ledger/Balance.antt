-- ===== src/Ledger/Balance.antt =====
-- `Journal.Balance` after `Post`.
use Prim.Native.String.{len}
use go_handbook_for_software.Base.{
  ℕ, ◌+◌, ◌%◌, ◌^◌, ◌<◌, ◌≡◌, refl, subst, List, [], ◌∷◌, ◌++◌, String, str_dec, ok, ◌>>=◌,
  Result-cases, All, arith, if_pos, if_neg, Option, none, some, ite, inl, inr,
}
use go_handbook_for_software.Base.Int64
use go_handbook_for_software.Ledger.{
  Money, Line, Entry, Journal, balance_lines, balance_entries, balance, post,
}
use go_handbook_for_software.Ledger.Sums.{IsPostable, HasCurrency, add-ok}
use go_handbook_for_software.Ledger.Post.{post_decides}

-- The sum of an account's amounts, before any reduction.
abbrev pub account_sum : String → List Line → ℕ
account_sum a [] = 0
account_sum a (l ∷ ls) = ite (str_dec l.account a) l.amount.amount 0 + account_sum a ls

record IsAccountSum (a : String) (b : Money) (ls : List Line) (r : Money) : Type 0 where
  currency : r.currency ≡ b.currency
  amount : r.amount % 2 ^ 64 ≡ (b.amount + account_sum a ls) % 2 ^ 64
  word : b.amount < 2 ^ 64 → r.amount < 2 ^ 64

balance_lines-some :
    (a : String) (b : Money) (ls : List Line)
    → len b.currency ≡ 3
    → All (HasCurrency b.currency) ls
    → (r : Money) × (balance_lines a (some b) ls ≡ ok (some r)) × IsAccountSum a b ls r
unfolding balance_lines
balance_lines-some a b [] v u =
    (b, refl, record { currency = refl; amount = omega arith; word = λ h. h })
balance_lines-some a b (l ∷ ls) v u = elim (str_dec l.account a) [
  | no n ↦
      let (r, e, s) = balance_lines-some a b ls v u.1 in
      (
        r,
        rw (if_neg _ n) e,
        record {
          currency = s.currency;
          amount = rw (if_neg (str_dec l.account a) n) (omega (arith, s.amount));
          word = s.word;
        },
      )
  | yes p ↦
      let b' : Money = record {
        amount = Int64.add b.amount l.amount.amount;
        currency = b.currency;
      } in
      let (r, e, s) = balance_lines-some a b' ls v u.1 in
      (
        r,
        rw (if_pos _ p, add-ok b l.amount v u.0) e,
        record {
          currency = s.currency;
          amount = rw (if_pos (str_dec l.account a) p) (omega (arith, s.amount));
          word = λ h. s.word (omega arith);
        },
      )
]

balance_entries-append :
    (a : String) (b : Option Money) (es : List Entry) (e : Entry)
    → balance_entries a b (es ++ e ∷ [])
      ≡ (balance_entries a b es >>= λ c. balance_lines a c e.lines)
unfolding balance_entries
balance_entries-append a b [] e = elim (Result-cases (balance_lines a b e.lines)) [
  | inl (c, q) ↦ rw q
  | inr (x, q) ↦ rw q
]
balance_entries-append a b (f ∷ es) e = elim (Result-cases (balance_lines a b f.lines)) [
  | inl (c, q) ↦ rw q (balance_entries-append a c es e)
  | inr (x, q) ↦ rw q
]

balance_inv :
    (j : Journal) (a : String) (b : Money)
    → balance j a ≡ ok b
    → balance_entries a none j.entries ≡ ok (some b)
unfolding balance
balance_inv j a b h = ground arith

-- Where an account has the balance `b`, and postable lines of the same currency are posted, its
-- balance becomes `b` plus the sum of its own amounts among those lines, modulo 2 ^ 64. (Any other
-- account keeps its balance: its sum is 0.)
pub balance-post :
    (now : ℕ) (j : Journal) (ref : String) (lines : List Line) (a : String) (b : Money)
    → (p : IsPostable ref lines) → p.currency ≡ b.currency
    → b.amount < 2 ^ 64
    → balance j a ≡ ok b
    → balance (post now j ref lines).0 a
      ≡ ok (record b { amount = (b.amount + account_sum a lines) % 2 ^ 64 })
unfolding balance
balance-post now j ref lines a b p c w h =
    let u = subst (λ k. All (HasCurrency k) lines) c p.uniform in
    let (r, e, s) = balance_lines-some a b lines (rw (← c) p.valid) u in
    let z : r.amount ≡ (b.amount + account_sum a lines) % 2 ^ 64 =
      omega (arith, s.amount, s.word w) in
    ground (
      arith,
      (post_decides now j ref lines).0 p,
      balance_entries-append a none j.entries
          (record { id = Int64.add j.next_id 1; posted_at = now; reference = ref; lines = lines }),
      balance_inv j a b h,
      e,
      z,
      s.currency,
    )
