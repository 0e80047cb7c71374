-- ===== src/Ledger/Post.antt =====
-- `Journal.Post`: its checks, and what it appends.
use Prim.Native.String.{len}
use go_handbook_for_software.Base.{
  ℕ, ◌≡◌, sym, ap, subst, List, [], ◌∷◌, ◌++◌, String, ok, err, Result-cases, All, arith, inl, inr,
  All-append,
}
use go_handbook_for_software.Base.Int64
use go_handbook_for_software.Ledger.{
  Error, Money, Line, Entry, Journal, new_money, add_lines, validate, post,
}
use go_handbook_for_software.Ledger.Sums.{HasCurrency, IsPostable, add_lines-ok, add_lines_inv}

-- The entry that a successful call appends, and the journal after it.
abbrev pub new_entry : ℕ → Journal → String → List Line → Entry
new_entry now j ref lines = record {
  id = Int64.add j.next_id 1;
  posted_at = now;
  reference = ref;
  lines = lines;
}

abbrev pub with_entry : Journal → Entry → Journal
with_entry j e = record { entries = j.entries ++ e ∷ []; next_id = e.id }

pub new_money-ok :
    (a : ℕ) (c : String) → len c ≡ 3 → new_money a c ≡ ok (record { amount = a; currency = c })
unfolding new_money
new_money-ok a c h = ground (arith, h)

new_money_inv :
    (a : ℕ) (c : String) (m : Money)
    → new_money a c ≡ ok m
    → (len c ≡ 3) × (m ≡ record { amount = a; currency = c })
unfolding new_money
new_money_inv a c m h = ground arith

pub validate-ok :
    (ref : String) (lines : List Line)
    → IsPostable ref lines
    → (m : Money) × (validate ref lines ≡ ok m)
unfolding validate
validate-ok ref [] p = absurd (omega (arith, p.two))
validate-ok ref (l ∷ ls) p =
    let t : Money = record { amount = 0; currency = l.amount.currency } in
    let c : p.currency ≡ l.amount.currency = sym p.uniform.0 in
    let u = subst (λ k. All (HasCurrency k) (l ∷ ls)) c p.uniform in
    let v : len l.amount.currency ≡ 3 = rw (← c) p.valid in
    let (r, e, s) = add_lines-ok t (l ∷ ls) v u p.named in
    let z : r.amount ≡ 0 = omega (arith, s.amount, s.word (omega arith), p.balanced) in
    (r, ground (arith, new_money-ok 0 l.amount.currency v, e, z, p.referenced, p.two))

pub validate_inv :
    (ref : String) (lines : List Line) (m : Money)
    → validate ref lines ≡ ok m
    → IsPostable ref lines
unfolding validate
validate_inv ref [] m h = ground arith
validate_inv ref (l ∷ ls) m h = elim (Result-cases (new_money 0 l.amount.currency)) [
  | inr (_, e) ↦ absurd (ground arith)
  | inl (t, e) ↦ elim (Result-cases (add_lines t (l ∷ ls))) [
    | inr (_, k) ↦ absurd (ground arith)
    | inl (r, k) ↦
        let (v, t_lem) = new_money_inv 0 l.amount.currency t e in
        let (u, n, s) = add_lines_inv t (l ∷ ls) r k in
        let z : r.amount ≡ 0 = ground arith in
        record {
          currency = l.amount.currency;
          referenced = ground arith;
          two = ground arith;
          valid = v;
          uniform =
              subst (λ k. All (HasCurrency k) (l ∷ ls)) (ap (λ (q : Money). q.currency) t_lem) u;
          named = n;
          balanced = omega (arith, s.amount, z, ap (λ (q : Money). q.amount) t_lem);
        }
  ]
]

-- `Post` accepts exactly the postable lines: for those it appends one entry, with the next number,
-- the time, the reference and the lines; for any others it reports an error and the journal is as
-- it was.
pub post_decides :
    (now : ℕ) (j : Journal) (ref : String) (lines : List Line)
    → (IsPostable ref lines
        → let e = new_entry now j ref lines in post now j ref lines ≡ (with_entry j e, ok e))
      × (¬ IsPostable ref lines → (x : Error) × (post now j ref lines ≡ (j, err x)))
unfolding post
post_decides now j ref lines = (
  λ p. let (m, e) = validate-ok ref lines p in rw (e, post),
  λ n. elim (Result-cases (validate ref lines)) [
    | inl (m, e) ↦ absurd (n (validate_inv ref lines m e))
    | inr (x, e) ↦ (x, rw (e, post))
  ],
)

abbrev pub IsBalanced : Journal → Type 0
IsBalanced j = All (λ (e : Entry). IsPostable e.reference e.lines) j.entries

-- `Post` keeps every entry of the journal balanced, whatever it is given.
pub post-IsBalanced :
    (now : ℕ) (j : Journal) (ref : String) (lines : List Line)
    → IsBalanced j
    → IsBalanced (post now j ref lines).0
unfolding post
post-IsBalanced now j ref lines h = elim (Result-cases (validate ref lines)) [
  | inr (x, e) ↦ rw (e, post) h
  | inl (m, e) ↦
      rw (e, post)
        (All-append (λ (e : Entry). IsPostable e.reference e.lines) j.entries
          (new_entry now j ref lines ∷ []) h (validate_inv ref lines m e, tt))
]
