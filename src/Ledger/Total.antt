-- ===== src/Ledger/Total.antt =====
-- `Journal.Total` of a journal that `Post` built.
use Prim.Native.String.{len}
use go_handbook_for_software.Base.{
  ℕ, ◌≡◌, refl, ◌∙◌, subst, List, [], ◌∷◌, String, str_dec, ok, All, arith,
}
use go_handbook_for_software.Ledger.{
  Money, Line, Entry, Journal, new_journal, total_lines, total_entries, total, post,
}
use go_handbook_for_software.Ledger.Sums.{IsPostable, HasCurrency, total_lines-ok, total_lines_skip}
use go_handbook_for_software.Ledger.Post.{IsBalanced, post-IsBalanced, new_money-ok}

abbrev nothing : String → Money
nothing c = record { amount = 0; currency = c }

total_lines-balanced :
    (c ref : String) (ls : List Line)
    → len c ≡ 3
    → IsPostable ref ls
    → total_lines c (nothing c) ls ≡ ok (nothing c)
total_lines-balanced c ref ls v p = elim (str_dec p.currency c) [
  | no n ↦ total_lines_skip c p.currency (nothing c) ls n p.uniform
  | yes e ↦
      let (r, q, s) =
        total_lines-ok c (nothing c) ls v refl (subst (λ k. All (HasCurrency k) ls) e p.uniform) in
      let z : r.amount ≡ 0 = omega (arith, s.amount, s.word (omega arith), p.balanced) in
      q ∙ ground (arith, z, s.currency)
]

total_entries-balanced :
    (c : String) (es : List Entry)
    → len c ≡ 3
    → All (λ (e : Entry). IsPostable e.reference e.lines) es
    → total_entries c (nothing c) es ≡ ok (nothing c)
unfolding total_entries
total_entries-balanced c [] v h = refl
total_entries-balanced c (e ∷ es) v h =
    rw (total_lines-balanced c e.reference e.lines v h.0) (total_entries-balanced c es v h.1)

-- Where every entry is balanced, the total over any well-formed currency is computed with no error
-- and is zero.
pub total-balanced :
    (j : Journal) (c : String) → IsBalanced j → len c ≡ 3 → total j c ≡ ok (nothing c)
unfolding total
total-balanced j c h v = rw (new_money-ok 0 c v) (total_entries-balanced c j.entries v h)

-- A call of `Post`: the time, the reference and the lines.
pub record Call : Type 0 where
  pub now : ℕ
  pub reference : String
  pub lines : List Line

-- The calls of a client in order, the rejected ones among them.
unfoldable pub run : Journal → List Call → Journal
run j [] = j
run j (c ∷ cs) = run (post c.now j c.reference c.lines).0 cs

run-IsBalanced : (j : Journal) (cs : List Call) → IsBalanced j → IsBalanced (run j cs)
unfolding run
run-IsBalanced j [] h = h
run-IsBalanced j (c ∷ cs) h =
    run-IsBalanced (post c.now j c.reference c.lines).0 cs
      (post-IsBalanced c.now j c.reference c.lines h)

-- After any calls of `Post` on a new journal, accepted or rejected, the total over any three-byte
-- currency is computed with no error and is zero.
pub total-run :
    (cs : List Call) (c : String)
    → len c ≡ 3
    → total (run new_journal cs) c ≡ ok (record { amount = 0; currency = c })
total-run cs c v = total-balanced (run new_journal cs) c (run-IsBalanced new_journal cs tt) v
