-- ===== src/Ledger/Reversal.antt =====
-- `PostBalance` and `ReversalEntry`.
use Prim.Native.String.{len}
use go_handbook_for_software.Base.{
  ℕ, suc, ◌+◌, ◌%◌, ◌^◌, ◌<◌, ◌≡◌, ◌≢◌, refl, sym, ◌∙◌, ap, List, [], ◌∷◌, String, Result, ok, All,
  arith, length, map,
}
use go_handbook_for_software.Base.Int64
use go_handbook_for_software.Ledger.{
  Error, Money, Line, Entry, Journal, negate, balance, post, post_balance, reverse_line,
  reversal_entry,
}
use go_handbook_for_software.Ledger.Sums.{sum, IsPostable, HasCurrency, IsNamed}
use go_handbook_for_software.Ledger.Post.{post_decides, new_entry}
use go_handbook_for_software.Ledger.Balance.{account_sum, balance-post}

transfer : String → String → Money → List Line
transfer from to m =
    record { account = from; amount = m } ∷ record { account = to; amount = negate m } ∷ []

transfer-IsPostable :
    (ref from to : String) (m : Money)
    → ref ≢ ""
    → from ≢ ""
    → to ≢ ""
    → len m.currency ≡ 3
    → IsPostable ref (transfer from to m)
unfolding transfer negate
transfer-IsPostable ref from to m r f t v = record {
  currency = m.currency;
  referenced = r;
  two = omega arith;
  valid = v;
  uniform = (refl, (refl, tt));
  named = (f, (t, tt));
  balanced = omega arith;
}

-- `PostBalance` between two different named accounts, in the currency of their balances, is
-- accepted: the first balance grows by the amount, the second falls by it (modulo 2 ^ 64), and any
-- third account with a balance in that currency keeps it.
pub post_balance_moves :
    (now : ℕ) (j : Journal) (ref from to : String) (m b c : Money)
    → ref ≢ ""
    → from ≢ ""
    → to ≢ ""
    → from ≢ to
    → len m.currency ≡ 3
    → b.currency ≡ m.currency
    → c.currency ≡ m.currency
    → b.amount < 2 ^ 64
    → c.amount < 2 ^ 64
    → balance j from ≡ ok b
    → balance j to ≡ ok c
    → let j' = (post_balance now j ref from to m).0 in
      (balance j' from ≡ ok (record b { amount = Int64.add b.amount m.amount }))
      × (balance j' to ≡ ok (record c { amount = Int64.sub c.amount m.amount }))
      × ((q : String) (d : Money)
          → q ≢ from
          → q ≢ to
          → d.currency ≡ m.currency
          → d.amount < 2 ^ 64
          → balance j q ≡ ok d
          → balance j' q ≡ ok d)
unfolding post_balance transfer transfer-IsPostable negate
post_balance_moves now j ref from to m b c r f t ne v bc cc' bw cw bf bt =
    let p = transfer-IsPostable ref from to m r f t v in
    let ls = transfer from to m in
    (
      balance-post now j ref ls from b p (sym bc) bw bf ∙ ground (arith, ne),
      balance-post now j ref ls to c p (sym cc') cw bt ∙ ground (arith, ne),
      λ q d qf qt dc dw h. balance-post now j ref ls q d p (sym dc) dw h ∙ ground (arith, qf, qt),
    )

sum-reversal : (ls : List Line) → (sum (map reverse_line ls) + sum ls) % 2 ^ 64 ≡ 0
unfolding reverse_line
sum-reversal [] = refl
sum-reversal (l ∷ ls) = omega (arith, sum-reversal ls)

account_sum-reversal :
    (a : String) (ls : List Line)
    → (account_sum a (map reverse_line ls) + account_sum a ls) % 2 ^ 64 ≡ 0
unfolding reverse_line
account_sum-reversal a [] = refl
account_sum-reversal a (l ∷ ls) = ground (arith, account_sum-reversal a ls)

HasCurrency-reversal :
    (c : String) (ls : List Line)
    → All (HasCurrency c) ls
    → All (HasCurrency c) (map reverse_line ls)
unfolding reverse_line
HasCurrency-reversal c [] h = tt
HasCurrency-reversal c (l ∷ ls) h = (h.0, HasCurrency-reversal c ls h.1)

IsNamed-reversal : (ls : List Line) → All IsNamed ls → All IsNamed (map reverse_line ls)
unfolding reverse_line
IsNamed-reversal [] h = tt
IsNamed-reversal (l ∷ ls) h = (h.0, IsNamed-reversal ls h.1)

length-reversal : (ls : List Line) → length (map reverse_line ls) ≡ length ls
length-reversal [] = refl
length-reversal (l ∷ ls) = ap suc (length-reversal ls)

reversal-IsPostable :
    (ref ref' : String) (ls : List Line)
    → IsPostable ref ls
    → ref' ≢ ""
    → IsPostable ref' (map reverse_line ls)
reversal-IsPostable ref ref' ls p r = record {
  currency = p.currency;
  referenced = r;
  two = rw length-reversal p.two;
  valid = p.valid;
  uniform = HasCurrency-reversal p.currency ls p.uniform;
  named = IsNamed-reversal ls p.named;
  balanced = omega (arith, sum-reversal ls, p.balanced);
}

-- The reversal of a posted entry is accepted under any non-empty reference, and posting both leaves
-- every balance in the entry's currency as it was before the entry.
pub reversal_restores :
    (now later : ℕ) (j : Journal) (ref ref' : String) (ls : List Line) (a : String) (b : Money)
    → (p : IsPostable ref ls) → ref' ≢ ""
    → p.currency ≡ b.currency
    → b.amount < 2 ^ 64
    → balance j a ≡ ok b
    → let e = new_entry now j ref ls in
      let after = (post now j ref ls).0 in
      let undone = post later after ref' (reversal_entry e ref') in
      (undone.1 ≡ ok (new_entry later after ref' (reversal_entry e ref')))
      × (balance undone.0 a ≡ ok b)
unfolding reversal_entry reversal-IsPostable
reversal_restores now later j ref ref' ls a b p r c w h =
    let after = (post now j ref ls).0 in
    let b' : Money = record b { amount = (b.amount + account_sum a ls) % 2 ^ 64 } in
    let q = reversal-IsPostable ref ref' ls p r in
    let first = balance-post now j ref ls a b p c w h in
    let second = balance-post later after ref' (map reverse_line ls) a b' q c (omega arith) first in
    (
      ap (λ (s : Journal × Result Error Entry). s.1)
          ((post_decides later after ref' (map reverse_line ls)).0 q),
      second
          ∙ ap (λ x. ok (record b { amount = x }))
              (let undo : ((b.amount + account_sum a ls) % 2 ^ 64
                        + account_sum a (map reverse_line ls))
                      % 2 ^ 64
                    ≡ b.amount =
                  omega (arith, account_sum-reversal a ls) in
                undo),
    )
