-- ===== src/Ledger/Tests.antt =====
-- Runs of the journal, and the theorems about it at concrete inputs.
use go_handbook_for_software.Base.{
  ℕ, ◌-◌, ◌^◌, ◌≡◌, ◌≢◌, refl, List, [], ◌∷◌, String, str_dec, texts_differ, ok, err, arith,
}
use go_handbook_for_software.Ledger.{
  Money, Line, Journal, new_journal, balance, balance_lines, balance_entries, found, add, post,
  validate, new_money, add_lines, total, reversal_entry, unbalanced,
}
use go_handbook_for_software.Ledger.Sums.{IsPostable}
use go_handbook_for_software.Ledger.Post.{post_decides, new_entry, with_entry}
use go_handbook_for_software.Ledger.Total.{run, total-run}
use go_handbook_for_software.Ledger.Reversal.{reversal_restores}

abbrev usd : ℕ → Money
usd n = record { amount = n; currency = "USD" }

abbrev sale : List Line
sale =
    record { account = "cash"; amount = usd 100 }
    ∷ record { account = "revenue"; amount = usd (2 ^ 64 - 100) }
    ∷ []

abbrev one_sided : List Line
one_sided =
    record { account = "cash"; amount = usd 100 }
    ∷ record { account = "revenue"; amount = usd 5 }
    ∷ []

abbrev after_sale : Journal
after_sale = with_entry new_journal (new_entry 1 new_journal "sale" sale)

cash_named : ◌≢◌ {A = String} "cash" ""
unfolding str_dec
cash_named = texts_differ "cash" "" refl

revenue_named : ◌≢◌ {A = String} "revenue" ""
unfolding str_dec
revenue_named = texts_differ "revenue" "" refl

again_named : ◌≢◌ {A = String} "again" ""
unfolding str_dec
again_named = texts_differ "again" "" refl

sale_named : ◌≢◌ {A = String} "sale" ""
unfolding str_dec
sale_named = texts_differ "sale" "" refl

refund_named : ◌≢◌ {A = String} "refund" ""
unfolding str_dec
refund_named = texts_differ "refund" "" refl

undo_named : ◌≢◌ {A = String} "undo" ""
unfolding str_dec
undo_named = texts_differ "undo" "" refl

cash_ne_revenue : ◌≢◌ {A = String} "cash" "revenue"
unfolding str_dec
cash_ne_revenue = texts_differ "cash" "revenue" refl

sale-IsPostable : (ref : String) → ref ≢ "" → IsPostable ref sale
sale-IsPostable ref r = record {
  currency = "USD";
  referenced = r;
  two = omega arith;
  valid = refl;
  uniform = (refl, (refl, tt));
  named = (cash_named, (revenue_named, tt));
  balanced = refl;
}

cash_balance : balance after_sale "cash" ≡ ok (usd 100)
unfolding balance balance_entries balance_lines found str_dec
cash_balance = refl

revenue_balance : balance after_sale "revenue" ≡ ok (usd (2 ^ 64 - 100))
unfolding balance balance_entries balance_lines found str_dec
revenue_balance = refl

one_sided_refused : (post 1 new_journal "sale" one_sided) ≡ (new_journal, err unbalanced)
unfolding post validate new_money add_lines add str_dec
one_sided_refused = refl

post_decides_example : post 2 after_sale "again" sale ≡ (
  with_entry after_sale (new_entry 2 after_sale "again" sale),
  ok (new_entry 2 after_sale "again" sale),
)
post_decides_example =
    (post_decides 2 after_sale "again" sale).0 (sale-IsPostable "again" again_named)

total-run_example :
    total
      (run new_journal (
        record { now = 1; reference = "sale"; lines = sale }
        ∷ record { now = 2; reference = "bad"; lines = one_sided }
        ∷ []))
      "USD"
    ≡ ok (usd 0)
total-run_example =
    total-run
      (record { now = 1; reference = "sale"; lines = sale }
        ∷ record { now = 2; reference = "bad"; lines = one_sided }
        ∷ [])
      "USD" refl

reversal_restores_example :
    balance
      (post 3
        (post 2 after_sale "again" sale).0
        "undo"
        (reversal_entry (new_entry 2 after_sale "again" sale) "undo")).0
      "cash"
    ≡ ok (usd 100)
unfolding sale-IsPostable str_dec
reversal_restores_example =
    (reversal_restores 2 3 after_sale "again" "undo" sale "cash" (usd 100)
      (sale-IsPostable "again" again_named) undo_named refl (omega arith) cash_balance).1
