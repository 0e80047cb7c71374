-- ===== src/Ledger.antt =====
-- 25-fintech-with-go/examples/ledger: Money (money.go) and the double-entry Journal (ledger.go).
-- An amount is the `int64` pattern of Base.Int64, so sums wrap as Go's do. The mutex serialises the
-- calls, so a call is a function from the journal to the journal; `time.Now()` is an argument. The
-- copies of slices that the code takes are what a value of the model is already.
pub mod Sums
pub mod Post
pub mod Total
pub mod Balance
pub mod Reversal
mod Tests
use Prim.Native.String.{len}
use go_handbook_for_software.Base.{
  ℕ, zero, suc, ◌+◌, ◌%◌, ◌^◌, Bool, true, false, not, ◌||◌, List, [], ◌∷◌, ◌++◌, map, ite, String,
  str_dec, Option, none, some, Result, ok, err, ◌>>=◌, if◌then◌else◌, ◌==◌, ltb, length,
}
use go_handbook_for_software.Base.Int64

pub data Error : Type 0 where
  unbalanced unknown_account currency_mismatch invalid_amount empty_account : Error

pub record Money : Type 0 where
  pub amount : ℕ
  pub currency : String

-- `New`
unfoldable pub new_money : ℕ → String → Result Error Money
new_money amount currency =
    if not (len currency == 3)
    then err invalid_amount
    else ok (record { amount = amount; currency = currency })

-- `Money.Add`
unfoldable pub add : Money → Money → Result Error Money
add m o =
    if not (len m.currency == 3) || not (len o.currency == 3)
    then err invalid_amount
    else ite (str_dec m.currency o.currency)
        (ok (record { amount = Int64.add m.amount o.amount; currency = m.currency }))
        (err currency_mismatch)

-- `Money.Negate`
unfoldable pub negate : Money → Money
negate m = record m { amount = Int64.neg m.amount }

-- `Money.IsZero`
abbrev pub is_zero : Money → Bool
is_zero m = m.amount == 0

-- `Money.IsPositive`
abbrev pub is_positive : Money → Bool
is_positive m = Int64.lt 0 m.amount

pub record Line : Type 0 where
  pub account : String
  pub amount : Money

pub record Entry : Type 0 where
  pub id : ℕ
  pub posted_at : ℕ
  pub reference : String
  pub lines : List Line

pub record Journal : Type 0 where
  pub entries : List Entry
  pub next_id : ℕ

abbrev pub new_journal : Journal
new_journal = record { entries = []; next_id = 0 }

-- the loop of `Post` over the lines
unfoldable pub add_lines : Money → List Line → Result Error Money
add_lines total [] = ok total
add_lines total (l ∷ ls) =
    ite (str_dec l.account "") (err empty_account) (add total l.amount >>= λ sum. add_lines sum ls)

-- the checks of `Post`, in the order of the code
unfoldable pub validate : String → List Line → Result Error Money
validate ref [] = ite (str_dec ref "") (err invalid_amount) (err unbalanced)
validate ref (l ∷ ls) = ite (str_dec ref "") (err invalid_amount) (
    if ltb (length (l ∷ ls)) 2
    then err unbalanced
    else (new_money 0 l.amount.currency >>= λ zero_total. add_lines zero_total (l ∷ ls) >>= λ total.
        if is_zero total then ok total else err unbalanced))

-- the part of `Post` under the lock
unfoldable pub append_entry : ℕ → Journal → String → List Line → Journal × Result Error Entry
append_entry now j ref lines =
    let id = Int64.add j.next_id 1 in
    let e : Entry = record { id = id; posted_at = now; reference = ref; lines = lines } in
    (record j { entries = j.entries ++ e ∷ []; next_id = id }, ok e)

-- `Journal.Post`
unfoldable pub post : ℕ → Journal → String → List Line → Journal × Result Error Entry
unfolding append_entry
post now j ref lines = elim (validate ref lines) [
  | ok _ ↦ append_entry now j ref lines
  | err e ↦ (j, err e)
]

-- `Journal.PostBalance`
unfoldable pub post_balance :
    ℕ → Journal → String → String → String → Money → Journal × Result Error Entry
post_balance now j ref from to m =
    post now j ref
      (record { account = from; amount = m } ∷ record { account = to; amount = negate m } ∷ [])

-- the inner loop of `Balance`; `none` is `first == true`
unfoldable pub balance_lines : String → Option Money → List Line → Result Error (Option Money)
balance_lines a bal [] = ok bal
balance_lines a none (l ∷ ls) = balance_lines a (ite (str_dec l.account a) (some l.amount) none) ls
balance_lines a (some bal) (l ∷ ls) =
    let rest = balance_lines a (some bal) ls in
    ite (str_dec l.account a) (add bal l.amount >>= λ sum. balance_lines a (some sum) ls) rest

-- the outer loop of `Balance`
unfoldable pub balance_entries : String → Option Money → List Entry → Result Error (Option Money)
balance_entries a bal [] = ok bal
balance_entries a bal (e ∷ es) = balance_lines a bal e.lines >>= λ b. balance_entries a b es

found : Option Money → Result Error Money
found none = err unknown_account
found (some bal) = ok bal

-- `Journal.Balance`
unfoldable pub balance : Journal → String → Result Error Money
unfolding found
balance j a = balance_entries a none j.entries >>= found

-- the inner loop of `Total`
unfoldable pub total_lines : String → Money → List Line → Result Error Money
total_lines currency total [] = ok total
total_lines currency total (l ∷ ls) =
    let skip = total_lines currency total ls in
    ite (str_dec l.amount.currency currency)
      (add total l.amount >>= λ sum. total_lines currency sum ls) skip

-- the outer loop of `Total`
unfoldable pub total_entries : String → Money → List Entry → Result Error Money
total_entries currency total [] = ok total
total_entries currency total (e ∷ es) =
    total_lines currency total e.lines >>= λ sum. total_entries currency sum es

-- `Journal.Total`
unfoldable pub total : Journal → String → Result Error Money
total j currency =
    new_money 0 currency >>= λ zero_total. total_entries currency zero_total j.entries

-- `Journal.Entries`
abbrev pub entries : Journal → List Entry
entries j = j.entries

-- the line that the loop of `ReversalEntry` writes
unfoldable pub reverse_line : Line → Line
unfolding negate
reverse_line l = record { account = l.account; amount = negate l.amount }

-- `ReversalEntry`; the code does not use its argument `ref`
unfoldable pub reversal_entry : Entry → String → List Line
unfolding reverse_line
reversal_entry orig ref = map reverse_line orig.lines
