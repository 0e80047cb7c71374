-- ===== src/Payments.antt =====
-- 14-backend-development/examples/service/internal/payments: the Service (service.go) over its
-- PaymentStore interface, and the MemoryStore (memory.go). A call of the store takes its state to a
-- new state and a result. Amounts are `int64` patterns. `fmt.Sprintf("pay_%04d", n)`,
-- `strings.TrimSpace` and `strings.ToUpper` are arguments. Spans, metrics and log lines, which the
-- service works without, are left out.
pub mod Store
pub mod Authz
pub mod Transport
pub mod Gate
pub mod Answers
mod Tests
use Prim.Native.String.{len}
use go_handbook_for_software.Base.{
  ℕ, zero, suc, ◌+◌, Bool, true, false, not, ◌||◌, List, [], ◌∷◌, ◌++◌, ite, str_dec, Option, none,
  some, String, Result, ok, err, ◌>>=◌, if◌then◌else◌, ltb, leb, ◌==◌, reverse,
}
use go_handbook_for_software.Base.Int64
use go_handbook_for_software.Base.Dict

-- `Status`; `unset` is the zero value ""
pub data Status : Type 0 where
  unset charged canceled : Status

pub record Payment : Type 0 where
  pub id : String
  pub customer_id : String
  pub amount_minor : ℕ
  pub currency : String
  pub status : Status
  pub created_at : ℕ

abbrev pub zero_payment : Payment
zero_payment = record {
  id = "";
  customer_id = "";
  amount_minor = 0;
  currency = "";
  status = unset;
  created_at = 0;
}

-- what `Validate` can find
pub data Violation : Type 0 where
  customer_required amount_not_positive bad_currency : Violation

pub data Error : Type 0 where
  not_found insufficient_funds forbidden not_cancelable : Error
  invalid : List Violation → Error
  -- any error of a store that is none of these
  other : String → Error

pub record ChargeInput : Type 0 where
  pub customer_id : String
  pub amount_minor : ℕ
  pub currency : String

-- `Customer`
pub record Customer : Type 0 where
  pub id : String

-- `PaymentStore`
pub record PaymentStore (S : Type 0) : Type 0 where
  pub charge : Payment → S → S × Result Error Payment
  pub by_id : String → S → S × Result Error Payment
  pub cancel : String → S → S × Option Error
  pub by_customer : String → ℕ → S → S × Result Error (List Payment)

-- `ChargeInput.Validate`: the joined errors, nil if there are none
unfoldable pub validate : (String → String) → (String → String) → ChargeInput → List Violation
validate trim_space to_upper input =
    ite (str_dec (trim_space input.customer_id) "") (customer_required ∷ []) []
    ++ (if Int64.le input.amount_minor 0 then amount_not_positive ∷ [] else [])
    ++ (if not (len input.currency == 3)
        then bad_currency ∷ []
        else ite (str_dec (to_upper input.currency) input.currency) [] (bad_currency ∷ []))

-- the payment that `Service.Charge` hands to the store
abbrev pub requested : ℕ → ChargeInput → Payment
requested now input = record {
  id = "";
  customer_id = input.customer_id;
  amount_minor = input.amount_minor;
  currency = input.currency;
  status = charged;
  created_at = now;
}

is_charged : Status → Bool
is_charged unset = false
is_charged charged = true
is_charged canceled = false

module _ {S : Type 0} (store : PaymentStore S) where
  -- `Service.Charge`
  unfoldable pub charge_service :
      (String → String) → (String → String) → ℕ → ChargeInput → S → S × Result Error Payment
  charge_service trim_space to_upper now input s = elim (validate trim_space to_upper input) [
    | v ∷ vs ↦ (s, err (invalid (v ∷ vs)))
    | [] ↦ store.charge (requested now input) s
  ]

  -- `Service.Cancel` after the payment is read
  unfoldable pub cancel_read : Customer → String → Payment → S → S × Option Error
  unfolding is_charged
  cancel_read actor payment_id p s =
      ite (str_dec p.customer_id actor.id)
        (if not (is_charged p.status) then (s, some not_cancelable) else store.cancel payment_id s)
        (s, some forbidden)

  -- `Service.Cancel`
  unfoldable pub cancel_service : Customer → String → S → S × Option Error
  unfolding cancel_read
  cancel_service actor payment_id s =
      let (s', found) = store.by_id payment_id s in
      elim found [ err e ↦ (s', some e) | ok p ↦ cancel_read actor payment_id p s' ]

  -- `Service.ByCustomer`
  unfoldable pub by_customer_service : String → ℕ → S → S × Result Error (List Payment)
  by_customer_service customer_id limit s =
      let bound = if Int64.le limit 0 || Int64.lt 100 limit then 100 else limit in
      store.by_customer customer_id bound s

pub record MemoryStore : Type 0 where
  pub seq : ℕ
  pub payments : List (String × Payment)
  pub order : List String

abbrev pub new_memory_store : MemoryStore
new_memory_store = record { seq = 0; payments = []; order = [] }

-- `MemoryStore.Charge`
unfoldable pub charge : (ℕ → String) → Payment → MemoryStore → MemoryStore × Result Error Payment
charge pay_id p m =
    let seq = m.seq + 1 in
    let p' = record p { id = pay_id seq } in
    (
      record {
        seq = seq;
        payments = Dict.insert str_dec p'.id p' m.payments;
        order = m.order ++ p'.id ∷ [];
      },
      ok p',
    )

-- `MemoryStore.ByID`
unfoldable pub by_id : String → MemoryStore → MemoryStore × Result Error Payment
by_id id m = elim (Dict.lookup str_dec id m.payments) [
  | none ↦ (m, err not_found)
  | some p ↦ (m, ok p)
]

-- `MemoryStore.Cancel`
unfoldable pub cancel : String → MemoryStore → MemoryStore × Option Error
cancel id m = elim (Dict.lookup str_dec id m.payments) [
  | none ↦ (m, some not_found)
  | some p ↦ (
    record m { payments = Dict.insert str_dec id (record p { status = canceled }) m.payments },
    none,
  )
]

or_zero : Option Payment → Payment
or_zero none = zero_payment
or_zero (some p) = p

-- the loop of `MemoryStore.ByCustomer` over the ids from the newest on; `left` is `limit - len(out)`
unfoldable pub collect : String → List (String × Payment) → List String → ℕ → List Payment
unfolding or_zero
collect customer_id payments [] left = []
collect customer_id payments (id ∷ ids) zero = []
collect customer_id payments (id ∷ ids) (suc left) =
    let p = or_zero (Dict.lookup str_dec id payments) in
    let found = collect customer_id payments ids left in
    let rest = collect customer_id payments ids (suc left) in
    ite (str_dec p.customer_id customer_id) (p ∷ found) rest

-- `MemoryStore.ByCustomer`
unfoldable pub by_customer : String → ℕ → MemoryStore → MemoryStore × Result Error (List Payment)
by_customer customer_id limit m = (m, ok (collect customer_id m.payments (reverse m.order) limit))

-- `MemoryStore` as the service's store
abbrev pub memory_store : (ℕ → String) → PaymentStore MemoryStore
memory_store pay_id = record {
  charge = charge pay_id;
  by_id = by_id;
  cancel = cancel;
  by_customer = by_customer;
}
