-- ===== src/Payments/Store.antt =====
-- The MemoryStore's `Charge`, `ByID` and `Cancel`.
use go_handbook_for_software.Base.{
  ℕ, ◌+◌, ◌<◌, ◌≡◌, refl, ap, str_dec, Option, none, some, String, arith, ok, Option-cases, inl,
  inr,
}
use go_handbook_for_software.Base.Dict
use go_handbook_for_software.Payments.{Payment, MemoryStore, canceled, charge, by_id, cancel}

abbrev pub stored : String → MemoryStore → Option Payment
stored id m = Dict.lookup str_dec id m.payments

module _ (pay_id : ℕ → String) (pay_id-injective : (i j : ℕ) → pay_id i ≡ pay_id j → i ≡ j) where
  -- No id is taken before its number is.
  abbrev pub IsStore : MemoryStore → Type 0
  IsStore m = (n : ℕ) → m.seq < n → stored (pay_id n) m ≡ none

  charge-IsStore : (p : Payment) (m : MemoryStore) → IsStore m → IsStore (charge pay_id p m).0
  unfolding charge
  charge-IsStore p m h n l = ground (
    arith,
    Dict.lookup-insert str_dec (pay_id (m.seq + 1)) (pay_id n)
        (record p { id = pay_id (m.seq + 1) }) m.payments,
    h n,
    pay_id-injective (m.seq + 1) n,
  )

  cancel-IsStore : (id : String) (m : MemoryStore) → IsStore m → IsStore (cancel id m).0
  unfolding cancel
  cancel-IsStore id m h n l = elim (Option-cases (stored id m)) [
    | inl e ↦ let l' : m.seq < n = ground (arith, e) in rw (e, cancel) (h n l')
    | inr (p, e) ↦ ground (
      arith,
      e,
      Dict.lookup-insert str_dec id (pay_id n) (record p { status = canceled }) m.payments,
      h n,
      l,
      ap (λ (k : String). Dict.lookup str_dec k m.payments) {x = id} {y = pay_id n},
    )
  ]

  -- Where numbers give different ids: `Charge` stores the payment under a new id, so that `ByID` finds
  -- it with just its id changed, every payment that was stored is still there, and the ids of later
  -- numbers stay free. `Cancel` keeps them free too.
  pub charge_lem :
      (p : Payment) (m : MemoryStore)
      → IsStore m
      → let id = pay_id (m.seq + 1) in
        let m' = (charge pay_id p m).0 in
        ((charge pay_id p m).1 ≡ ok (record p { id = id }))
        × ((by_id id m').1 ≡ ok (record p { id = id }))
        × ((q : String) (r : Payment) → stored q m ≡ some r → stored q m' ≡ some r)
        × IsStore m'
        × ((q : String) → IsStore (cancel q m').0)
  unfolding charge by_id
  charge_lem p m h =
      let id = pay_id (m.seq + 1) in
      let p' = record p { id = id } in
      let s = charge-IsStore p m h in
      (
        refl,
        ground (arith, Dict.lookup-insert_self str_dec id p' m.payments),
        λ q r e. ground (
          arith,
          Dict.lookup-insert str_dec id q p' m.payments,
          e,
          h (m.seq + 1) (omega arith),
          ap (λ (k : String). Dict.lookup str_dec k m.payments) {x = id} {y = q},
        ),
        s,
        λ q. cancel-IsStore q (charge pay_id p m).0 s,
      )
