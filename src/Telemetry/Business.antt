-- ===== src/Telemetry/Business.antt =====
-- service.go's `Charge` and `Cancel` with their metrics, over any sequence of calls on a MemoryStore.
use go_handbook_for_software.Base.{
  ℕ, ◌+◌, ◌≡◌, refl, ap, Bool, true, List, [], ◌∷◌, ◌++◌, String, inl, inr, arith, length,
  length-append, ite, str_dec, some, Option, Option-cases,
}
use go_handbook_for_software.Base.Dict
use go_handbook_for_software.Pools.{tally}
use go_handbook_for_software.Pools.Tally.{tally-append}
use go_handbook_for_software.Payments.{
  Payment, Customer, ChargeInput, Violation, MemoryStore, memory_store, validate, charge, by_id,
  cancel, cancel_read,
}
use go_handbook_for_software.Telemetry.{
  BusinessSample, charged, failed, mirrored, emit_answer, charge_metered, cancel_metered,
  emit_charged, emit_failed,
}

-- a call of the service
pub data Call : Type 0 where
  charge_call : ℕ → ChargeInput → Call
  cancel_call : Customer → String → Call

abbrev pub is_charge : Call → ℕ
is_charge (charge_call now input) = 1
is_charge (cancel_call actor id) = 0

abbrev pub of_charged : BusinessSample → ℕ
of_charged (charged c) = 1
of_charged (failed r) = 0
of_charged (mirrored c n) = 0

abbrev pub of_mirrored : BusinessSample → ℕ
of_mirrored (charged c) = 0
of_mirrored (failed r) = 0
of_mirrored (mirrored c n) = 1

-- a charge that was refused; Cancel's own reason does not count
abbrev pub of_invalid : BusinessSample → ℕ
of_invalid (charged c) = 0
of_invalid (failed r) = ite (str_dec r "validation") 1 0
of_invalid (mirrored c n) = 0

-- What the samples say of the calls between two states of the store.
pub record SampleCounts (charges : ℕ) (s s' : MemoryStore) (samples : List BusinessSample)
    : Type 0 where
  pub stored : length s'.order ≡ length s.order + tally of_charged samples
  pub copied : tally of_mirrored samples ≡ tally of_charged samples
  pub accounted : charges ≡ tally of_charged samples + tally of_invalid samples

module _ (pay_id : ℕ → String) (trim_space to_upper : String → String)
    (attached : Option Bool) where
  -- one call with its metrics: the store after it, and its samples
  unfoldable pub call : Call → MemoryStore → MemoryStore × List BusinessSample
  call (charge_call now input) s =
      let (a, samples) =
        charge_metered (memory_store pay_id) attached trim_space to_upper now input s in
      (a.0, samples)
  call (cancel_call actor id) s =
      let (a, samples) = cancel_metered (memory_store pay_id) attached actor id s in (a.0, samples)

  unfoldable pub calls : List Call → MemoryStore → MemoryStore × List BusinessSample
  unfolding call
  calls [] s = (s, [])
  calls (c ∷ cs) s =
      let (s1, first) = call c s in let (s2, rest) = calls cs s1 in (s2, first ++ rest)

module _ (pay_id : ℕ → String) (trim_space to_upper : String → String) where
  abbrev attached : Option Bool
  attached = some true

  charge_call-SampleCounts :
      (now : ℕ) (input : ChargeInput) (s : MemoryStore) (vs : List Violation)
      → validate trim_space to_upper input ≡ vs
      → let (s', samples) = call pay_id trim_space to_upper attached (charge_call now input) s in
        SampleCounts 1 s s' samples
  unfolding call charge_metered emit_answer emit_charged emit_failed charge tally str_dec
  charge_call-SampleCounts now input s (v ∷ vs) e =
      rw (e, call, charge_metered)
        (record { stored = omega arith; copied = refl; accounted = refl })
  charge_call-SampleCounts now input s [] e =
      rw (e, call, charge_metered)
        (record { stored = length-append s.order _; copied = refl; accounted = refl })

  cancel_read-order :
      (actor : Customer) (id : String) (p : Payment) (s : MemoryStore)
      → (cancel_read (memory_store pay_id) actor id p s).0.order ≡ s.order
  unfolding cancel_read cancel
  cancel_read-order actor id p s = ground (arith, Option-cases (Dict.lookup str_dec id s.payments))

  by_id-same : (id : String) (s : MemoryStore) → ((memory_store pay_id).by_id id s).0 ≡ s
  unfolding by_id
  by_id-same id s = elim (Option-cases (Dict.lookup str_dec id s.payments)) [
    | inl e ↦ rw (e, by_id) refl
    | inr (p, e) ↦ rw (e, by_id) refl
  ]

  cancel_call-SampleCounts :
      (actor : Customer) (id : String) (s : MemoryStore)
      → let (s', samples) = call pay_id trim_space to_upper attached (cancel_call actor id) s in
        SampleCounts 0 s s' samples
  unfolding call cancel_metered emit_failed by_id tally str_dec
  cancel_call-SampleCounts actor id s = elim (Option-cases (Dict.lookup str_dec id s.payments)) [
    | inl e ↦
        rw (e, call, cancel_metered, by_id)
          (record {
            stored = omega (arith, ap (λ (m : MemoryStore). length m.order) (by_id-same id s));
            copied = refl;
            accounted = refl;
          })
    | inr (p, e) ↦
        rw (e, call, cancel_metered, by_id)
          (record {
            stored = omega (
              arith,
              ap length (cancel_read-order actor id p ((memory_store pay_id).by_id id s).0),
              ap (λ (m : MemoryStore). length m.order) (by_id-same id s),
            );
            copied = refl;
            accounted = refl;
          })
  ]

  call-SampleCounts :
      (c : Call) (s : MemoryStore)
      → let (s', samples) = call pay_id trim_space to_upper attached c s in
        SampleCounts (is_charge c) s s' samples
  call-SampleCounts (charge_call now input) s =
      charge_call-SampleCounts now input s (validate trim_space to_upper input) refl
  call-SampleCounts (cancel_call actor id) s = cancel_call-SampleCounts actor id s

  -- Over any charges and cancelations of a MemoryStore with the metrics attached: the samples of
  -- `charged` are as many as the payments added to the store, those of the OpenTelemetry counter are
  -- as many again, and the samples of `charged` and those of `failed` for "validation"
  -- are together as many as the charges.
  pub calls_counted :
      (cs : List Call) (s : MemoryStore)
      → let (s', samples) = calls pay_id trim_space to_upper attached cs s in
        SampleCounts (tally is_charge cs) s s' samples
  unfolding calls tally
  calls_counted [] s = record { stored = omega arith; copied = refl; accounted = refl }
  calls_counted (c ∷ cs) s =
      let (s1, first) = call pay_id trim_space to_upper attached c s in
      let (s2, rest) = calls pay_id trim_space to_upper attached cs s1 in
      let h = call-SampleCounts c s in
      let t = calls_counted cs s1 in
      let charges = tally-append of_charged first rest in
      record {
        stored = omega (arith, h.stored, t.stored, charges);
        copied = omega (arith, h.copied, t.copied, tally-append of_mirrored first rest, charges);
        accounted =
            omega (arith, h.accounted, t.accounted, charges, tally-append of_invalid first rest);
      }
