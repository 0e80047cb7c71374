-- ===== src/Messaging/Tests.antt =====
-- The theorems about the broker at concrete inputs.
use go_handbook_for_software.Base.{ℕ, ◌≤◌, ◌≡◌, refl, false, [], ◌∷◌, arith, none, some, All}
use go_handbook_for_software.Base.Dict
use go_handbook_for_software.Messaging.{
  plain, Message, Pending, Broker, new_broker, take_visible, Turn, failed, consume,
}
use go_handbook_for_software.Messaging.Policy.{IsBounded, consume-IsBounded}

abbrev order : Message
order = record {
  id = "m1";
  queue = "orders";
  idempotency_key = "k1";
  attempts = 1;
  dead_letter_reason = none;
  first_failed_at = 0;
}

abbrev pending : ℕ → Pending
pending t = record { msg = order; visible_at = t }

abbrev one_queued : Broker
one_queued = record new_broker { ready = ("orders", pending 0 ∷ []) ∷ [] }

abbrev one_parked : Broker
one_parked = record new_broker { inflight = ("m1", pending 50) ∷ [] }

abbrev failing : ℕ → Turn
failing t = record {
  done = false;
  now = t;
  outcome = λ m. failed (plain "down");
  failed_at = t;
  parked_at = t;
}

new_broker-IsBounded : IsBounded 3 new_broker
unfolding Dict.lookup
new_broker-IsBounded = record { cap = refl; ready = tt; inflight = tt }

one_queued-IsBounded : IsBounded 3 one_queued
one_queued-IsBounded = record { cap = refl; ready = ((omega arith, tt), tt); inflight = tt }

second_visible : take_visible 20 (pending 30 ∷ pending 10 ∷ []) ≡ some (order, pending 30 ∷ [])
unfolding take_visible
second_visible = refl

consume-IsBounded_example :
    IsBounded 3 (consume (failing 10 ∷ failing 90_000_000 ∷ []) "orders" one_queued).0
    × All
        (λ (m : Message). m.attempts ≤ 3)
        (consume (failing 10 ∷ failing 90_000_000 ∷ []) "orders" one_queued).2
consume-IsBounded_example =
    consume-IsBounded 3 (failing 10 ∷ failing 90_000_000 ∷ []) "orders" one_queued
      one_queued-IsBounded
