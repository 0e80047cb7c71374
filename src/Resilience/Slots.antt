-- ===== src/Resilience/Slots.antt =====
-- The bulkhead, as steps of calls that enter and leave.
use go_handbook_for_software.Base.{ℕ, suc, ◌+◌, ◌≤◌, ◌<◌, ◌≡◌, ◌≢◌, refl, Bool, false, arith}
use go_handbook_for_software.Resilience.{
  Bulkhead, admitted, bulkhead_full, new_bulkhead, enter, leave,
}

-- What happens at a bulkhead: a call enters `Do`, or an admitted one leaves it.
pub data Step : Bulkhead → ℕ → Bulkhead → ℕ → Type 0 where
  entered :
      (b : Bulkhead) (running : ℕ) (ctx_done choose_slot : Bool)
      → (enter ctx_done choose_slot b).1 ≡ admitted
      → Step b running (enter ctx_done choose_slot b).0 (suc running)
  refused :
      (b : Bulkhead) (running : ℕ) (ctx_done choose_slot : Bool)
      → (enter ctx_done choose_slot b).1 ≢ admitted
      → Step b running (enter ctx_done choose_slot b).0 running
  left : (b : Bulkhead) (running : ℕ) → Step b (suc running) (leave b) running

pub data Reach (slots : ℕ) : Bulkhead → ℕ → Type 0 where
  start : Reach slots (new_bulkhead slots) 0
  next : {b b' : Bulkhead} {n n' : ℕ} → Reach slots b n → Step b n b' n' → Reach slots b' n'

-- The channel holds one value for each running call.
pub record Holds (slots : ℕ) (b : Bulkhead) (running : ℕ) : Type 0 where
  pub capacity : b.slots ≡ slots
  pub counted : b.taken ≡ running
  pub bounded : running ≤ slots

Step-Holds :
    {slots n n' : ℕ} {b b' : Bulkhead} → Step b n b' n' → Holds slots b n → Holds slots b' n'
unfolding enter leave
Step-Holds (entered b n d c e) h = ground arith
Step-Holds (refused b n d c e) h = ground arith
Step-Holds (left b n) h = ground arith

-- In every interleaving of calls, the bulkhead holds one slot for each running call, and at most
-- `maxInFlight` calls run at once.
pub Reach-Holds : {slots n : ℕ} {b : Bulkhead} → Reach slots b n → Holds slots b n
Reach-Holds start = record { capacity = refl; counted = refl; bounded = omega arith }
Reach-Holds (next r s) = Step-Holds s (Reach-Holds r)

-- A call is refused as full exactly if every slot is taken and its context is live; with a live
-- context and a free slot it is admitted.
pub enter_decides :
    (b : Bulkhead) (choose_slot : Bool)
    → (b.slots ≤ b.taken → enter false choose_slot b ≡ (b, bulkhead_full))
      × (b.taken < b.slots
          → enter false choose_slot b ≡ (record b { taken = b.taken + 1 }, admitted))
      × ((ctx_done : Bool)
          → (enter ctx_done choose_slot b).1 ≡ bulkhead_full
          → (ctx_done ≡ false) × (b.slots ≤ b.taken))
unfolding enter
enter_decides b choose_slot = (λ h. ground arith, λ h. ground arith, λ d e. ground arith)
