-- ===== src/Lease/Tests.antt =====
-- The theorems about the coordinator and the guard at concrete inputs.
use go_handbook_for_software.Base.{ℕ, ◌+◌, ◌<◌, ◌≡◌, refl, List, [], ◌∷◌, str_dec, err, arith, none}
use go_handbook_for_software.Base.Dict
use go_handbook_for_software.Lease.{
  Token, Coordinator, new_coordinator, evict, grant, acquire, renew, drop_lease, Fenced, new_fenced,
  fenced_out, newest, or_zero, write,
}
use go_handbook_for_software.Lease.Grant.{
  Op, acquire_at, renew_at, push, run, Kept, acquire_decides, run-Kept,
}
use go_handbook_for_software.Lease.Fencing.{Attempt, writes, IsGuard, zombie-fenced_out}

abbrev held : Coordinator
held = record { next = 1; ttl_ms = 100; active = ("a", 150) ∷ []; tokens = ("a", 1) ∷ [] }

abbrev handover : List Op
handover = acquire_at 0 "a" ∷ acquire_at 50 "b" ∷ renew_at 60 60 "a" ∷ acquire_at 200 "b" ∷ []

abbrev old_token : Token
old_token = record { number = 1; holder = "a" }

abbrev new_token : Token
new_token = record { number = 2; holder = "b" }

abbrev guarded : Fenced
guarded = record { watermarks = ("disk", 2) ∷ [] }

abbrev bump : ℕ → ℕ
bump n = n + 1

abbrev elsewhere : List (Attempt ℕ)
elsewhere = record { resource = "tape"; token = old_token; effect = bump } ∷ []

guarded-newest : newest guarded "disk" ≡ 2
unfolding newest or_zero Dict.lookup str_dec
guarded-newest = refl

new_fenced-IsGuard : IsGuard new_fenced
unfolding newest or_zero Dict.lookup
new_fenced-IsGuard q = omega arith

fresh_newest : newest new_fenced "disk" < 2
unfolding newest or_zero Dict.lookup
fresh_newest = omega arith

handover_tokens : (run handover (new_coordinator 100)).1 ≡ old_token ∷ new_token ∷ []
unfolding run push acquire renew drop_lease evict grant Dict.lookup Dict.insert Dict.delete str_dec
handover_tokens = refl

acquire_decides_example : acquire 50 "b" held ≡ (held, none)
acquire_decides_example = (acquire_decides 50 "b" held (omega arith)).0 "a" 150 refl refl

run-Kept_example : Kept (new_coordinator 100) (run handover (new_coordinator 100))
run-Kept_example = run-Kept handover (new_coordinator 100) (omega arith) (omega arith)

zombie-fenced_out_example :
    let later = writes elsewhere (write "disk" new_token bump (new_fenced, 7)).0 in
    write "disk" old_token bump later ≡ (later, err fenced_out)
zombie-fenced_out_example =
    zombie-fenced_out handover (new_coordinator 100) [] [] [] old_token new_token "disk" bump bump
      elsewhere new_fenced 7 (omega arith) (omega arith) handover_tokens (omega arith)
      (omega arith, tt) new_fenced-IsGuard fresh_newest
