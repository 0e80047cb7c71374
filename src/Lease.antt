-- ===== src/Lease.antt =====
-- 16-distributed-systems/examples/lease/lease.go: the Coordinator that grants leases with fencing
-- tokens, and the storage guard Fenced. The mutexes serialise the calls. Readings of the injected
-- clock are arguments; numbers and times are `int64` patterns (Base.Int64).
pub mod Grant
pub mod Fencing
mod Tests
use go_handbook_for_software.Base.{
  ℕ, Bool, true, false, List, [], ◌∷◌, ite, String, str_dec, Option, none, some, Result, ok, err,
  if◌then◌else◌, ltb, length,
}
use go_handbook_for_software.Base.Int64
use go_handbook_for_software.Base.Dict

pub record Token : Type 0 where
  pub number : ℕ
  pub holder : String

pub record Coordinator : Type 0 where
  pub next : ℕ
  pub ttl_ms : ℕ
  pub active : List (String × ℕ)
  pub tokens : List (String × ℕ)

abbrev pub new_coordinator : ℕ → Coordinator
new_coordinator ttl = record { next = 0; ttl_ms = ttl; active = []; tokens = [] }

abbrev pub delete : String → List (String × ℕ) → List (String × ℕ)
delete = Dict.delete str_dec

abbrev pub insert : String → ℕ → List (String × ℕ) → List (String × ℕ)
insert = Dict.insert str_dec

abbrev pub lookup : String → List (String × ℕ) → Option ℕ
lookup = Dict.lookup str_dec

-- the loop of `Acquire` over the holders that were active when it began
unfoldable pub evict : ℕ → List (String × ℕ) → Coordinator → Coordinator
evict now [] c = c
evict now ((h, expiry) ∷ rest) c = evict now rest (
    if Int64.le expiry now
    then record c { active = delete h c.active; tokens = delete h c.tokens }
    else c)

-- `Acquire` after its loop
unfoldable pub grant : ℕ → String → Coordinator → Coordinator × Option Token
grant now holder c =
    if ltb 0 (length c.active)
    then (c, none)
    else (let number = Int64.add c.next 1 in
        (
          record c {
            next = number;
            active = insert holder (Int64.add now c.ttl_ms) c.active;
            tokens = insert holder number c.tokens;
          },
          some (record { number = number; holder = holder }),
        ))

-- `Coordinator.Acquire`; `none` is the false result
unfoldable pub acquire : ℕ → String → Coordinator → Coordinator × Option Token
acquire now holder c = grant now holder (evict now c.active c)

drop_lease : String → Coordinator → Coordinator × Bool
drop_lease holder c =
    (record c { active = delete holder c.active; tokens = delete holder c.tokens }, false)

-- `Coordinator.Renew`, which reads the clock twice
unfoldable pub renew : ℕ → ℕ → String → Coordinator → Coordinator × Bool
unfolding drop_lease
renew now later holder c = elim (lookup holder c.active) [
  | none ↦ drop_lease holder c
  | some expiry ↦
      if Int64.le expiry now
      then drop_lease holder c
      else (record c { active = insert holder (Int64.add later c.ttl_ms) c.active }, true)
]

-- `Fenced`: the newest accepted token of each resource
pub record Fenced : Type 0 where
  pub watermarks : List (String × ℕ)

abbrev pub new_fenced : Fenced
new_fenced = record { watermarks = [] }

or_zero : Option ℕ → ℕ
or_zero none = 0
or_zero (some n) = n

-- `Fenced.Newest`: a missing key reads as 0
unfoldable pub newest : Fenced → String → ℕ
unfolding or_zero
newest f resource = or_zero (lookup resource f.watermarks)

-- `ErrFencedOut`
pub data FencedOut : Type 0 where
  fenced_out : FencedOut

-- `Fenced.Write`; `apply` is the guarded effect on what the resource stores
unfoldable pub write {ℓ} :
    {S : Type ℓ}
    → String
    → Token
    → (S → S)
    → Fenced × S
    → (Fenced × S) × Result FencedOut (Unit {0})
write resource t apply (f, s) =
    if Int64.le t.number (newest f resource)
    then ((f, s), err fenced_out)
    else ((record f { watermarks = insert resource t.number f.watermarks }, apply s), ok tt)
