-- ===== src/Lease/Grant.antt =====
-- The Coordinator: `Acquire`, `Renew`, and sequences of them.
use go_handbook_for_software.Base.{
  ℕ, ◌+◌, ◌^◌, ◌≤◌, ◌<◌, ◌≡◌, refl, ◌∙◌, ap, subst, true, false, List, [], ◌∷◌, String, str_dec,
  All, arith, length, if_pos, Option, none, some, ◌⊎◌, Bool-cases, Option-cases, inl, inr,
}
use go_handbook_for_software.Base.Int64
use go_handbook_for_software.Base.Dict
use go_handbook_for_software.Lease.{
  Token, Coordinator, delete, insert, lookup, evict, grant, acquire, renew,
}

-- At most one holder is active.
abbrev pub IsSingle : Coordinator → Type 0
IsSingle c = length c.active ≤ 1

evict_live :
    (now : ℕ) (h : String) (e : ℕ) (l : List (String × ℕ)) (c : Coordinator)
    → l ≡ (h, e) ∷ []
    → Int64.le e now ≡ false
    → evict now l c ≡ c
unfolding evict
evict_live now h e l c a p = rw a (ground arith)

evict-expired :
    (now : ℕ) (h : String) (e : ℕ) (c : Coordinator)
    → c.active ≡ (h, e) ∷ []
    → Int64.le e now ≡ true
    → (evict now ((h, e) ∷ []) c).active ≡ []
unfolding evict Dict.delete
evict-expired now h e c a l = rw l (rw a (rw (if_pos (str_dec h h) refl)))

evict-next : (now : ℕ) (l : List (String × ℕ)) (c : Coordinator) → (evict now l c).next ≡ c.next
unfolding evict
evict-next now [] c = refl
evict-next now ((h, e) ∷ l) c = ground (
  arith,
  evict-next now l c,
  evict-next now l (record c { active = delete h c.active; tokens = delete h c.tokens }),
)

evict-ttl : (now : ℕ) (l : List (String × ℕ)) (c : Coordinator) → (evict now l c).ttl_ms ≡ c.ttl_ms
unfolding evict
evict-ttl now [] c = refl
evict-ttl now ((h, e) ∷ l) c = ground (
  arith,
  evict-ttl now l c,
  evict-ttl now l (record c { active = delete h c.active; tokens = delete h c.tokens }),
)

-- every active holder's lease is over at `now`
abbrev pub AllExpired : ℕ → Coordinator → Type 0
AllExpired now c = All (λ (p : String × ℕ). Int64.le p.1 now ≡ true) c.active

evict-All :
    (now : ℕ) (l : List (String × ℕ)) (c : Coordinator)
    → c.active ≡ l
    → length l ≤ 1
    → All (λ (p : String × ℕ). Int64.le p.1 now ≡ true) l
    → (evict now l c).active ≡ []
unfolding evict
evict-All now [] c a s h = a
evict-All now ((k, e) ∷ []) c a s h = evict-expired now k e c a h.0
evict-All now (_ ∷ _ ∷ _) c a s h = absurd (omega arith)

-- What a successful `Acquire` leaves behind.
pub record Granted (now : ℕ) (holder : String) (c c' : Coordinator) : Type 0 where
  pub number : c'.next ≡ Int64.add c.next 1
  pub sole : c'.active ≡ (holder, Int64.add now c.ttl_ms) ∷ []
  pub token : lookup holder c'.tokens ≡ some (Int64.add c.next 1)

grant-Granted :
    (now : ℕ) (holder : String) (c : Coordinator)
    → c.active ≡ []
    → (Granted now holder c (grant now holder c).0)
      × ((grant now holder c).1 ≡ some (record { number = Int64.add c.next 1; holder = holder }))
unfolding grant Dict.insert
grant-Granted now holder c a = (
  record {
    number = ground (arith, a);
    sole = ground (arith, a);
    token = ground (
      arith,
      a,
      Dict.lookup-insert str_dec holder holder (Int64.add c.next 1) c.tokens,
      if_pos (str_dec holder holder) refl (some (Int64.add c.next 1)) (lookup holder c.tokens),
    );
  },
  ground (arith, a),
)

grant-refused :
    (now : ℕ) (holder h : String) (e : ℕ) (c : Coordinator)
    → c.active ≡ (h, e) ∷ []
    → grant now holder c ≡ (c, none)
unfolding grant
grant-refused now holder h e c a = ground (arith, a)

-- With at most one active holder, `Acquire` is decided by that holder's lease. While the lease runs
-- (its expiry is after `now`) every holder is refused, the active one too, and nothing changes. Once
-- it is over, or if there is none, the caller becomes the only active holder until `now + ttl` and
-- gets the next token number.
pub acquire_decides :
    (now : ℕ) (holder : String) (c : Coordinator)
    → IsSingle c
    → ((h : String) (e : ℕ)
        → c.active ≡ (h, e) ∷ []
        → Int64.le e now ≡ false
        → acquire now holder c ≡ (c, none))
      × (AllExpired now c
          → Granted now holder c (acquire now holder c).0
            × ((acquire now holder c).1
                ≡ some (record { number = Int64.add c.next 1; holder = holder })))
unfolding acquire
acquire_decides now holder c s = (
  λ h e a l.
      ap (grant now holder) (evict_live now h e c.active c a l) ∙ grant-refused now holder h e c a,
  λ x.
      let c' = evict now c.active c in
      let n = evict-next now c.active c in
      let (g, t) = grant-Granted now holder c' (evict-All now c.active c refl s x) in
      (
        record {
          number = g.number ∙ ap (λ k. Int64.add k 1) n;
          sole = g.sole ∙ ap (λ k. (holder, Int64.add now k) ∷ []) (evict-ttl now c.active c);
          token = g.token ∙ ap (λ k. some (Int64.add k 1)) n;
        },
        t ∙ ap (λ k. some (record { number = Int64.add k 1; holder = holder })) n,
      ),
)

-- Calls of the coordinator, with the clock readings of each.
pub data Op : Type 0 where
  acquire_at : ℕ → String → Op
  renew_at : ℕ → ℕ → String → Op

unfoldable pub push : Option Token → List Token → List Token
push none ts = ts
push (some t) ts = t ∷ ts

-- the coordinator after the calls, and the tokens that it issued, oldest first
unfoldable pub run : List Op → Coordinator → Coordinator × List Token
unfolding push
run [] c = (c, [])
run (acquire_at now holder ∷ ops) c =
    let (c', t) = acquire now holder c in let (d, ts) = run ops c' in (d, push t ts)
run (renew_at now later holder ∷ ops) c = run ops (renew now later holder c).0

length-delete : (h : String) (l : List (String × ℕ)) → length (delete h l) ≤ length l
unfolding Dict.delete
length-delete h [] = omega arith
length-delete h ((k, e) ∷ l) = ground (arith, length-delete h l)

length-insert_known :
    (h : String) (n : ℕ) (l : List (String × ℕ)) (e : ℕ)
    → lookup h l ≡ some e
    → length (insert h n l) ≡ length l
unfolding Dict.insert Dict.lookup
length-insert_known h n [] e p = cc
length-insert_known h n ((k, d) ∷ l) e p = ground (arith, length-insert_known h n l e)

-- `Renew` keeps the token counter and at most one active holder.
pub renew-IsSingle :
    (now later : ℕ) (holder : String) (c : Coordinator)
    → IsSingle c
    → IsSingle (renew now later holder c).0 × ((renew now later holder c).0.next ≡ c.next)
unfolding renew
renew-IsSingle now later holder c s = elim (Option-cases (lookup holder c.active)) [
  | inl p ↦ ground (arith, p, length-delete holder c.active)
  | inr (e, p) ↦ ground (
    arith,
    p,
    length-delete holder c.active,
    length-insert_known holder (Int64.add later c.ttl_ms) c.active e p,
  )
]

lease-cases :
    (now : ℕ) (l : List (String × ℕ))
    → length l ≤ 1
    → All (λ (p : String × ℕ). Int64.le p.1 now ≡ true) l
      ⊎ ((h : String) × (e : ℕ) × (l ≡ (h, e) ∷ []) × (Int64.le e now ≡ false))
lease-cases now [] s = inl tt
lease-cases now ((h, e) ∷ []) s = elim (Bool-cases (Int64.le e now)) [
  | inl p ↦ inl (p, tt)
  | inr p ↦ inr (h, e, refl, p)
]
lease-cases now (_ ∷ _ ∷ _) s = absurd (omega arith)

-- A call of `Acquire` changes nothing, or grants the next token to a sole holder.
acquire-cases :
    (now : ℕ) (holder : String) (c : Coordinator)
    → IsSingle c
    → (acquire now holder c ≡ (c, none))
      ⊎ (Granted now holder c (acquire now holder c).0
          × ((acquire now holder c).1
              ≡ some (record { number = Int64.add c.next 1; holder = holder })))
acquire-cases now holder c s =
    let (refused, granted) = acquire_decides now holder c s in
    elim (lease-cases now c.active s) [
      | inl x ↦ inr (granted x)
      | inr (h, e, a, l) ↦ inl (refused h e a l)
    ]

-- The numbers of the tokens ascend, from above `n`.
abbrev pub Ascends : ℕ → List Token → Type 0
Ascends n [] = Unit
Ascends n (t ∷ ts) = (n < t.number) × Ascends t.number ts

-- what a run keeps
pub record Kept (c : Coordinator) (r : Coordinator × List Token) : Type 0 where
  pub single : IsSingle r.0
  pub grown : c.next ≤ r.0.next
  pub ascending : Ascends c.next r.1

run-acquire :
    (now : ℕ) (holder : String) (ops : List Op) (c : Coordinator)
    → IsSingle c
    → c.next + 1 < 2 ^ 63
    → ((d : Coordinator) → IsSingle d → d.next ≤ c.next + 1 → Kept d (run ops d))
    → Kept c (run (acquire_at now holder ∷ ops) c)
unfolding run
run-acquire now holder ops c s b ih = elim (acquire-cases now holder c s) [
  | inl e ↦ rw e (ih c s (omega arith))
  | inr (g, t) ↦
      let d = (acquire now holder c).0 in
      let n : d.next ≡ c.next + 1 = omega (arith, g.number) in
      let k = ih d (rw g.sole (omega arith)) (omega (arith, n)) in
      rw t (record {
        single = k.single;
        grown = omega (arith, k.grown, n);
        ascending = (omega arith, subst (λ m. Ascends m (run ops d).1) g.number k.ascending);
      })
]

-- From a coordinator with at most one active holder, and a counter that does not reach 2 ^ 63 within
-- these calls, any sequence of `Acquire` and `Renew` leaves at most one active holder, never takes
-- the counter back, and issues tokens whose numbers strictly ascend.
pub run-Kept :
    (ops : List Op) (c : Coordinator)
    → IsSingle c
    → c.next + length ops < 2 ^ 63
    → Kept c (run ops c)
unfolding run
run-Kept [] c s b = record { single = s; grown = omega arith; ascending = tt }
run-Kept (acquire_at now holder ∷ ops) c s b =
    run-acquire now holder ops c s (omega arith) λ d sd n. run-Kept ops d sd (omega arith)
run-Kept (renew_at now later holder ∷ ops) c s b =
    let (sd, n) = renew-IsSingle now later holder c s in
    let k = run-Kept ops (renew now later holder c).0 sd (omega (arith, n)) in
    record {
      single = k.single;
      grown = omega (arith, k.grown, n);
      ascending = subst (λ m. Ascends m (run ops (renew now later holder c).0).1) n k.ascending;
    }
