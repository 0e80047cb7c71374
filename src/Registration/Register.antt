-- ===== src/Registration/Register.antt =====
-- user.go's `NewUser` and service.go's `Register`.
use Prim.Native.String.{◌++◌ as ◌+++◌}
use go_handbook_for_software.Base.{
  ℕ, ◌≡◌, refl, subst, false, ◌↔◌, none, some, String, ok, err, Result-cases, Option-cases,
  Bool-cases, inl, inr, arith,
}
use go_handbook_for_software.Base.Guards.{ok-injective}
use go_handbook_for_software.Registration.{
  Error, wrapped, User, is_malformed, Deps, opened, new_user, saved, register,
}

-- what every user that `NewUser` lets through is
pub record IsUser (u : User) : Type 0 where
  pub well_formed : is_malformed u.email ≡ false
  pub named : u.id ≡ "u_" +++ u.email

opened-IsUser : (email : String) (now : ℕ) (u : User) → opened email now ≡ ok u → IsUser u
unfolding opened
opened-IsUser email now u e = elim (Bool-cases (is_malformed email)) [
  | inl b ↦ absurd (ground (arith, b, e))
  | inr b ↦
      let user : User = record { id = "u_" +++ email; email = email; opened_at = now } in
      let same : user ≡ u = ok-injective (rw b at e) in
      subst IsUser same (record { well_formed = b; named = refl })
]

module _ (trim_space to_lower : String → String) {S : Type 0} (deps : Deps S) (now : ℕ)
    (email : String) (s : S) where
  -- `Register` returns a user exactly if `NewUser` accepts the email and the store saves the user,
  -- whatever the notifier answers; the user has a well-formed email and the id made of it, and the
  -- world is then the one after the save and one notification. A refused email leaves the world, and a
  -- failed save notifies nobody.
  pub register_iff :
      (u : User)
      → let out = register trim_space to_lower deps now email s in
        ((out.1 ≡ ok u)
          ↔ ((new_user trim_space to_lower email now ≡ ok u) × ((deps.save u s).1 ≡ none)))
        × (out.1 ≡ ok u → IsUser u × (out.0 ≡ (deps.welcome u (deps.save u s).0).0))
        × ((e : Error) → new_user trim_space to_lower email now ≡ err e → out ≡ (s, err e))
        × ((e : String)
            → new_user trim_space to_lower email now ≡ ok u
            → (deps.save u s).1 ≡ some e
            → out ≡ ((deps.save u s).0, err (wrapped "register" u.id e)))
  unfolding register saved
  register_iff u = elim (Result-cases (new_user trim_space to_lower email now)) [
    | inr (e, p) ↦ (
      (λ h. ground (arith, p, h), λ h. ground (arith, p, h)),
      λ h. absurd (ground (arith, p, h)),
      λ e' q. ground (arith, p, q),
      λ e' q f. ground (arith, p, q),
    )
    | inl (v, p) ↦ elim (Option-cases (deps.save v s).1) [
      | inl n ↦ (
        (λ h. ground (arith, p, n, h), λ h. ground (arith, p, n, h)),
        λ h. ground (arith, p, n, h),
        λ e' q. ground (arith, p, q),
        λ e' q f. ground (arith, p, q, n, f),
      )
      | inr (e, n) ↦ (
        (λ h. ground (arith, p, n, h), λ h. ground (arith, p, n, h)),
        λ h. absurd (ground (arith, p, n, h)),
        λ e' q. ground (arith, p, q),
        λ e' q f. ground (arith, p, q, n, f),
      )
    ]
  ]
