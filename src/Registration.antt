-- ===== src/Registration.antt =====
-- 04-functions-methods-interfaces/examples/di/{service,user}.go: the user service over its injected
-- store, notifier and clock. A call of an interface takes the world `S` to a new world and a result;
-- TrimSpace and ToLower of the strings package are parameters. The line logged for a failed
-- notification is left out.
pub mod Register
use Prim.Native.String.{◌++◌ as ◌+++◌, len, find, slice}
use text.Mathlib.Text.{starts_with}
use go_handbook_for_software.Base.{
  ℕ, ◌-◌, Bool, true, false, not, ◌&&◌, ◌||◌, Option, none, some, String, Result, ok, err, ite,
  str_dec, if◌then◌else◌, leb,
}

-- an error: a validation failure with the email, or an error of the store under the text that wraps it
pub data Error : Type 0 where
  validation : String → Error
  wrapped : String → String → String → Error

-- `User`
pub record User : Type 0 where
  pub id : String
  pub email : String
  pub opened_at : ℕ

-- `strings.Contains`
unfoldable pub contains : String → String → Bool
contains s t = leb (find s t) (len s)

-- `strings.HasSuffix`
unfoldable pub has_suffix : String → String → Bool
has_suffix s t = leb (len t) (len s) && ite (str_dec (slice s (len s - len t) (len s)) t) true false

-- the test of `NewUser` on a normalised email
unfoldable pub is_malformed : String → Bool
unfolding contains has_suffix
is_malformed email = not (contains email "@") || starts_with email "@" || has_suffix email "@"

-- `Storer` and `Notifier`
pub record Deps (S : Type 0) : Type 0 where
  pub save : User → S → S × Option String
  pub get : String → S → S × Result String User
  pub welcome : User → S → S × Option String

-- the end of `NewUser`
unfoldable pub opened : String → ℕ → Result Error User
unfolding is_malformed
opened email now =
    if is_malformed email
    then err (validation email)
    else ok (record { id = "u_" +++ email; email = email; opened_at = now })

module _ (trim_space to_lower : String → String) where
  -- `NewUser`
  unfoldable pub new_user : String → ℕ → Result Error User
  unfolding opened
  new_user email now = opened (to_lower (trim_space email)) now

  module _ {S : Type 0} (deps : Deps S) (now : ℕ) where
    -- `Register` after `Save`: a failed notification changes nothing of the result
    unfoldable pub saved : User → S × Option String → S × Result Error User
    saved u (s, some e) = (s, err (wrapped "register" u.id e))
    saved u (s, none) = ((deps.welcome u s).0, ok u)

    -- `Service.Register`
    unfoldable pub register : String → S → S × Result Error User
    unfolding new_user saved
    register email s = elim (new_user email now) [
      | err e ↦ (s, err e)
      | ok u ↦ saved u (deps.save u s)
    ]

-- `Service.Get`
unfoldable pub get_user : {S : Type 0} → Deps S → String → S → S × Result Error User
get_user deps id s =
    let (s', found) = deps.get id s in
    elim found [ err e ↦ (s', err (wrapped "get" id e)) | ok u ↦ (s', ok u) ]
