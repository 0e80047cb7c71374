-- ===== src/Security.antt =====
-- 21-security/examples/secure/secure.go: the token verifier, the two-layer limiter and the
-- allowlisted fetcher. base64, JSON, ed25519, `url.Parse`, DNS, the HTTP client and
-- `strings.ToLower` are arguments, and so is the token bucket of golang.org/x/time/rate, as a record
-- of its two operations. Clock readings are arguments, in nanoseconds from 1970 on; `Allow`
-- reads the clock three times. A call of the limiter runs without another call between its steps.
pub mod Split
pub mod Token
pub mod Limits
pub mod Sweeps
pub mod Fetch
mod Tests
use Prim.Native.String.{slice, len, find}
use Prim.Native.String.{◌++◌ as ◌+++◌}
use text.Mathlib.Text.{starts_with}
use go_handbook_for_software.Base.{
  ℕ, zero, suc, ◌+◌, ◌-◌, Bool, true, false, not, ◌&&◌, ◌||◌, List, [], ◌∷◌, ite, str_dec, Option,
  none, some, String, Result, ok, err, if◌then◌else◌, ltb, leb,
}
use go_handbook_for_software.Base.Int64
use go_handbook_for_software.Base.Dict

-- `ErrUnauthorized`
pub data Unauthorized : Type 0 where
  unauthorized : Unauthorized

pub record Claims : Type 0 where
  pub subject : String
  pub issuer : String
  pub audience : String
  pub expires_at : ℕ

-- the packages that `Verify` calls
pub record Codec : Type 0 where
  -- `base64.RawURLEncoding.DecodeString`, `none` for an error
  pub decode : String → Option String
  -- `json.Unmarshal` into `Claims`
  pub unmarshal : String → Option Claims
  -- `ed25519.Verify` of a key, a message and a signature
  pub verify_sig : String → String → String → Bool

-- `Ed25519Verifier`; the clock is read when `Verify` runs
pub record Verifier : Type 0 where
  pub key : String
  pub issuer : String
  pub audience : String

-- `strings.CutPrefix`
unfoldable pub cut_prefix : String → String → Option String
cut_prefix s p = if starts_with s p then some (slice s (len p) (len s)) else none

-- `strings.Split` at a text of one byte, with fuel for each byte of `s` and one more
unfoldable pub split_from : ℕ → String → String → List String
split_from zero s sep = s ∷ []
split_from (suc fuel) s sep =
    let rest = split_from fuel (slice s (find s sep + len sep) (len s)) sep in
    if leb (find s sep) (len s) then slice s 0 (find s sep) ∷ rest else s ∷ []

-- `strings.Split`
unfoldable pub split : String → String → List String
split s sep = split_from (suc (len s)) s sep

abbrev pub bearer : String
bearer = "Bearer "

-- `signed`: header and payload as they came
abbrev pub signed : String → String → String
signed header payload = header +++ ("." +++ payload)

module _ (codec : Codec) (v : Verifier) (now : ℕ) where
  -- `Verify` from the decoding of the signature on
  unfoldable pub check_sig : String → String → String → Claims → Result Unauthorized String
  check_sig header payload sig claims = elim (codec.decode sig) [
    | none ↦ err unauthorized
    | some bytes ↦
        if not (codec.verify_sig v.key (signed header payload) bytes)
        then err unauthorized
        else ite (str_dec claims.subject "") (err unauthorized) (ok claims.subject)
  ]

  -- the tests of the claims
  unfoldable pub check_claims : String → String → String → Claims → Result Unauthorized String
  check_claims header payload sig claims =
      if not (ltb now claims.expires_at)
      then err unauthorized
      else ite (str_dec claims.issuer v.issuer)
          (ite (str_dec claims.audience v.audience) (check_sig header payload sig claims)
            (err unauthorized))
          (err unauthorized)

  -- `Verify` from the decoding of the payload on
  unfoldable pub check_payload : String → String → String → Result Unauthorized String
  check_payload header payload sig = elim (codec.decode payload) [
    | none ↦ err unauthorized
    | some bytes ↦ elim (codec.unmarshal bytes) [
      | none ↦ err unauthorized
      | some claims ↦ check_claims header payload sig claims
    ]
  ]

  -- `len(parts) != 3`
  unfoldable pub check_parts : List String → Result Unauthorized String
  check_parts (header ∷ payload ∷ sig ∷ []) = check_payload header payload sig
  check_parts _ = err unauthorized

  -- `Ed25519Verifier.Verify`
  unfoldable pub verify : String → Result Unauthorized String
  verify auth_header = elim (cut_prefix auth_header bearer) [
    | none ↦ err unauthorized
    | some tok ↦ check_parts (split tok ".")
  ]

-- `rate.Limiter`: a new one, and `AllowN(now, 1)` with the limiter after it
pub record Bucket (B : Type 0) : Type 0 where
  pub new : B
  pub allow : ℕ → B → B × Bool

-- `keyedLimiter`
pub record Keyed (B : Type 0) : Type 0 where
  pub l : B
  pub last : ℕ

-- `Limiter`; `limit` and `burst` are in the bucket that `new` makes, `ttl` is an `int64` pattern
pub record Limiter (B : Type 0) : Type 0 where
  pub global : B
  pub keys : List (String × Keyed B)
  pub ttl : ℕ

module _ {B : Type 0} (bucket : Bucket B) where
  -- `newKeyedLimiter`
  abbrev pub new_keyed : Keyed B
  new_keyed = record { l = bucket.new; last = 0 }

  -- the value that `LoadOrStore` gives
  abbrev pub load : Option (Keyed B) → Keyed B
  load none = new_keyed
  load (some k) = k

  -- `Allow` after the global bucket has let the call pass
  unfoldable pub allow_keyed : ℕ → ℕ → String → Limiter B → Limiter B × Bool
  allow_keyed seen later id l =
      let k = load (Dict.lookup str_dec id l.keys) in
      let (own, passed) = bucket.allow later k.l in
      (record l { keys = Dict.insert str_dec id (record { l = own; last = seen }) l.keys }, passed)

  -- `Limiter.Allow`
  unfoldable pub allow : ℕ → ℕ → ℕ → String → Limiter B → Limiter B × Bool
  allow now seen later id l =
      let (global, passed) = bucket.allow now l.global in
      let l' = record l { global = global } in
      let own = allow_keyed seen later id l' in if not passed then (l', false) else own

-- one call of the function that `Sweep` gives `Range`
unfoldable pub sweep_key :
    {B : Type 0} → ℕ → String → List (String × Keyed B) → List (String × Keyed B)
sweep_key cutoff id keys = elim (Dict.lookup str_dec id keys) [
  | none ↦ keys
  | some k ↦ if ltb k.last cutoff then Dict.delete str_dec id keys else keys
]

-- `Range` over the keys
abbrev pub sweep_keys :
    {B : Type 0} → ℕ → List String → List (String × Keyed B) → List (String × Keyed B)
sweep_keys cutoff [] keys = keys
sweep_keys cutoff (id ∷ ids) keys = sweep_keys cutoff ids (sweep_key cutoff id keys)

abbrev pub ids_of : {B : Type 0} → List (String × Keyed B) → List String
ids_of [] = []
ids_of ((id, k) ∷ keys) = id ∷ ids_of keys

-- `Limiter.Sweep`. Times are from 0 on, so the cutoff of a `ttl` beyond `now` is 0: no time is below.
unfoldable pub sweep : {B : Type 0} → ℕ → Limiter B → Limiter B
sweep now l =
    if Int64.le l.ttl 0
    then l
    else record l { keys = sweep_keys (now - l.ttl) (ids_of l.keys) l.keys }

pub record Url : Type 0 where
  pub scheme : String
  pub hostname : String
  -- `u.String()`
  pub text : String

-- what the tests of an address answer
pub record Ip : Type 0 where
  pub is_loopback : Bool
  pub is_private : Bool
  pub is_link_local_unicast : Bool
  pub is_unspecified : Bool

-- how `Fetch` fails: the reasons that wrap `ErrBlockedURL`, and the client's own error
pub data FetchError : Type 0 where
  scheme_not_https host_not_allowed resolve_failed private_address bad_request : FetchError
  client_error : String → FetchError

-- the packages that `Fetch` calls, and the client's `Do`
pub record Network (Q R : Type 0) : Type 0 where
  pub to_lower : String → String
  pub parse_url : String → Option Url
  pub lookup_ip : String → Option (List Ip)
  pub new_request : String → Option Q
  pub do_request : Q → Result String R

abbrev pub is_inner : Ip → Bool
is_inner ip = ip.is_loopback || ip.is_private || ip.is_link_local_unicast || ip.is_unspecified

module _ {Q R : Type 0} (net : Network Q R) where
  -- the map of `NewFetcher`
  unfoldable pub new_fetcher : List String → List (String × Bool)
  new_fetcher [] = []
  new_fetcher (h ∷ hs) = Dict.insert str_dec (net.to_lower h) true (new_fetcher hs)

  -- `f.Allow[host]`
  unfoldable pub allows : List (String × Bool) → String → Bool
  allows set host = elim (Dict.lookup str_dec host set) [ none ↦ false | some b ↦ b ]

  -- the loop over the addresses, and the request after it
  unfoldable pub fetch_ips : Url → List Ip → Result FetchError R
  fetch_ips u [] = elim (net.new_request u.text) [
    | none ↦ err bad_request
    | some q ↦ elim (net.do_request q) [ err e ↦ err (client_error e) | ok r ↦ ok r ]
  ]
  fetch_ips u (ip ∷ ips) =
      let rest = fetch_ips u ips in if is_inner ip then err private_address else rest

  -- `err != nil || len(ips) == 0`
  unfoldable pub fetch_resolved : Url → Option (List Ip) → Result FetchError R
  fetch_resolved u none = err resolve_failed
  fetch_resolved u (some []) = err resolve_failed
  fetch_resolved u (some (ip ∷ ips)) = fetch_ips u (ip ∷ ips)

  -- `Fetch` of a parsed URL
  unfoldable pub fetch_url : List (String × Bool) → Url → Result FetchError R
  fetch_url set u =
      let host = net.to_lower u.hostname in
      let resolved = fetch_resolved u (net.lookup_ip host) in
      ite (str_dec u.scheme "https")
        (if not (allows set host) then err host_not_allowed else resolved) (err scheme_not_https)

  -- `Fetcher.Fetch`
  unfoldable pub fetch : List (String × Bool) → String → Result FetchError R
  fetch set raw_url = elim (net.parse_url raw_url) [
    | none ↦ err scheme_not_https
    | some u ↦ fetch_url set u
  ]
