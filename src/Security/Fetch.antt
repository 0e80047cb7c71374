-- ===== src/Security/Fetch.antt =====
-- `NewFetcher` and `Fetcher.Fetch`.
use go_handbook_for_software.Base.{
  ◌≡◌, sym, ◌∙◌, Bool, true, false, List, [], ◌∷◌, ite, str_dec, Option, some, String, if_pos,
  if_neg, ◌↔◌, ◌⊎◌, inl, inr, All, Result, ok, err, arith,
}
use go_handbook_for_software.Base.Dict
use go_handbook_for_software.Security.{
  Url, Ip, FetchError, client_error, Network, is_inner, new_fetcher, allows,
}

module _ {Q R : Type 0} (net : Network Q R) where
  -- one of the hosts, in lower case
  abbrev pub Listed : List String → String → Type 0
  Listed [] host = ⊥
  Listed (h ∷ hs) host = (net.to_lower h ≡ host) ⊎ Listed hs host

  allows-insert :
      (h host : String) (set : List (String × Bool))
      → allows net (Dict.insert str_dec h true set) host
        ≡ ite (str_dec h host) true (allows net set host)
  unfolding allows
  allows-insert h host set = ground (arith, Dict.lookup-insert str_dec h host true set)

  -- The map that `NewFetcher` makes allows exactly the lower-case forms of its hosts.
  pub new_fetcher_decides :
      (hosts : List String) (host : String)
      → (allows net (new_fetcher net hosts) host ≡ true) ↔ Listed hosts host
  unfolding new_fetcher allows Dict.lookup
  new_fetcher_decides [] host = (λ e. cc, λ l. absurd l)
  new_fetcher_decides (h ∷ hs) host =
      let step = allows-insert (net.to_lower h) host (new_fetcher net hs) in
      let rest = allows net (new_fetcher net hs) host in
      elim (str_dec (net.to_lower h) host) [
        | yes e ↦ (λ _. inl e, λ _. step ∙ if_pos (str_dec (net.to_lower h) host) e true rest)
        | no n ↦ (
          λ e. inr (
              (new_fetcher_decides hs host).0
                (sym (if_neg (str_dec (net.to_lower h) host) n true rest) ∙ (sym step ∙ e))),
          λ l. elim l [
            | inl e ↦ absurd (n e)
            | inr l' ↦
                step
                ∙ (if_neg (str_dec (net.to_lower h) host) n true rest
                    ∙ (new_fetcher_decides hs host).1 l')
          ],
        )
      ]

  -- A fetch that the policy lets through: https, an allowed host, addresses that are all outside the
  -- private, loopback, link-local and unspecified ones, and the request that the client then answers.
  pub record Passes (set : List (String × Bool)) (raw_url : String) (r : R) : Type 0 where
    pub url : Url
    pub ip : Ip
    pub ips : List Ip
    pub request : Q
    pub parsed : net.parse_url raw_url ≡ some url
    pub https : url.scheme ≡ "https"
    pub allowed : allows net set (net.to_lower url.hostname) ≡ true
    pub resolved : net.lookup_ip (net.to_lower url.hostname) ≡ some (ip ∷ ips)
    pub outer : All (λ a. is_inner a ≡ false) (ip ∷ ips)
    pub requested : net.new_request url.text ≡ some request
    pub sent : net.do_request request ≡ ok r

  module _ (r : R) where
    -- what `Fetch` makes of the client's answer
    abbrev answer : Q → Result FetchError R
    answer q = elim (net.do_request q) [ err e ↦ err (client_error e) | ok r' ↦ ok r' ]
