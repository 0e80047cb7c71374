-- ===== src/Security/Tests.antt =====
-- Concrete runs: codecs that read a text as itself, a bucket that counts down, a small network.
use go_handbook_for_software.Base.{
  ℕ, ◌-◌, ◌≡◌, ◌≢◌, refl, true, false, List, [], ◌∷◌, some, String, str_dec, ok, ltb, arith,
  texts_differ,
}
use go_handbook_for_software.Security.{
  Claims, Codec, Verifier, verify, split, split_from, Bucket, Limiter, Ip, Network,
}
use go_handbook_for_software.Security.Token.{Accepts, verify_iff}
use go_handbook_for_software.Security.Limits.{Call, view, run, run_spec, run_refines}

abbrev ann : Claims
ann = record { subject = "ann"; issuer = "me"; audience = "you"; expires_at = 20 }

abbrev plain : Codec
plain = record {
  decode = λ s. some s;
  unmarshal = λ s. some ann;
  verify_sig = λ key message sig. true;
}

abbrev verifier : Verifier
verifier = record { key = "k"; issuer = "me"; audience = "you" }

ann-named : ◌≢◌ {A = String} "ann" ""
unfolding str_dec
ann-named = texts_differ "ann" "" refl

ann-Accepts : Accepts plain verifier 10 "Bearer h.p.s" "ann"
unfolding split split_from
ann-Accepts = record {
  header = "h";
  payload = "p";
  sig = "s";
  claim_bytes = "p";
  sig_bytes = "s";
  claims = ann;
  text = refl;
  parts = refl;
  decoded = refl;
  unmarshaled = refl;
  alive = omega arith;
  issued = refl;
  intended = refl;
  sig_decoded = refl;
  sealed = refl;
  named = refl;
  nonempty = ann-named;
}

verify_iff_example : verify plain verifier 10 "Bearer h.p.s" ≡ ok "ann"
verify_iff_example = (verify_iff plain verifier 10 "ann" "Bearer h.p.s").1 ann-Accepts

abbrev counter : Bucket ℕ
counter = record { new = 2; allow = λ now b. (b - 1, ltb 0 b) }

abbrev limiter : Limiter ℕ
limiter = record { global = 3; keys = ("bob", record { l = 1; last = 5 }) ∷ []; ttl = 10 }

abbrev calls : List Call
calls =
    record { now = 1; seen = 2; later = 3; id = "ann" }
    ∷ record { now = 4; seen = 5; later = 6; id = "bob" }
    ∷ []

run_refines_example :
    (view counter (run counter calls limiter).0, (run counter calls limiter).1)
    ≡ run_spec counter calls (view counter limiter)
run_refines_example = run_refines counter calls limiter

abbrev outer_ip : Ip
outer_ip = record {
  is_loopback = false;
  is_private = false;
  is_link_local_unicast = false;
  is_unspecified = false;
}

abbrev net : Network String String
net = record {
  to_lower = λ s. s;
  parse_url = λ s. some (record { scheme = "https"; hostname = "a.example"; text = s });
  lookup_ip = λ s. some (outer_ip ∷ []);
  new_request = λ s. some s;
  do_request = λ q. ok "page";
}

abbrev hosts : List String
hosts = "a.example" ∷ []
