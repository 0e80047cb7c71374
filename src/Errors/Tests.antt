-- ===== src/Errors/Tests.antt =====
-- The theorems about errors and responses at concrete inputs.
use go_handbook_for_software.Base.{◌≢◌, refl, String, str_dec, texts_differ}
use go_handbook_for_software.Errors.{code_conflict, DomainError, PaymentRequest}

abbrev conflict : DomainError
conflict = record { op = "withdraw"; reason = "closed"; code = code_conflict }

abbrev request : PaymentRequest
request = record { idempotency_key = "k1"; amount_minor = 500; currency = "USD" }

k1_named : ◌≢◌ {A = String} "k1" ""
unfolding str_dec
k1_named = texts_differ "k1" "" refl
