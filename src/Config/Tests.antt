-- ===== src/Config/Tests.antt =====
-- The theorems about the loader at concrete inputs.
use go_handbook_for_software.Base.{
  ℕ, ◌≡◌, ◌≢◌, refl, Option, some, ite, inl, inr, String, str_dec, texts_differ, ok,
}
use go_handbook_for_software.Config.{Config, load, summary}
use go_handbook_for_software.Config.Load.{IsText, IsNumber, IsLoaded, load_iff}
use go_handbook_for_software.Config.Summary.{summary_hides}

-- an environment that sets a grace and the store, and parsers that know one number
abbrev graceful : String → String
graceful key = ite (str_dec key "SHUTDOWN_GRACE") "3s" (ite (str_dec key "STORE") "memory" "")

abbrev three_seconds : String → Option ℕ
three_seconds s = some 3_000_000_000

abbrev defaults : Config
defaults = record {
  addr = ":8080";
  store = "memory";
  database_url = "";
  shutdown_grace = 3_000_000_000;
  request_timeout = 10_000_000_000;
  pool_max_open = 25;
  log_level = "info";
}

memory_differs : ◌≢◌ {A = String} "memory" "postgres"
unfolding str_dec
memory_differs = texts_differ "memory" "postgres" refl

text_set : ◌≢◌ {A = String} "memory" ""
unfolding str_dec
text_set = texts_differ "memory" "" refl

grace_set : ◌≢◌ {A = String} "3s" ""
unfolding str_dec
grace_set = texts_differ "3s" "" refl

defaults-IsLoaded : IsLoaded three_seconds three_seconds graceful defaults
unfolding IsText IsNumber str_dec
defaults-IsLoaded = record {
  addr = inl (refl, refl);
  store = inr (text_set, refl);
  log_level = inl (refl, refl);
  database_url = refl;
  grace = inr (grace_set, refl);
  timeout = inl (refl, refl);
  pool = inl (refl, refl);
  known_store = inl refl;
  needs_url = λ e. absurd (memory_differs e);
  known_level = inr (inl refl);
  positive = refl;
  at_most_minute = refl;
}

load_iff_example : load three_seconds three_seconds graceful ≡ ok defaults
load_iff_example = (load_iff three_seconds three_seconds graceful defaults).1 defaults-IsLoaded

abbrev written : ℕ → String
written n = "n"

first_url : ◌≢◌ {A = String} "postgres://a:secret@db" ""
unfolding str_dec
first_url = texts_differ "postgres://a:secret@db" "" refl

second_url : ◌≢◌ {A = String} "postgres://b:other@db" ""
unfolding str_dec
second_url = texts_differ "postgres://b:other@db" "" refl

summary_hides_example :
    summary written written (record defaults { database_url = "postgres://a:secret@db" })
    ≡ summary written written (record defaults { database_url = "postgres://b:other@db" })
summary_hides_example =
    summary_hides written written defaults "postgres://a:secret@db" "postgres://b:other@db"
      first_url second_url
