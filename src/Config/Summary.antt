-- ===== src/Config/Summary.antt =====
-- config.go's `Summary` and `Secret.String`.
use go_handbook_for_software.Base.{ℕ, ◌≡◌, ◌≢◌, refl, String, str_dec, if_neg}
use go_handbook_for_software.Config.{redact, Config, summary}

redact_some : (s : String) → s ≢ "" → redact s ≡ "[REDACTED]"
unfolding redact
redact_some s n = if_neg (str_dec s "") n "" "[REDACTED]"

-- The summary of a configuration tells nothing of its database URL but whether there is one: two
-- configurations that differ only in a URL that both have are rendered alike.
pub summary_hides :
    (duration_text itoa : ℕ → String) (c : Config) (url url' : String)
    → url ≢ ""
    → url' ≢ ""
    → summary duration_text itoa (record c { database_url = url })
      ≡ summary duration_text itoa (record c { database_url = url' })
unfolding summary
summary_hides duration_text itoa c url url' n n' = rw (redact_some url n, redact_some url' n') refl
