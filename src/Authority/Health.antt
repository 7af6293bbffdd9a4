-- ===== src/Authority/Health.antt =====
-- The commands that activate step-ca, and `run_status_with_retries` of the command line.
use grafhome_ca.Authority.Machine.{Answer, Service}
use grafhome_ca.Base.{
  ◌>>◌, Error, Option, Text, decimal, err, if◌then◌else◌, none, ok, some, suc, text, zero, ◌++◌,
  ◌+◌, ◌==◌, ℕ, refuse, validation,
}

-- `unwrap_or_else` behind the loop
last_words : Option Text → ℕ → ℕ → Text
last_words (some message) successes required = message
last_words none successes required =
    text "only "
    ++ (decimal successes
        ++ (text " consecutive successful check(s), expected " ++ decimal required))

module _ (show : Error → Text) (label : Text) (required : ℕ) (run : ℕ → Answer) where
  -- The loop from `attempt`, with `left` attempts to go.
  unfoldable pub retry_from : ℕ → ℕ → ℕ → ℕ → Option Text → Answer
  unfolding last_words
  retry_from attempts attempt zero successes last_error = err (
      validation (text "command") (
        label
        ++ (text " did not succeed after "
            ++ (decimal attempts
                ++ (text " attempts; last error: " ++ last_words last_error successes required)))))
  retry_from attempts attempt (suc left) successes last_error = elim (run attempt) [
    | ok _ ↦
        let next = retry_from attempts (attempt + 1) left (successes + 1) last_error in
        if successes + 1 == required then ok tt else next
    | err e ↦ retry_from attempts (attempt + 1) left 0 (some (show e))
  ]

  unfoldable pub run_status_with_retries : ℕ → Answer
  unfolding retry_from
  run_status_with_retries attempts = do
    refuse (attempts == 0)
        (validation (text "command") (label ++ text " was configured with zero attempts"))
    refuse (required == 0)
        (validation (text "command") (label ++ text " was configured with zero required successes"))
    retry_from attempts 1 attempts 0 none

abbrev pub ca_health_retry_attempts : ℕ
ca_health_retry_attempts = 30

abbrev pub ca_health_consecutive_successes : ℕ
ca_health_consecutive_successes = 2

unfoldable pub install_ca_json_permissions : Service → Answer
install_ca_json_permissions service = service.chown >> service.chmod

-- `restart`, then `is-active`.
unfoldable pub restart_service : Service → Answer
restart_service service = service.restart >> service.is_active

module _ (show : Error → Text) where
  -- The closure `activate`.
  unfoldable pub activate_service : Service → Answer
  unfolding install_ca_json_permissions restart_service run_status_with_retries
  activate_service service =
      install_ca_json_permissions service
      >> (restart_service service
          >> run_status_with_retries show (text "step ca health") ca_health_consecutive_successes
              service.health ca_health_retry_attempts)
