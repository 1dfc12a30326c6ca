-- ===== src/Config/Validation.antt =====
-- validateSettings of internal/config/settings.go. An error is its text.
pub mod Laws
use go_symphony.Prelude.{
  Bool, true, false, not, ◌&&◌, ◌||◌, Option, none, some, List, [], ◌∷◌, ◌++◌, leb, ◌==◌,
  if◌then◌else◌, is_some, ◌||◌,
}
use go_symphony.Prelude.Int.{ℤ, pos, ltb_ℤ}
use go_symphony.Prelude.Text.{Text, codes, text_eq, is_empty, is_blank}
use go_symphony.Prelude.Map.{Map}
use go_symphony.Json.{Value, as_text, as_map}
use go_symphony.Config.Settings.{Settings, ProviderSettings, AgentSettings, CodexSettings}

-- `if err := ...; err != nil { return err }`
abbrev or_else : Option Text → Option Text → Option Text
or_else (some e) rest = some e
or_else none rest = rest

abbrev fail_if : Bool → Text → Option Text
fail_if true message = some message
fail_if false message = none

unfoldable pub require_positive : Text → ℤ → Option Text
require_positive field value = fail_if (not (ltb_ℤ (pos 0) value)) (field ++ codes " must be > 0")

unfoldable pub require_optional : Text → Option ℤ → Option Text
unfolding require_positive
require_optional field none = none
require_optional field (some value) = require_positive field value

unfoldable pub validate_provider : ProviderSettings → Option Text
validate_provider p =
    or_else (fail_if (is_empty p.kind) (codes "provider.kind must not be blank")) (
      or_else
        (fail_if (not (text_eq p.kind (codes "linear")) && not (text_eq p.kind (codes "memory")))
          (codes "provider.kind must be one of [linear memory]"))
        (if text_eq p.kind (codes "linear")
          then or_else
              (fail_if (is_blank p.api_key)
                (codes "provider.api_key is required for linear provider"))
              (fail_if (is_blank p.project)
                (codes "provider.project is required for linear provider"))
          else none))

unfoldable pub validate_agent : AgentSettings → Option Text
unfolding require_positive
validate_agent a =
    or_else (require_positive (codes "agent.max_concurrent_agents") a.max_concurrent_agents) (
      or_else (require_positive (codes "agent.max_turns") a.max_turns)
        (require_positive (codes "agent.max_retry_backoff_ms") a.max_retry_backoff_ms))

unfoldable pub validate_codex : CodexSettings → Option Text
unfolding require_positive
validate_codex c = or_else (require_positive (codes "codex.turn_timeout_ms") c.turn_timeout_ms) (
    or_else (require_positive (codes "codex.read_timeout_ms") c.read_timeout_ms)
      (fail_if (ltb_ℤ c.stall_timeout_ms (pos 0)) (codes "codex.stall_timeout_ms must be >= 0")))

-- The limits in the order in which the loop over the map takes them.
unfoldable pub validate_limits : Map ℤ → Option Text
validate_limits [] = none
validate_limits ((state, limit) ∷ limits) =
    or_else
      (fail_if (is_blank state)
        (codes "agent.max_concurrent_agents_by_state keys must not be blank"))
      (or_else
        (fail_if (not (ltb_ℤ (pos 0) limit))
          (codes "agent.max_concurrent_agents_by_state values must be positive"))
        (validate_limits limits))

-- Texts and maps pass.
unfoldable pub validate_policy : Value → Option Text
unfolding as_text as_map
validate_policy policy =
    if is_some (as_text policy) || is_some (as_map policy)
    then none
    else some (codes "codex.approval_policy must be a string or map")

unfoldable pub validate_port : Option ℤ → Option Text
validate_port none = none
validate_port (some port) = fail_if (ltb_ℤ port (pos 0)) (codes "server.port must be >= 0")

-- The first error of the checks, in their order.
unfoldable pub first_error : List (Option Text) → Option Text
first_error [] = none
first_error (check ∷ checks) = or_else check (first_error checks)

-- The checks of validateSettings, in its order.
unfoldable pub settings_checks : Settings → List (Option Text)
unfolding validate_provider require_positive require_optional validate_agent validate_codex
    validate_port validate_limits validate_policy
settings_checks s =
    validate_provider s.provider
    ∷ fail_if (is_empty s.codex.command) (codes "codex.command must not be blank")
    ∷ require_positive (codes "polling.interval_ms") s.polling_interval_ms
    ∷ validate_agent s.agent
    ∷ require_optional (codes "worker.max_concurrent_agents_per_host")
        s.worker.max_concurrent_agents_per_host
    ∷ validate_codex s.codex
    ∷ require_positive (codes "hooks.timeout_ms") s.hooks.timeout_ms
    ∷ require_positive (codes "observability.refresh_ms") s.observability.refresh_ms
    ∷ require_positive (codes "observability.render_interval_ms") s.observability.render_interval_ms
    ∷ validate_port s.server.port
    ∷ validate_limits s.agent.max_concurrent_agents_by_state
    ∷ validate_policy s.codex.approval_policy
    ∷ []

unfoldable pub validate_settings : Settings → Option Text
unfolding first_error settings_checks
validate_settings s = first_error (settings_checks s)
