-- ===== src/Config/Validation/Laws.antt =====
-- What accepted settings promise to the scheduler and to the other parts.
use go_symphony.Prelude.{
  ◌≡◌, refl, ◌⊎◌, inl, inr, true, false, Option, none, some, List, [], ◌∷◌, arith, All, Bool-cases,
}
use go_symphony.Prelude.Int.{ℤ, pos, ltb_ℤ}
use go_symphony.Prelude.Text.{Text, codes, text_eq, text_eq_iff, is_blank}
use go_symphony.Prelude.Map.{Map}
use go_symphony.Config.Settings.{Settings, AgentSettings, CodexSettings, ProviderSettings}
use go_symphony.Config.Validation.{
  require_positive, validate_provider, validate_agent, validate_codex, validate_limits,
  validate_settings, settings_checks, first_error,
}

first_error-none :
    (checks : List (Option Text)) → first_error checks ≡ none → All (λ e. e ≡ none) checks
unfolding first_error
first_error-none [] h = tt
first_error-none (none ∷ checks) h = (refl, first_error-none checks h)
first_error-none (some e ∷ checks) h = cc

-- Every limit of a state is positive and its key is not blank.
abbrev pub AreLimits : Map ℤ → Type 0
AreLimits limits = All (λ e. (is_blank e.0 ≡ false) × (ltb_ℤ (pos 0) e.1 ≡ true)) limits

validate_limits-AreLimits : (limits : Map ℤ) → validate_limits limits ≡ none → AreLimits limits
unfolding validate_limits
validate_limits-AreLimits [] h = tt
validate_limits-AreLimits ((state, limit) ∷ limits) h =
    ground (arith, validate_limits-AreLimits limits)

-- The settings that the scheduler runs on.
pub record IsUsable (s : Settings) : Type 0 where
  pub interval : ltb_ℤ (pos 0) s.polling_interval_ms ≡ true
  pub slots : ltb_ℤ (pos 0) s.agent.max_concurrent_agents ≡ true
  pub turns : ltb_ℤ (pos 0) s.agent.max_turns ≡ true
  pub backoff : ltb_ℤ (pos 0) s.agent.max_retry_backoff_ms ≡ true
  pub stall : ltb_ℤ s.codex.stall_timeout_ms (pos 0) ≡ false
  pub hook : ltb_ℤ (pos 0) s.hooks.timeout_ms ≡ true
  pub limits : AreLimits s.agent.max_concurrent_agents_by_state
  pub kind : (s.provider.kind ≡ codes "linear") ⊎ (s.provider.kind ≡ codes "memory")

positive :
    (field : Text) (value : ℤ) → require_positive field value ≡ none → ltb_ℤ (pos 0) value ≡ true
unfolding require_positive
positive field value h = ground arith

stall_lem : (c : CodexSettings) → validate_codex c ≡ none → ltb_ℤ c.stall_timeout_ms (pos 0) ≡ false
unfolding validate_codex require_positive
stall_lem c h = ground arith

agent_lem :
    (a : AgentSettings)
    → validate_agent a ≡ none
    → (ltb_ℤ (pos 0) a.max_concurrent_agents ≡ true)
      × (ltb_ℤ (pos 0) a.max_turns ≡ true)
      × (ltb_ℤ (pos 0) a.max_retry_backoff_ms ≡ true)
unfolding validate_agent require_positive
agent_lem a h = ground arith

kind_lem :
    (p : ProviderSettings)
    → validate_provider p ≡ none
    → (p.kind ≡ codes "linear") ⊎ (p.kind ≡ codes "memory")
unfolding validate_provider
kind_lem p h = elim (Bool-cases (text_eq p.kind (codes "linear"))) [
  | inl e ↦ inl ((text_eq_iff p.kind (codes "linear")).0 e)
  | inr e ↦ elim (Bool-cases (text_eq p.kind (codes "memory"))) [
    | inl f ↦ inr ((text_eq_iff p.kind (codes "memory")).0 f)
    | inr f ↦ ground arith
  ]
]

-- Settings that validateSettings accepts are usable: the polling interval, the number of runs at a time
-- and of turns, the cap of the backoff and the timeout of hooks are positive, the stall timeout is not
-- negative, every limit of a state is positive under a key that is not blank, and the provider is the
-- Linear one or the memory one.
pub validate_settings-IsUsable : (s : Settings) → validate_settings s ≡ none → IsUsable s
unfolding validate_settings settings_checks
validate_settings-IsUsable s h =
    let all = first_error-none (settings_checks s) h in
    let (slots, turns, backoff) = agent_lem s.agent all.1.1.1.0 in
    record {
      interval = positive (codes "polling.interval_ms") s.polling_interval_ms all.1.1.0;
      slots = slots;
      turns = turns;
      backoff = backoff;
      stall = stall_lem s.codex all.1.1.1.1.1.0;
      hook = positive (codes "hooks.timeout_ms") s.hooks.timeout_ms all.1.1.1.1.1.1.0;
      limits =
          validate_limits-AreLimits s.agent.max_concurrent_agents_by_state
            all.1.1.1.1.1.1.1.1.1.1.0;
      kind = kind_lem s.provider all.0;
    }
