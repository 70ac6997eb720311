-- ===== src/Local/Enforce/Refused.antt =====
-- A rule that a stage refuses, and an operation that has no channel
-- (src/controller/local_control_application.cpp).
use cheferd.Prelude.{
  ◌≡◌, refl, false, Option, none, some, List, [], ◌∷◌, if◌then◌else◌, ok, Gives, length,
}
use cheferd.Prelude.Int.{ℤ}
use cheferd.Text.{Bytes, same}
use cheferd.Dict.{Dict, lookup}
use cheferd.Wire.{Rates, EnforcementOpRules}
use cheferd.Session.DataPlane.{StageResponse}
use cheferd.Local.State.{Local, Session, Channels}
use cheferd.Local.Enforce.{
  passed, channel_rule, enforce_channels, enforce_envs, enforce_operations, create_enforcement_rule,
  env_key, limit_per_channel,
}
use cheferd.Local.Enforce.Stage.{passed_on, local_passthru-PassedOn}
use cheferd.Status.{RpcStatus, cancelled, ack_ok, ack_error}

module _ {D : Type 0} where
  enforce_envs-unknown :
      (s : Local D) (operation : Bytes) (rules : EnforcementOpRules) (rates : Rates)
      → lookup operation s.operation_to_channel_object ≡ none
      → enforce_envs operation rules rates cancelled ack_error s
        ≡ ok (false, cancelled, ack_error, s)
  unfolding enforce_envs
  enforce_envs-unknown s operation rules [] e = refl
  enforce_envs-unknown s operation rules (env_rate ∷ rates) e =
      rw e (enforce_envs-unknown s operation rules rates e)

  -- An operation for which there is no channel and that names an environment: the handler of a
  -- message with it alone returns CANCELLED and the message 0, and changes nothing.
  pub create_enforcement_rule_unknown :
      (s : Local D) (operation : Bytes) (rules : EnforcementOpRules) (rates : Rates)
      → lookup operation s.operation_to_channel_object ≡ none
      → (env_rate : ℤ × ℤ) → rules.env_rates ≡ env_rate ∷ rates
      → create_enforcement_rule s ((operation, rules) ∷ []) ≡ ok (cancelled, ack_error, s)
  unfolding create_enforcement_rule enforce_operations enforce_envs
  create_enforcement_rule_unknown s operation rules rates e env_rate r =
      rw r (rw e (rw (enforce_envs-unknown s operation rules rates e) refl))

  -- If the first stage of a message refuses the rule of the operation's first channel, the handler
  -- returns at once, with the status OK and the message 1: that stage has been given that rule,
  -- and nothing else of the message has been sent.
  pub create_enforcement_rule_refused :
      (s : Local D) (operation j : Bytes) (rules : EnforcementOpRules) (env rate : ℤ)
      (rates : Rates) (rest : Dict EnforcementOpRules) (channel : ℤ × ℤ) (channels : Channels)
      (session : Session D) (response : Option (StageResponse D))
      (responses : List (Option (StageResponse D)))
      → rules.env_rates ≡ (env, rate) ∷ rates
      → lookup operation s.operation_to_channel_object ≡ some (channel ∷ channels)
      → lookup (env_key rules.m_stage_name env) s.data_sessions ≡ some session
      → session.completion_queue ≡ response ∷ responses
      → passed response ≡ ok cancelled
      → Gives
          (λ r.
            (r.0 ≡ RpcStatus.ok)
            × ((r.1 ≡ ack_ok)
                × (lookup j r.2.data_sessions ≡ (
                    if same (env_key rules.m_stage_name env) j
                    then some (
                        passed_on session (
                          channel_rule rules.m_rule_id channel
                            (limit_per_channel rate (length (channel ∷ channels)))
                          ∷ []))
                    else lookup j s.data_sessions))))
          (create_enforcement_rule s ((operation, rules) ∷ rest))
  unfolding create_enforcement_rule enforce_operations enforce_envs enforce_channels
  create_enforcement_rule_refused s operation j rules env rate rates rest channel channels session
        response responses r o e q g =
      let rule : Bytes =
        channel_rule rules.m_rule_id channel
          (limit_per_channel rate (length (channel ∷ channels))) in
      let (next, passthru, (_, given)) =
        local_passthru-PassedOn s (env_key rules.m_stage_name env) rule session response responses
          cancelled e q g in
      rw r (rw o (rw passthru (refl, (refl, given j))))
