-- ===== src/Local/Enforce/Everywhere.antt =====
-- The limits of an operation reach every stage that the rule names
-- (src/controller/local_control_application.cpp).
use cheferd.Prelude.{
  ◌≡◌, refl, sym, ap, ◌∙◌, true, false, some, List, [], ◌∷◌, length, Result, Gives, Gives-mono,
  bind-Gives,
}
use cheferd.Prelude.Int.{ℤ}
use cheferd.Text.{Bytes, same_refl}
use cheferd.Dict.{lookup}
use cheferd.Dict.Laws.{Fresh, Distinct, same-sym}
use cheferd.Wire.{Rates, EnforcementOpRules}
use cheferd.Local.State.{Local, Session, Channels}
use cheferd.Local.Enforce.{
  Progress, env_key, limit_per_channel, enforce_envs, enforce_operations, create_enforcement_rule,
  unless_returned,
}
use cheferd.Local.Enforce.Stage.{
  Accepts, passed_on, channel_rules, PassedOn, Served, enforce_channels-Served,
}
use cheferd.Status.{RpcStatus, ack_ok, ack_error}

-- The keys of the stages of the environments.
abbrev pub stage_keys : Bytes → Rates → List Bytes
stage_keys stage_name [] = []
stage_keys stage_name ((env, rate) ∷ rates) = env_key stage_name env ∷ stage_keys stage_name rates

-- The rules of the channels of one stage, each with its part of the rate.
abbrev pub stage_rules : EnforcementOpRules → Channels → ℤ → List Bytes
stage_rules rules channels rate =
    channel_rules rules.m_rule_id (limit_per_channel rate (length channels)) channels

abbrev pub message_of : Rates → ℤ → ℤ
message_of [] message = message
message_of (env_rate ∷ rates) message = ack_ok

message_of_ok : (rates : Rates) → message_of rates ack_ok ≡ ack_ok
message_of_ok [] = refl
message_of_ok (env_rate ∷ rates) = refl

-- The handler goes on where it has not returned.
goes_on :
    {D : Type 0} (Q : Progress D → Type 0) (p : Progress D)
    (next : RpcStatus → ℤ → Local D → Result (Progress D))
    → p.0 ≡ false
    → Gives Q (next p.1 p.2 p.3)
    → Gives Q (unless_returned p next)
goes_on Q (true, result, message, s) next h g = absurd (cc)
goes_on Q (false, result, message, s) next h g = g

module _ {D : Type 0} (operation : Bytes) (rules : EnforcementOpRules) (channel : ℤ × ℤ)
    (channels : Channels) where
  -- Each of the stages has a session whose next responses grant a rule for each channel.
  abbrev pub AllReady : Local D → Rates → Type 0
  AllReady s [] = Unit
  AllReady s ((env, rate) ∷ rates) =
      ((session : Session D) × (lookup (env_key rules.m_stage_name env) s.data_sessions
          ≡ some session)
        × (Accepts (channel ∷ channels) session.completion_queue))
      × AllReady s rates

  -- From s to next each of the stages has been given the rules of the channels and has answered.
  abbrev pub AllGiven : Local D → Local D → Rates → Type 0
  AllGiven s next [] = Unit
  AllGiven s next ((env, rate) ∷ rates) =
      ((session : Session D) × (lookup (env_key rules.m_stage_name env) s.data_sessions
          ≡ some session)
        × (lookup (env_key rules.m_stage_name env) next.data_sessions
            ≡ some (passed_on session (stage_rules rules (channel ∷ channels) rate))))
      × AllGiven s next rates

  abbrev Untouched : Local D → Local D → Rates → Type 0
  Untouched s next rates =
      (j : Bytes)
      → Fresh j (stage_keys rules.m_stage_name rates)
      → lookup j next.data_sessions ≡ lookup j s.data_sessions

  Ready-PassedOn :
      (k : Bytes) (session : Session D) (texts : List Bytes) (s t : Local D) (rates : Rates)
      → PassedOn k session texts s t
      → Fresh k (stage_keys rules.m_stage_name rates)
      → AllReady s rates
      → AllReady t rates
  Ready-PassedOn k session texts s t [] h n r = tt
  Ready-PassedOn k session texts s t ((env, rate) ∷ rates) h (n, ns) ((found, e, a), rs) =
      let key : Bytes = env_key rules.m_stage_name env in
      (
        (found, h.1 key ∙ rw (same-sym k key) (rw n e), a),
        Ready-PassedOn k session texts s t rates h ns rs,
      )

  Given-PassedOn :
      (k : Bytes) (session : Session D) (texts : List Bytes) (s t u : Local D) (rates : Rates)
      → PassedOn k session texts s t
      → Fresh k (stage_keys rules.m_stage_name rates)
      → AllGiven t u rates
      → AllGiven s u rates
  Given-PassedOn k session texts s t u [] h n g = tt
  Given-PassedOn k session texts s t u ((env, rate) ∷ rates) h (n, ns) ((found, e, a), gs) =
      let key : Bytes = env_key rules.m_stage_name env in
      let same_session : lookup key t.data_sessions ≡ lookup key s.data_sessions =
        h.1 key ∙ rw (same-sym k key) (rw n refl) in
      ((found, sym same_session ∙ e, a), Given-PassedOn k session texts s t u rates h ns gs)

  -- What the loop over the environments does.
  abbrev Enforced : Local D → Rates → ℤ → Progress D → Type 0
  Enforced s rates message p =
      (p.0 ≡ false)
      × ((p.1 ≡ RpcStatus.ok)
          × ((p.2 ≡ message_of rates message) × (AllGiven s p.3 rates × Untouched s p.3 rates)))

  Enforced-cons :
      (env rate message : ℤ) (rates : Rates) (s t : Local D) (session : Session D) (p : Progress D)
      → Fresh (env_key rules.m_stage_name env) (stage_keys rules.m_stage_name rates)
      → lookup (env_key rules.m_stage_name env) s.data_sessions ≡ some session
      → PassedOn
          (env_key rules.m_stage_name env)
          session
          (stage_rules rules (channel ∷ channels) rate)
          s
          t
      → Enforced t rates ack_ok p
      → Enforced s ((env, rate) ∷ rates) message p
  Enforced-cons env rate message rates s t session p n e h
        (going, (result, (answer, (given, left)))) =
      let key : Bytes = env_key rules.m_stage_name env in
      (
        going,
        (
          result,
          (
            answer ∙ message_of_ok rates,
            (
              (
                (session, e, left key n ∙ (h.1 key ∙ rw (same_refl key) refl)),
                Given-PassedOn key session (stage_rules rules (channel ∷ channels) rate) s t p.3
                    rates h n given,
              ),
              λ j k. left j k.1 ∙ (h.1 j ∙ rw (k.0) refl),
            ),
          ),
        ),
      )

  enforce_envs-Enforced :
      (rates : Rates) (s : Local D) (message : ℤ)
      → lookup operation s.operation_to_channel_object ≡ some (channel ∷ channels)
      → Distinct (stage_keys rules.m_stage_name rates)
      → AllReady s rates
      → Gives (Enforced s rates message) (enforce_envs operation rules rates RpcStatus.ok message s)
  unfolding enforce_envs
  enforce_envs-Enforced [] s message o d r = (refl, (refl, (refl, (tt, λ j n. refl))))
  enforce_envs-Enforced ((env, rate) ∷ rates) s message o (n, d) ((session, e, a), r) =
      let key : Bytes = env_key rules.m_stage_name env in
      let texts : List Bytes = stage_rules rules (channel ∷ channels) rate in
      rw o (
        bind-Gives (Served key session texts s RpcStatus.ok ack_ok)
          (Enforced s ((env, rate) ∷ rates) message) _ _
          (enforce_channels-Served (channel ∷ channels) s key rules.m_rule_id _ session
            session.completion_queue RpcStatus.ok message e refl a)
          (λ p k. goes_on (Enforced s ((env, rate) ∷ rates) message) p _ k.0 (
            rw (k.1.0, k.1.1.0)
              (Gives-mono (Enforced p.3 rates ack_ok) (Enforced s ((env, rate) ∷ rates) message) _
                (enforce_envs-Enforced rates p.3 ack_ok (ap (lookup operation) k.1.1.1.0 ∙ o) d
                  (Ready-PassedOn key session texts s p.3 rates k.1.1.1 n r))
                (λ q h. Enforced-cons env rate message rates s p.3 session q n e k.1.1.1 h)))))

  -- With channels for the operation, stages with different keys, and for every stage a session
  -- whose next responses grant a rule for each channel, the handler of a message with that
  -- operation alone returns the status OK, and the message 1 if there is a stage at all. Each
  -- stage has then been given the rules of the channels, in their order, each with the rate of the
  -- stage divided among its channels; a session with another key is as it was.
  pub create_enforcement_rule-AllGiven :
      (s : Local D) (other : Bytes)
      → lookup operation s.operation_to_channel_object ≡ some (channel ∷ channels)
      → Distinct (stage_keys rules.m_stage_name rules.env_rates)
      → AllReady s rules.env_rates
      → Fresh other (stage_keys rules.m_stage_name rules.env_rates)
      → Gives
          (λ r.
            (r.0 ≡ RpcStatus.ok)
            × ((r.1 ≡ message_of rules.env_rates ack_error)
                × (AllGiven s r.2 rules.env_rates
                    × (lookup other r.2.data_sessions ≡ lookup other s.data_sessions))))
          (create_enforcement_rule s ((operation, rules) ∷ []))
  unfolding create_enforcement_rule enforce_operations
  create_enforcement_rule-AllGiven s other o d r n =
      bind-Gives (Enforced s rules.env_rates ack_error) _ _ _
        (bind-Gives (Enforced s rules.env_rates ack_error) (Enforced s rules.env_rates ack_error) _
          _ (enforce_envs-Enforced rules.env_rates s ack_error o d r)
          (λ p k. goes_on (Enforced s rules.env_rates ack_error) p _ k.0 (refl, k.1)))
        (λ p k. (k.1.0, (k.1.1.0, (k.1.1.1.0, k.1.1.1.1 other n))))
