-- ===== src/Local/Steps/Kept.antt =====
-- The calls of the global controller leave the stages that wait as they are
-- (src/controller/local_control_application.cpp).
use cheferd.Prelude.{
  ℕ, zero, suc, ◌+◌, ◌≡◌, refl, subst, Bool, true, false, Option, none, some, List, [], ◌∷◌,
  if◌then◌else◌, Result, ok, bind-Steps, ok-injective, length, undefined,
}
use cheferd.Prelude.Int.{ℤ}
use cheferd.Text.{Bytes}
use cheferd.Dict.{Dict, lookup}
use cheferd.Wire.{Rates, EnforcementOpRules}
use cheferd.Local.State.{Local, Channels, submit_to, result_of}
use cheferd.Local.Handshake.{local_handshake, add_rules}
use cheferd.Local.Enforce.{
  Progress, passed, granted, limit_per_channel, channel_rule, env_key, local_passthru,
  enforce_channels, enforce_env, unless_returned, enforce_envs, enforce_operations,
  create_enforcement_rule,
}
use cheferd.Local.Statistics.{
  submit_all, collect_all, report, report_average, delete_sessions, aggregate_round,
  aggregate_rounds, collect_rounds, collect_global_statistics, collect_global_statistics_aggregated,
}
use cheferd.Local.Loop.Waits.{Waits, Waits-trans}
use cheferd.Status.{RpcStatus, ack_ok, ack_error}

module _ {D : Type 0} where
  -- The state that a handler has got to.
  abbrev Leaves : Local D → Progress D → Type 0
  Leaves s progress = Waits s progress.3

  ended-Leaves :
      (s : Local D) (progress p : Progress D) → Leaves s progress → ok progress ≡ ok p → Leaves s p
  ended-Leaves s progress p w e = subst (Leaves s) (ok-injective e) w

  local_passthru-Waits :
      (s next : Local D) (key rule : Bytes) (result : RpcStatus)
      → local_passthru s key rule ≡ ok (result, next)
      → Waits s next
  unfolding local_passthru
  local_passthru-Waits s next key rule result e =
      let (sent, f, e1) = bind-Steps (submit_to undefined s.data_sessions key rule) _ e in
      let ((response, taken), g, e2) = bind-Steps (result_of undefined sent key) _ e1 in
      let (status, h, e3) = bind-Steps (passed response) _ e2 in
      subst (λ (r : RpcStatus × Local D). Waits s r.1) (ok-injective e3) (refl, refl)

  chosen-Leaves :
      (b : Bool) (s next : Local D) (rest : Result (Progress D)) (p : Progress D)
      → Waits s next
      → (rest ≡ ok p → Leaves next p)
      → (if b then rest else ok (true, RpcStatus.ok, ack_ok, next)) ≡ ok p
      → Leaves s p
  chosen-Leaves true s next rest p w k e = Waits-trans s next p.3 w (k e)
  chosen-Leaves false s next rest p w k e = ended-Leaves s _ p w e

  enforce_channels-Leaves :
      (channels : Channels) (s : Local D) (key : Bytes) (rule_id limit : ℤ) (result : RpcStatus)
      (message : ℤ) (p : Progress D)
      → enforce_channels s key rule_id limit channels result message ≡ ok p
      → Leaves s p
  unfolding enforce_channels
  enforce_channels-Leaves [] s key rule_id limit result message p e =
      ended-Leaves s _ p (refl, refl) e
  enforce_channels-Leaves (channel ∷ channels) s key rule_id limit result message p e =
      let ((passthru, next), f, done) =
        bind-Steps (local_passthru s key (channel_rule rule_id channel limit)) _ e in
      chosen-Leaves (granted passthru) s next _ p (local_passthru-Waits s next key _ passthru f)
        (enforce_channels-Leaves channels next key rule_id limit RpcStatus.ok ack_ok p) done

  enforce_env-Leaves :
      (s : Local D) (rules : EnforcementOpRules) (env_rate : ℤ × ℤ) (channels : Option Channels)
      (result : RpcStatus) (message : ℤ) (p : Progress D)
      → enforce_env s rules env_rate channels result message ≡ ok p
      → Leaves s p
  enforce_env-Leaves s rules (env, rate) none result message p e = ended-Leaves s _ p (refl, refl) e
  enforce_env-Leaves s rules (env, rate) (some channels) result message p e =
      enforce_channels-Leaves channels s (env_key rules.m_stage_name env) rules.m_rule_id
        (limit_per_channel rate (length channels)) result message p e

  unless_returned-Leaves :
      (s : Local D) (progress p : Progress D) (next : RpcStatus → ℤ → Local D → Result (Progress D))
      → Leaves s progress
      → ((result : RpcStatus) (message : ℤ) (t : Local D)
          → next result message t ≡ ok p
          → Leaves t p)
      → unless_returned progress next ≡ ok p
      → Leaves s p
  unless_returned-Leaves s (true, result, message, t) p next w k e = ended-Leaves s _ p w e
  unless_returned-Leaves s (false, result, message, t) p next w k e =
      Waits-trans s t p.3 w (k result message t e)

  enforce_envs-Leaves :
      (operation : Bytes) (rules : EnforcementOpRules) (rates : Rates) (p : Progress D)
      (result : RpcStatus) (message : ℤ) (s : Local D)
      → enforce_envs operation rules rates result message s ≡ ok p
      → Leaves s p
  unfolding enforce_envs
  enforce_envs-Leaves operation rules [] p result message s e = ended-Leaves s _ p (refl, refl) e
  enforce_envs-Leaves operation rules (env_rate ∷ rates) p result message s e =
      let channels : Option Channels = lookup operation s.operation_to_channel_object in
      let (progress, f, done) =
        bind-Steps (enforce_env s rules env_rate channels result message) _ e in
      unless_returned-Leaves s progress p _
        (enforce_env-Leaves s rules env_rate channels result message progress f)
        (enforce_envs-Leaves operation rules rates p) done

  enforce_operations-Leaves :
      (operation_rules : Dict EnforcementOpRules) (p : Progress D) (result : RpcStatus)
      (message : ℤ) (s : Local D)
      → enforce_operations operation_rules result message s ≡ ok p
      → Leaves s p
  unfolding enforce_operations
  enforce_operations-Leaves [] p result message s e = ended-Leaves s _ p (refl, refl) e
  enforce_operations-Leaves ((operation, rules) ∷ rest) p result message s e =
      let (progress, f, done) =
        bind-Steps (enforce_envs operation rules rules.env_rates result message s) _ e in
      unless_returned-Leaves s progress p _
        (enforce_envs-Leaves operation rules rules.env_rates progress result message s f)
        (enforce_operations-Leaves rest p) done

  pub create_enforcement_rule-Waits :
      (s next : Local D) (operation_rules : Dict EnforcementOpRules) (result : RpcStatus)
      (message : ℤ)
      → create_enforcement_rule s operation_rules ≡ ok (result, message, next)
      → Waits s next
  unfolding create_enforcement_rule
  create_enforcement_rule-Waits s next operation_rules result message e =
      let (progress, f, done) =
        bind-Steps (enforce_operations operation_rules RpcStatus.ok ack_error s) _ e in
      subst (λ (r : RpcStatus × ℤ × Local D). Waits s r.2) (ok-injective done)
        (enforce_operations-Leaves operation_rules progress RpcStatus.ok ack_error s f)

  pub local_handshake-Waits :
      (s next : Local D) (rules : List Bytes) (result : RpcStatus) (message : ℤ)
      → local_handshake s rules ≡ ok (result, message, next)
      → Waits s next
  unfolding local_handshake
  local_handshake-Waits s next rules result message e =
      let (channels, f, done) = bind-Steps (add_rules rules s.operation_to_channel_object) _ e in
      subst (λ (r : RpcStatus × ℤ × Local D). Waits s r.2) (ok-injective done) (refl, refl)

  module _ (is_lost : D → Bool) where
    pub collect_global_statistics-Waits :
        (s next : Local D) (result : RpcStatus) (rates : Dict D)
        → collect_global_statistics is_lost s ≡ ok (result, rates, next)
        → Waits s next
    unfolding collect_global_statistics
    collect_global_statistics-Waits s next result rates e =
        let ((sessions, round), f, e1) =
          bind-Steps (collect_all (report is_lost) (submit_all s.data_sessions) _) _ e in
        let (left, g, e2) = bind-Steps (delete_sessions round.sessions_to_delete sessions) _ e1 in
        subst (λ (r : RpcStatus × Dict D × Local D). Waits s r.2) (ok-injective e2) (refl, refl)

    module _ (average : D → D → ℕ → D) (lost_rate : D) where
      aggregate_round-Waits :
          (i : ℕ) (gl_stats rates : Dict D) (s next : Local D)
          → aggregate_round is_lost average lost_rate i gl_stats s ≡ ok (rates, next)
          → Waits s next
      aggregate_round-Waits i gl_stats rates s next e =
          let ((sessions, round), f, done) =
            bind-Steps
              (collect_all (report_average is_lost average i) (submit_all s.data_sessions) _) _ e in
          subst (λ (r : Dict D × Local D). Waits s r.1) (ok-injective done) (refl, refl)

      aggregate_rounds-Waits :
          (n i : ℕ) (gl_stats rates : Dict D) (s next : Local D)
          → aggregate_rounds is_lost average lost_rate n i gl_stats s ≡ ok (rates, next)
          → Waits s next
      unfolding aggregate_rounds
      aggregate_rounds-Waits zero i gl_stats rates s next e =
          subst (λ (r : Dict D × Local D). Waits s r.1) (ok-injective e) (refl, refl)
      aggregate_rounds-Waits (suc n) i gl_stats rates s next e =
          let ((so_far, t), f, done) =
            bind-Steps (aggregate_round is_lost average lost_rate i gl_stats s) _ e in
          Waits-trans s t next (aggregate_round-Waits i gl_stats so_far s t f)
            (aggregate_rounds-Waits n (i + 1) so_far rates t next done)

      pub aggregated-Waits :
          (s next : Local D) (result : RpcStatus) (rates : Dict D)
          → collect_global_statistics_aggregated is_lost average lost_rate s
            ≡ ok (result, rates, next)
          → Waits s next
      unfolding collect_global_statistics_aggregated
      aggregated-Waits s next result rates e =
          let ((collected, t), f, done) =
            bind-Steps (aggregate_rounds is_lost average lost_rate collect_rounds 0 [] s) _ e in
          subst (λ (r : RpcStatus × Dict D × Local D). Waits s r.2) (ok-injective done)
            (aggregate_rounds-Waits collect_rounds 0 [] collected s t f)
