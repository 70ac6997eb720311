-- ===== src/Local/Enforce.antt =====
-- CreateEnforcementRule and LocalPassthru of the local controller
-- (src/controller/local_control_application.cpp).
pub mod Stage
pub mod Everywhere
pub mod Refused
use cheferd.Prelude.{
  ℕ, Bool, true, false, Option, none, some, List, [], ◌∷◌, ◌++◌, if◌then◌else◌, length, ltb, Result,
  ok, fail, ◌>>=◌, undefined,
}
use cheferd.Prelude.Int.{ℤ, pos, ◌==ℤ◌, ◌/ℤ◌}
use cheferd.Text.{Bytes, codes}
use cheferd.Text.Number.{to_string}
use cheferd.Dict.{Dict, lookup}
use cheferd.Wire.{Rates, EnforcementOpRules}
use cheferd.Session.DataPlane.{StageResponse, ack, handshake, stat}
use cheferd.Local.State.{Local, Channels, submit_to, result_of}
use cheferd.Status.{RpcStatus, cancelled, ack_ok, ack_error}

-- A response of another class makes a null `response_ptr`, and reading it is undefined.
abbrev pub passed : {D : Type 0} → Option (StageResponse D) → Result RpcStatus
passed none = ok cancelled
passed (some (ack kind message)) = ok (if message ==ℤ ack_ok then RpcStatus.ok else cancelled)
passed (some (handshake h)) = fail undefined
passed (some (stat kind rate)) = fail undefined

abbrev pub granted : RpcStatus → Bool
granted RpcStatus.ok = true
granted cancelled = false

-- std::floor of a quotient of integers, which is exact below 2 ^ 53.
unfoldable pub limit_per_channel : ℤ → ℕ → ℤ
limit_per_channel rate total_channels =
    if ltb 0 total_channels then rate /ℤ total_channels else pos 0

unfoldable pub channel_rule : ℤ → ℤ × ℤ → ℤ → Bytes
channel_rule rule_id (channel_id, enforcement_object_id) limit =
    codes "6|"
    ++ (to_string rule_id
        ++ b'|'
          ∷ (to_string channel_id
              ++ b'|'
                ∷ (to_string enforcement_object_id ++ (codes "|drl|rate|" ++ to_string limit))))

-- Whether the handler has returned, its status, the message of the reply and the state.
abbrev pub Progress : Type 0 → Type 0
Progress D = Bool × RpcStatus × ℤ × Local D

abbrev pub env_key : Bytes → ℤ → Bytes
env_key stage_name env = stage_name ++ b'+' ∷ to_string env

module _ {D : Type 0} where
  unfoldable pub local_passthru : Local D → Bytes → Bytes → Result (RpcStatus × Local D)
  unfolding submit_to result_of
  local_passthru s stage_name_env rule = do
    sent ← submit_to undefined s.data_sessions stage_name_env rule
    (response, next) ← result_of undefined sent stage_name_env
    result ← passed response
    ok (result, record s { data_sessions = next })

  unfoldable pub enforce_channels :
      Local D → Bytes → ℤ → ℤ → Channels → RpcStatus → ℤ → Result (Progress D)
  unfolding local_passthru channel_rule
  enforce_channels s key rule_id limit [] result message = ok (false, result, message, s)
  enforce_channels s key rule_id limit (channel ∷ channels) result message = do
    (passthru, next) ← local_passthru s key (channel_rule rule_id channel limit)
    let rest = enforce_channels next key rule_id limit channels RpcStatus.ok ack_ok
    if granted passthru then rest else ok (true, RpcStatus.ok, ack_ok, next)

  -- An operation without channels is refused, and the handler goes on.
  abbrev pub enforce_env :
      Local D → EnforcementOpRules → ℤ × ℤ → Option Channels → RpcStatus → ℤ → Result (Progress D)
  enforce_env s rules (env, rate) none result message = ok (false, cancelled, ack_error, s)
  enforce_env s rules (env, rate) (some channels) result message =
      enforce_channels s (env_key rules.m_stage_name env) rules.m_rule_id
        (limit_per_channel rate (length channels)) channels result message

  abbrev pub unless_returned :
      Progress D → (RpcStatus → ℤ → Local D → Result (Progress D)) → Result (Progress D)
  unless_returned (true, result, message, s) next = ok (true, result, message, s)
  unless_returned (false, result, message, s) next = next result message s

  unfoldable pub enforce_envs :
      Bytes → EnforcementOpRules → Rates → RpcStatus → ℤ → Local D → Result (Progress D)
  unfolding enforce_channels limit_per_channel
  enforce_envs operation rules [] result message s = ok (false, result, message, s)
  enforce_envs operation rules (env_rate ∷ rates) result message s = do
    progress ←
        enforce_env s rules env_rate (lookup operation s.operation_to_channel_object) result message
    unless_returned progress (enforce_envs operation rules rates)

  unfoldable pub enforce_operations :
      Dict EnforcementOpRules → RpcStatus → ℤ → Local D → Result (Progress D)
  unfolding enforce_envs
  enforce_operations [] result message s = ok (false, result, message, s)
  enforce_operations ((operation, rules) ∷ rest) result message s = do
    progress ← enforce_envs operation rules rules.env_rates result message s
    unless_returned progress (enforce_operations rest)

  -- The message of a reply that is not set is 0.
  unfoldable pub create_enforcement_rule :
      Local D → Dict EnforcementOpRules → Result (RpcStatus × ℤ × Local D)
  unfolding enforce_operations
  create_enforcement_rule s operation_rules = do
    (returned, result, message, next) ← enforce_operations operation_rules RpcStatus.ok ack_error s
    ok (result, message, next)
