-- ===== src/Local/Steps.antt =====
-- The control application of a local controller as a state machine
-- (src/controller/local_control_application.cpp): a step is one of its handlers that returns, in any
-- order, until its feedback loop is stopped.
pub mod Kept
pub mod Ended
use cheferd.Prelude.{◌≡◌, Bool, Option, List, ℕ, ok}
use cheferd.Prelude.Int.{ℤ}
use cheferd.Text.{Bytes}
use cheferd.Dict.{Dict}
use cheferd.Wire.{EnforcementOpRules}
use cheferd.Session.DataPlane.{StageResponse}
use cheferd.Local.State.{Local, start, register_stage_session}
use cheferd.Local.Handshake.{local_handshake, mark_stage_ready}
use cheferd.Local.Enforce.{create_enforcement_rule}
use cheferd.Local.Statistics.{collect_global_statistics, collect_global_statistics_aggregated}
use cheferd.Local.Stages.{handle_data_plane_sessions}
use cheferd.Status.{RpcStatus}

-- The states that the handlers lead to.
pub data Reached {D : Type 0} : Local D → Type 0 where
  begins : (rules : List Bytes) → Reached (start rules)
  registers :
      {s : Local D} (responses : List (Option (StageResponse D)))
      → Reached s
      → Reached (register_stage_session s responses)
  connects :
      {s next : Local D} (connected : RpcStatus) (responses : List (Option (StageResponse D)))
      → Reached s
      → handle_data_plane_sessions connected responses s ≡ ok next
      → Reached next
  shakes :
      {s next : Local D} {result : RpcStatus} {message : ℤ} (rules : List Bytes)
      → Reached s
      → local_handshake s rules ≡ ok (result, message, next)
      → Reached next
  readies :
      {s : Local D} (stage_name_env : Bytes)
      → Reached s
      → Reached (mark_stage_ready s stage_name_env).2
  enforces :
      {s next : Local D} {result : RpcStatus} {message : ℤ}
      (operation_rules : Dict EnforcementOpRules)
      → Reached s
      → create_enforcement_rule s operation_rules ≡ ok (result, message, next)
      → Reached next
  collects :
      {s next : Local D} {result : RpcStatus} {rates : Dict D} (is_lost : D → Bool)
      → Reached s
      → collect_global_statistics is_lost s ≡ ok (result, rates, next)
      → Reached next
  aggregates :
      {s next : Local D} {result : RpcStatus} {rates : Dict D} (is_lost : D → Bool)
      (average : D → D → ℕ → D) (lost_rate : D)
      → Reached s
      → collect_global_statistics_aggregated is_lost average lost_rate s ≡ ok (result, rates, next)
      → Reached next
