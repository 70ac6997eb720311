-- ===== src/Session/LocalController.antt =====
-- LocalControllerSession::SendRule (src/session/local_controller_session.cpp). A rate has the value
-- of an integer here, as in the global controller.
pub mod Answered
use cheferd.Prelude.{Bool, true, false, ℕ, List, [], ◌∷◌, if◌then◌else◌, Result, ok, ◌>>=◌}
use cheferd.Prelude.Int.{ℤ, pos, ◌==ℤ◌}
use cheferd.Text.{Bytes}
use cheferd.Text.Tokens.{tokens_of}
use cheferd.Text.Number.{stoi}
use cheferd.Rules.Staged.{number_at}
use cheferd.Dict.{Dict}
use cheferd.Core.State.{StageResponse, ack, stats, other}
use cheferd.Paio.Socket.{ControlOperation, no_operation, StageSimplifiedHandshakeRaw, no_handshake}
use cheferd.Session.DataPlane.{parsed}
use cheferd.Wire.Rpc.{
  GlobalToLocal, Reply, local_handshake, stage_handshake, mark_stage_ready, create_enforcement_rule,
  collect_global_statistics,
}
use cheferd.Status.{
  PStatus, error, notsupported, ack_error, stage_handshake_type, stage_ready_type,
  local_handshake_type, collect_detailed_stats_type, create_enf_rule_type,
  collect_global_stats_type, collect_global_stats_aggregated_type,
}

module _ {S : Type 0} (stub : GlobalToLocal S) where
  abbrev pub Handled : Type 0
  Handled = PStatus × List StageResponse × S

  abbrev pub acked : ℕ → Reply stub → Handled
  acked kind (result, message, s) = (result, ack kind message ∷ [], s)

  abbrev pub acked_result : ℕ → Result (Reply stub) → Result Handled
  acked_result kind reply = do r ← reply; ok (acked kind r)

  -- StageResponseHandshake
  abbrev shaken : PStatus × StageSimplifiedHandshakeRaw × S → Handled
  shaken (result, stage, s) = (result, other ∷ [], s)

  abbrev measured : ℕ → PStatus × Dict ℤ × S → Handled
  measured kind (result, objects, s) = (result, stats kind objects ∷ [], s)

  unfoldable pub send_detailed_stats : Bytes → S → Result Handled
  unfolding collect_global_statistics
  send_detailed_stats rule s = do
    subtype ← number_at stoi (tokens_of rule b'|') 1
    ok (
        if subtype ==ℤ pos collect_global_stats_type
        then measured collect_global_stats_type (collect_global_statistics stub [] s)
        else if subtype ==ℤ pos collect_global_stats_aggregated_type
        then measured collect_global_stats_aggregated_type (collect_global_statistics stub [] s)
        else (error, [], s))

  -- The `switch` over the type of the operation.
  unfoldable pub dispatch : ℤ → Bytes → S → Result Handled
  unfolding local_handshake stage_handshake mark_stage_ready create_enforcement_rule
      send_detailed_stats
  dispatch operation_type rule s =
      if operation_type ==ℤ pos local_handshake_type
      then ok (acked local_handshake_type (local_handshake stub rule ack_error s))
      else if operation_type ==ℤ pos stage_handshake_type
      then ok (shaken (stage_handshake stub no_handshake s))
      else if operation_type ==ℤ pos stage_ready_type
      then acked_result stage_ready_type (mark_stage_ready stub rule s)
      else if operation_type ==ℤ pos create_enf_rule_type
      then acked_result create_enf_rule_type (create_enforcement_rule stub rule s)
      else if operation_type ==ℤ pos collect_detailed_stats_type
      then send_detailed_stats rule s
      else ok (notsupported, [], s)

  unfoldable pub send_rule : Bytes → S → Result Handled
  unfolding parsed dispatch
  send_rule rule s = do op ← parsed no_operation rule; dispatch op.m_operation_type rule s
