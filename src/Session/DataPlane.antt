-- ===== src/Session/DataPlane.antt =====
-- DataPlaneSession::SendRule (src/session/data_plane_session.cpp): a rule is handed to the
-- interface by its number, and a supported rule is answered once.
pub mod Answered
use cheferd.Prelude.{
  ℕ, Bool, true, false, Option, none, some, List, [], ◌∷◌, if◌then◌else◌, take, Result, ok, ◌>>=◌,
}
use cheferd.Prelude.Int.{ℤ, pos, minus_one, ◌==ℤ◌}
use cheferd.Text.{Bytes}
use cheferd.Text.Find.{find, substr}
use cheferd.Text.Tokens.{tokens_of}
use cheferd.Text.Number.{stoi, to_string}
use cheferd.Rules.Staged.{number_at}
use cheferd.Paio.Socket.{
  ControlOperation, no_operation, StageSimplifiedHandshakeRaw, no_handshake, Socket,
}
use cheferd.Paio.Calls.{
  Reply, stage_handshake, create_housekeeping_rule, mark_stage_ready, create_enforcement_rule,
  remove_rule, collect_statistics, collect_global_statistics,
}
use cheferd.Status.{
  PStatus, error, notsupported, ack_error, stage_handshake_type, stage_ready_type,
  collect_stats_type, collect_detailed_stats_type, create_hsk_rule_type, create_enf_rule_type,
  remove_rule_type, collect_global_stats_type,
}

-- StageResponseHandshake: the environment is the process identifier.
pub record Handshake : Type 0 where
  pub m_name : Bytes
  pub m_env : Bytes
  pub m_pid : ℤ
  pub m_ppid : ℤ
  pub m_hostname : Bytes
  pub m_user : Bytes

abbrev pub handshake_of : StageSimplifiedHandshakeRaw → Handshake
handshake_of stage = record {
  m_name = stage.m_stage_name;
  m_env = to_string stage.m_pid;
  m_pid = stage.m_pid;
  m_ppid = stage.m_ppid;
  m_hostname = stage.m_stage_hostname;
  m_user = stage.m_stage_user;
}

-- The classes below `StageResponse` that a stage's sessions answer with.
pub data StageResponse (D : Type 0) : Type 0 where
  ack : ℕ → ℤ → StageResponse D
  handshake : Handshake → StageResponse D
  stat : ℕ → D → StageResponse D

-- The number before the first |; the type of an empty rule is what it was.
unfoldable pub parsed : ControlOperation → Bytes → Result ControlOperation
parsed op [] = ok op
parsed op (c ∷ rest) = do
  operation_type ← stoi (substr (c ∷ rest) 0 (find (c ∷ rest) b'|' 0))
  ok (record op { m_operation_type = operation_type })

module _ {D S : Type 0} (socket : Socket D S) where
  -- The status, the responses that are put in the completion queue, and the socket.
  abbrev pub Handled : Type 0
  Handled = PStatus × List (StageResponse D) × S

  abbrev pub acked : ℕ → Reply socket → Handled
  acked kind (result, message, s) = (result, ack kind message ∷ [], s)

  abbrev pub shaken : PStatus × StageSimplifiedHandshakeRaw × S → Handled
  shaken (result, stage, s) = (result, handshake (handshake_of stage) ∷ [], s)

  -- The session's interface fills a handshake that is empty at first.
  unfoldable pub send_stage_handshake : ControlOperation → S → Handled
  unfolding stage_handshake
  send_stage_handshake op s =
      shaken
        (stage_handshake socket (record op { m_size = socket.sizes.handshake_size }) no_handshake s)

  abbrev pub measured : D → Option D × S → Handled
  measured failed_rate (none, s) = (error, stat collect_global_stats_type failed_rate ∷ [], s)
  measured failed_rate (some rate, s) = (PStatus.ok, stat collect_global_stats_type rate ∷ [], s)

  -- Here `failed_rate` is the `double` -1.
  unfoldable pub send_detailed_stats : D → ControlOperation → Bytes → S → Result Handled
  unfolding collect_global_statistics
  send_detailed_stats failed_rate op rule s = do
    let tokens = tokens_of rule b'|'
    subtype ← number_at stoi tokens 1
    ok (
        if subtype ==ℤ pos collect_global_stats_type
        then measured failed_rate
            (collect_global_statistics socket (record op { m_operation_subtype = subtype }) s)
        else (error, [], s))

  abbrev pub acked_result : ℕ → Result (Reply socket) → Result Handled
  acked_result kind reply = do r ← reply; ok (acked kind r)

  -- The `switch` over the type of the operation.
  unfoldable pub dispatch : D → ControlOperation → Bytes → S → Result Handled
  unfolding send_stage_handshake send_detailed_stats create_housekeeping_rule mark_stage_ready
      create_enforcement_rule remove_rule collect_statistics
  dispatch failed_rate op rule s =
      let is = λ (k : ℕ). op.m_operation_type ==ℤ pos k in
      if is stage_handshake_type
      then ok (send_stage_handshake op s)
      else if is stage_ready_type
      then ok (
          acked stage_ready_type
            (mark_stage_ready socket (record op { m_size = socket.sizes.ready_size }) ack_error s))
      else if is create_hsk_rule_type
      then acked_result create_hsk_rule_type (create_housekeeping_rule socket op rule ack_error s)
      else if is create_enf_rule_type
      then acked_result create_enf_rule_type (create_enforcement_rule socket op rule ack_error s)
      else if is remove_rule_type
      then ok (acked remove_rule_type (remove_rule socket op ack_error s))
      else if is collect_stats_type
      then ok (collect_statistics socket, [], s)
      else if is collect_detailed_stats_type
      then send_detailed_stats failed_rate op rule s
      else ok (notsupported, [], s)

  unfoldable pub send_rule : D → Bytes → S → Result Handled
  unfolding parsed dispatch
  send_rule failed_rate rule s = do op ← parsed no_operation rule; dispatch failed_rate op rule s
