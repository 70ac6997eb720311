-- ===== src/Session/Handshake.antt =====
-- HandshakeSession (src/session/handshake_session.cpp): one handshake, and the address that the
-- stage should connect to. The operation of the first rule is used again for the second.
use cheferd.Prelude.{true, ◌&&◌, [], if◌then◌else◌, Result, ok, ◌>>=◌}
use cheferd.Prelude.Int.{pos, ◌==ℤ◌}
use cheferd.Text.{Bytes}
use cheferd.Paio.Socket.{ControlOperation, no_operation, Socket}
use cheferd.Paio.Calls.{stage_handshake_address}
use cheferd.Session.Queue.{State, dequeue_rule, enqueue_responses}
use cheferd.Session.DataPlane.{StageResponse, Handled, acked_result, parsed, send_stage_handshake}
use cheferd.Status.{PStatus, notsupported, is_ok, stage_handshake_type, stage_handshake_info_type}

module _ {D S : Type 0} (socket : Socket D S) where
  unfoldable pub dispatch : ControlOperation → Bytes → S → Result (Handled socket)
  unfolding send_stage_handshake stage_handshake_address
  dispatch op rule s =
      if op.m_operation_type ==ℤ pos stage_handshake_type
      then ok (send_stage_handshake socket op s)
      else if op.m_operation_type ==ℤ pos stage_handshake_info_type
      then acked_result socket stage_handshake_info_type (stage_handshake_address socket rule s)
      else ok (notsupported, [], s)

  abbrev pub handled :
      ControlOperation
      → Bytes
      → PStatus
      → State (StageResponse D) S
      → Result (PStatus × ControlOperation × State (StageResponse D) S)
  handled op rule dequeued popped =
      if is_ok dequeued
      then (do
        sent ← parsed op rule
        (result, responses, next) ← dispatch sent rule popped.connection
        ok (result, sent, enqueue_responses responses (record popped { connection = next })))
      else ok (dequeued, op, popped)

  -- A rule is taken, if the session works, and sent; the operation is as the rule leaves it.
  unfoldable pub next_rule :
      ControlOperation
      → State (StageResponse D) S
      → Result (PStatus × ControlOperation × State (StageResponse D) S)
  unfolding dequeue_rule parsed dispatch is_ok enqueue_responses
  next_rule op st = do (dequeued, rule, popped) ← dequeue_rule st; handled op rule dequeued popped

  abbrev pub informed :
      ControlOperation → PStatus → State (StageResponse D) S → Result (State (StageResponse D) S)
  informed op first shaken =
      if shaken.working_session && is_ok first
      then (do (second, sent, done) ← next_rule op shaken; ok done)
      else ok shaken

  unfoldable pub start_session : State (StageResponse D) S → Result (State (StageResponse D) S)
  unfolding next_rule is_ok
  start_session st = do
    (first, op, shaken) ← next_rule no_operation (record st { working_session = true })
    informed op first shaken
