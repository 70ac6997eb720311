-- ===== src/Local/Stages/Blocked.antt =====
-- A handshake that fails blocks the local controller (src/session/handshake_session.cpp,
-- src/controller/local_control_application.cpp).
use cheferd.Prelude.{
  ◌≡◌, refl, Bool, true, Option, some, List, [], ◌∷◌, map, ok, fail, blocked, Gives,
}
use cheferd.Prelude.Int.{pos}
use cheferd.Text.{Bytes}
use cheferd.Text.Number.{stoi}
use cheferd.Text.Find.{index_of}
use cheferd.Paio.Socket.{ControlOperation, no_operation, Socket}
use cheferd.Session.Queue.{State, dequeue_rule, enqueue_responses}
use cheferd.Session.DataPlane.{StageResponse, parsed, send_stage_handshake}
use cheferd.Session.DataPlane.Answered.{kind}
use cheferd.Session.Handshake.{start_session, next_rule, dispatch}
use cheferd.Local.State.{Local, Session}
use cheferd.Local.Stages.{call_stage_handshake, handshake_rule}
use cheferd.Local.Stages.Installed.{call_stage_handshake_blocked}
use cheferd.Status.{error, is_ok}

module _ {D S : Type 0} (socket : Socket D S) where
  -- The handshake session as the control application sees it.
  abbrev pub as_seen : State (StageResponse D) S → Session D
  as_seen st = record {
    submission_queue = [];
    completion_queue = map (λ response. some response) st.completion_queue;
    working_session = st.working_session;
  }

  -- The operation of the handshake rule.
  abbrev pub handshake_operation : ControlOperation
  handshake_operation = record no_operation { m_operation_type = pos 0 }

  -- The session when the handshake has been submitted to it, and then other rules.
  abbrev pub submitted_to : S → List Bytes → Bool → State (StageResponse D) S
  submitted_to c rest working = record {
    submission_queue = handshake_rule ∷ rest;
    completion_queue = [];
    working_session = working;
    connection = c;
  }

  abbrev ended : S → List Bytes → State (StageResponse D) S
  ended c rest =
      let sent = send_stage_handshake socket handshake_operation c in
      record {
        submission_queue = rest;
        completion_queue = sent.1;
        working_session = true;
        connection = sent.2;
      }

  next_rule-handshake :
      (c : S) (rest : List Bytes)
      → next_rule socket no_operation (submitted_to c rest true)
        ≡ ok (
          (send_stage_handshake socket handshake_operation c).0,
          handshake_operation,
          ended c rest,
        )
  unfolding next_rule dequeue_rule enqueue_responses is_ok parsed stoi index_of dispatch
  next_rule-handshake c rest = refl

  ended-blocked :
      (c : S) (rest : List Bytes) (s : Local D) (responses : List (Option (StageResponse D)))
      → call_stage_handshake s (as_seen (ended c rest)) responses ≡ fail blocked
  unfolding send_stage_handshake
  ended-blocked c rest s responses =
      call_stage_handshake_blocked s (as_seen (ended c rest)) responses _ refl

  -- The handshake is answered once, whether it fails or not.
  ended-kinds : (c : S) (rest : List Bytes) → map kind (ended c rest).completion_queue ≡ 0 ∷ []
  unfolding send_stage_handshake
  ended-kinds c rest = refl

  -- If the handshake with a stage fails on its socket, the handshake session ends with one response
  -- in its completion queue, a handshake, and the rules behind the first still in its submission
  -- queue, although the control application waits for two responses: its handshake with the stage
  -- does not return.
  pub start_session_blocked :
      (c : S) (rest : List Bytes) (working : Bool) (s : Local D)
      (responses : List (Option (StageResponse D)))
      → (send_stage_handshake socket handshake_operation c).0 ≡ error
      → Gives
          (λ ended.
            (map kind ended.completion_queue ≡ 0 ∷ [])
            × (ended.submission_queue ≡ rest)
            × (call_stage_handshake s (as_seen ended) responses ≡ fail blocked))
          (start_session socket (submitted_to c rest working))
  unfolding start_session is_ok
  start_session_blocked c rest working s responses f =
      rw (next_rule-handshake c rest)
        (rw f (ended-kinds c rest, refl, ended-blocked c rest s responses))
