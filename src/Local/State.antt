-- ===== src/Local/State.antt =====
-- The state of `LocalControlApplication`
-- (include/cheferd/controller/local_control_application.hpp) and its sessions. As in the global
-- controller, the completion queue of a session holds the responses that are still to come. A rate
-- of type D is a `double`.
use cheferd.Prelude.{
  Bool, true, false, Option, List, [], ◌∷◌, ◌++◌, Result, ok, fail, ◌>>=◌, Fault, or_fail, blocked,
}
use cheferd.Prelude.Int.{ℤ, pos, ◌+ℤ◌}
use cheferd.Text.{Bytes}
use cheferd.Dict.{Dict, lookup, put}
use cheferd.Session.DataPlane.{StageResponse}

-- DataPlaneSession and HandshakeSession, as the control application sees them; a null response is
-- `none`.
pub record Session (D : Type 0) : Type 0 where
  pub submission_queue : List Bytes
  pub completion_queue : List (Option (StageResponse D))
  pub working_session : Bool

abbrev pub Channels : Type 0
Channels = List (ℤ × ℤ)

pub record Local (D : Type 0) : Type 0 where
  pub data_sessions : Dict (Session D)
  pub preparing_data_sessions : Dict (Session D)
  pub pending_data_sessions : List (Session D)
  pub operation_to_channel_object : Dict Channels
  pub housekeeping_rules : List Bytes
  pub active_data_plane_sessions : ℤ
  pub pending_data_plane_sessions : ℤ

module _ {D : Type 0} where
  -- The constructors.
  unfoldable pub start : List Bytes → Local D
  start rules = record {
    data_sessions = [];
    preparing_data_sessions = [];
    pending_data_sessions = [];
    operation_to_channel_object = [];
    housekeeping_rules = rules;
    active_data_plane_sessions = pos 0;
    pending_data_plane_sessions = pos 0;
  }

  -- `responses` are those of the new handshake session.
  unfoldable pub register_stage_session : Local D → List (Option (StageResponse D)) → Local D
  register_stage_session s responses = record s {
    pending_data_sessions =
        s.pending_data_sessions
        ++ (record { submission_queue = []; completion_queue = responses; working_session = true })
          ∷ [];
    pending_data_plane_sessions = s.pending_data_plane_sessions +ℤ pos 1;
  }

  unfoldable pub submit_rule : Session D → Bytes → Session D
  submit_rule session rule = record session {
    submission_queue = session.submission_queue ++ rule ∷ [];
  }

  unfoldable pub remove_session : Session D → Session D
  unfolding submit_rule
  remove_session session = submit_rule (record session { working_session = false }) []

  abbrev pub took :
      Session D → List (Option (StageResponse D)) → Result (Option (StageResponse D) × Session D)
  took session [] = fail blocked
  took session (response ∷ rest) = ok (response, record session { completion_queue = rest })

  unfoldable pub get_result : Session D → Result (Option (StageResponse D) × Session D)
  get_result session = took session session.completion_queue

  -- SubmitRule and GetResult of the session with a key. Without one, `at` throws and a call of the
  -- null session that `[]` makes is undefined.
  unfoldable pub submit_to : Fault → Dict (Session D) → Bytes → Bytes → Result (Dict (Session D))
  unfolding submit_rule
  submit_to missing sessions key rule = do
    session ← or_fail missing (lookup key sessions)
    ok (put key (submit_rule session rule) sessions)

  unfoldable pub result_of :
      Fault → Dict (Session D) → Bytes → Result (Option (StageResponse D) × Dict (Session D))
  unfolding get_result
  result_of missing sessions key = do
    session ← or_fail missing (lookup key sessions)
    (response, next) ← get_result session
    ok (response, put key next sessions)
