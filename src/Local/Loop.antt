-- ===== src/Local/Loop.antt =====
-- execute_feedback_loop and stop_feedback_loop of the local controller
-- (src/controller/local_control_application.cpp). Sleeping is left out.
pub mod Waits
pub mod Ended
use cheferd.Prelude.{
  Bool, true, false, ◌&&◌, ◌||◌, Option, none, some, List, [], ◌∷◌, if◌then◌else◌, Result, ok, fail,
}
use cheferd.Prelude.Int.{ℤ, pos, ltb_ℤ}
use cheferd.Text.{Bytes}
use cheferd.Dict.{Dict}
use cheferd.Session.DataPlane.{StageResponse}
use cheferd.Local.State.{Local, Session, remove_session}
use cheferd.Local.Stages.{handle_data_plane_sessions}
use cheferd.Status.{RpcStatus}

-- What the environment does while a stage is connected: the answer of the global controller and the
-- responses of the stage's session.
abbrev pub Answer : Type 0 → Type 0
Answer D = RpcStatus × List (Option (StageResponse D))

module _ {D : Type 0} where
  unfoldable pub remove_all : Dict (Session D) → Dict (Session D)
  unfolding remove_session
  remove_all [] = []
  remove_all ((key, session) ∷ rest) = (key, remove_session session) ∷ remove_all rest

  -- The sessions that wait are removed and dropped; their number is left as it is.
  unfoldable pub stop_feedback_loop : Local D → Local D
  unfolding remove_all
  stop_feedback_loop s = record s {
    pending_data_sessions = [];
    data_sessions = remove_all s.data_sessions;
  }

  -- `while (m_pending_data_plane_sessions > 0) handle_data_plane_sessions ()`, with one answer for
  -- each round; `none` means that the answers ran out.
  unfoldable pub drain : List (Answer D) → Local D → Option (Result (Local D))
  unfolding handle_data_plane_sessions
  drain [] s = none
  drain ((connected, responses) ∷ rest) s = elim (ltb_ℤ (pos 0) s.pending_data_plane_sessions) [
    | true ↦ elim (handle_data_plane_sessions connected responses s) [
      | ok next ↦ drain rest next
      | fail e ↦ some (fail e)
    ]
    | false ↦ some (ok s)
  ]

  abbrev pub has_sessions : Local D → Bool
  has_sessions s =
      ltb_ℤ (pos 0) s.pending_data_plane_sessions || ltb_ℤ (pos 0) s.active_data_plane_sessions

  -- The rounds of the loop; for each there is what working_application_ is at the test, which other
  -- threads change, and the answers for its stages.
  unfoldable pub feedback_rounds :
      List (Bool × List (Answer D)) → Local D → Option (Result (Local D))
  unfolding drain
  feedback_rounds [] s = some (ok s)
  feedback_rounds ((working, answers) ∷ rest) s = elim (working && has_sessions s) [
    | true ↦ elim (drain answers s) [
      | none ↦ none
      | some (ok next) ↦ feedback_rounds rest next
      | some (fail e) ↦ some (fail e)
    ]
    | false ↦ some (ok s)
  ]
