-- ===== src/Local/Stages/Unopened.antt =====
-- A session whose socket cannot be opened blocks the local controller
-- (src/session/data_plane_session.cpp, src/controller/local_control_application.cpp).
use cheferd.Prelude.{
  ℕ, suc, ◌≡◌, ◌≢◌, refl, ap, ◌∙◌, true, false, Option, some, List, [], ◌∷◌, map, length, fail,
  blocked, Gives,
}
use cheferd.Prelude.Int.{ℤ, minus_one}
use cheferd.Text.{Bytes, same_refl}
use cheferd.Dict.{Dict, lookup, put}
use cheferd.Dict.Laws.{lookup-put}
use cheferd.Session.Queue.{State, Sender}
use cheferd.Session.DataPlane.{StageResponse}
use cheferd.Session.Open.{start_session}
use cheferd.Local.State.{Local, Session, took, get_result, result_of}
use cheferd.Local.Accept.Sockets.{Kernel}
use cheferd.Local.Stages.{count_valid, submit_housekeeping_rules}
use cheferd.Local.Stages.Installed.{submit_rules-found}

abbrev Results : Type 0 → Type 0
Results D = List (Option (StageResponse D))

-- A session with the responses that are still to come.
abbrev pub session_of : {D : Type 0} → Results D → Session D
session_of responses = record {
  submission_queue = [];
  completion_queue = responses;
  working_session = true;
}

module _ {D : Type 0} where
  count_valid-blocked :
      (n : ℕ) (sessions : Dict (Session D)) (key : Bytes) (session : Session D)
      → lookup key sessions ≡ some session
      → session.completion_queue ≡ []
      → count_valid sessions key (suc n) 0 ≡ fail blocked
  unfolding count_valid result_of get_result
  count_valid-blocked n sessions key session e q = rw e (rw (q, took) refl)

  rules-blocked :
      (rules : List Bytes) (s : Local D) (key : Bytes) (session : Session D)
      → s.housekeeping_rules ≡ rules
      → rules ≢ []
      → lookup key s.preparing_data_sessions ≡ some session
      → session.completion_queue ≡ []
      → submit_housekeeping_rules s key ≡ fail blocked
  unfolding submit_housekeeping_rules
  rules-blocked [] s key session r n e q = absurd (n refl)
  rules-blocked (rule ∷ rules) s key session r n e q =
      let (next, done, found) =
        submit_rules-found (rule ∷ rules) s.preparing_data_sessions key session e in
      rw r (rw done (rw (count_valid-blocked (length rules) next key _ found q) refl))

  -- The local controller when the session is the one that is being connected under a key.
  abbrev pub connecting : Local D → Bytes → Results D → Local D
  connecting s key responses = record s {
    preparing_data_sessions = put key (session_of responses) s.preparing_data_sessions;
  }

  module _ {S T : Type 0} (kernel : Kernel T) (sender_of : ℤ → Sender (StageResponse D) S) where
    -- If a session does not work and no stage connects to its socket, it ends without a response,
    -- and a local controller with housekeeping rules does not return from their submission to it.
    pub start_session_unopened :
        (server_fd : ℤ) (n : ℕ) (st : State (StageResponse D) S) (t : T) (s : Local D) (key : Bytes)
        → st.working_session ≡ false
        → st.completion_queue ≡ []
        → (kernel.accept server_fd t).0 ≡ minus_one
        → s.housekeeping_rules ≢ []
        → Gives
            (λ r.
              submit_housekeeping_rules (connecting s key (map some r.0.completion_queue)) key
              ≡ fail blocked)
            (start_session kernel sender_of server_fd n st t)
    unfolding start_session
    start_session_unopened server_fd n st t s key w c a r = rw a (
        rw w (
          rules-blocked s.housekeeping_rules (connecting s key (map some st.completion_queue)) key
            (session_of (map some st.completion_queue)) refl r
            (lookup-put key key _ s.preparing_data_sessions ∙ rw (same_refl key) refl)
            (ap (map some) c)))
