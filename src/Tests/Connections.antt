-- ===== src/Tests/Connections.antt =====
-- A local controller with one stage that waits, and one whose socket accepts a connection and then
-- fails.
use cheferd.Prelude.{
  false, map, fail, blocked, Gives, ℕ, zero, suc, ◌≡◌, refl, true, none, some, List, [], ◌∷◌, arith,
  Result, returns,
}
use cheferd.Prelude.Int.{ℤ, pos, minus_one, ◌+ℤ◌}
use cheferd.Text.{codes}
use cheferd.Config.Options.{unix}
use cheferd.Local.State.{Local, start, register_stage_session}
use cheferd.Local.Loop.{Answer, drain, stop_feedback_loop}
use cheferd.Local.Loop.Ended.{drain-stop_feedback_loop}
use cheferd.Local.Steps.{Reached, begins, registers}
use cheferd.Local.Steps.Ended.{Connected, drain-Connected}
use cheferd.Local.Accept.Sockets.{Kernel}
use cheferd.Local.Accept.{Accepting, accept_connections, accept_rounds}
use cheferd.Local.Accept.Backoff.{survives, accept_rounds-survives}
use cheferd.Status.{RpcStatus}
use cheferd.Session.DataPlane.Answered.{sender}
use cheferd.Session.Open.{start_session}
use cheferd.Local.Stages.{submit_housekeeping_rules}
use cheferd.Local.Stages.Unopened.{connecting, start_session_unopened}
use cheferd.Tests.Sessions.{granting, idle}

abbrev one_waits : Local ℤ
one_waits = register_stage_session (start []) []

abbrev answers : List (Answer ℤ)
answers = (RpcStatus.ok, []) ∷ (RpcStatus.ok, []) ∷ []

one_waits-Reached : Reached one_waits
one_waits-Reached = registers [] (begins [])

drain-Connected_example :
    (r : Result (Local ℤ)) × (drain answers one_waits ≡ some r) × (Connected r)
unfolding register_stage_session start
drain-Connected_example = drain-Connected answers one_waits one_waits-Reached (omega arith)

drain-stop_feedback_loop_example : drain answers (stop_feedback_loop one_waits) ≡ none
unfolding register_stage_session start ◌+ℤ◌
drain-stop_feedback_loop_example = drain-stop_feedback_loop answers one_waits refl (λ e. cc)

-- So many calls of `accept` succeed, and then none does.
abbrev connections : ℕ → ℤ × ℕ
connections zero = (minus_one, 0)
connections (suc left) = (pos 7, left)

abbrev kernel : Kernel ℕ
kernel = record {
  unlink = λ name s. s;
  unix_socket = λ s. (pos 3, s);
  inet_socket = λ s. (pos 3, s);
  bind_unix = λ fd name s. (pos 0, s);
  bind_inet = λ fd port s. (pos 0, s);
  listen = λ fd backlog s. (pos 0, s);
  accept = λ fd s. connections s;
  close = λ fd s. s;
}

abbrev accepting : Accepting ℤ ℕ
accepting = record {
  delay_t = 500000;
  manager = record {
    server_fd = minus_one;
    server_fd_array = pos 3;
    server_type = unix;
    index_t = 0;
    working_connection = true;
  };
  app = start [];
  system = 1;
}

accept_rounds-survives_example :
    returns (accept_rounds kernel (λ socket. []) 14 accepting)
    ≡ survives (accept_connections kernel accepting.manager) 0 14 1
accept_rounds-survives_example =
    accept_rounds-survives kernel (λ socket. []) 14 0 accepting (omega arith) refl

start_session_unopened_example :
    Gives
      (λ r.
        submit_housekeeping_rules
          (connecting
            (start (codes "4|1" ∷ []))
            (codes "app+7")
            (map (λ response. some response) r.0.completion_queue))
          (codes "app+7")
        ≡ fail blocked)
      (start_session kernel (sender granting) (pos 3) 5 (record idle { working_session = false }) 0)
unfolding start
start_session_unopened_example =
    start_session_unopened kernel (sender granting) (pos 3) 5
      (record idle { working_session = false }) 0 (start (codes "4|1" ∷ [])) (codes "app+7") refl
      refl refl (λ e. cc)
