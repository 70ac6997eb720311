-- ===== src/Local/Accept.antt =====
-- `LocalConnectionManager` (src/networking/local_connection_manager.cpp): the socket on which a local
-- controller waits for stages, and the loop that accepts them. The operating system is a parameter.
pub mod Sockets
pub mod Backoff
use cheferd.Prelude.{
  ℕ, zero, suc, ◌+◌, ◌-◌, ◌*◌, ◌^◌, take, Bool, true, false, Option, none, some, List, [], ◌∷◌,
  ◌++◌, if◌then◌else◌, ltb, Result, ok, fail, ◌>>=◌, undefined, subscript,
}
use cheferd.Prelude.Int.{ℤ, pos, minus_one, ltb_ℤ, ◌==ℤ◌}
use cheferd.Text.{Bytes, codes}
use cheferd.Config.Options.{CommunicationType, unix, inet, grpc}
use cheferd.Session.DataPlane.{StageResponse}
use cheferd.Local.State.{Local, register_stage_session}
use cheferd.Local.Accept.Sockets.{Kernel, Manager}
use cheferd.Local.Loop.{stop_feedback_loop}

abbrev pub initial_connection_delay : ℕ
initial_connection_delay = 500000

-- INT_MAX
abbrev pub max_connection_delay : ℕ
max_connection_delay = 2 ^ 31 - 1

-- The doubled delay is an `int`, whose overflow is undefined.
unfoldable pub back_off : ℕ → Result ℕ
back_off delay_t =
    if ltb delay_t max_connection_delay
    then (if ltb max_connection_delay (delay_t * 2) then fail undefined else ok (delay_t * 2))
    else ok delay_t

module _ {S : Type 0} (kernel : Kernel S) where
  -- Accept
  abbrev accept_one : Manager → S → ℤ × S
  accept_one m s = elim m.server_type [
    | unix ↦ kernel.accept m.server_fd s
    | inet ↦ kernel.accept m.server_fd s
    | grpc ↦ (minus_one, s)
  ]

  unfoldable pub accept_connections : Manager → S → ℤ × S
  accept_connections m s = elim m.server_type [
    | unix ↦ kernel.accept m.server_fd_array s
    | inet ↦ (minus_one, s)
    | grpc ↦ (minus_one, s)
  ]

  unfoldable pub stop : Manager → S → Manager × S
  stop m s = (record m { working_connection = false }, kernel.close m.server_fd_array s)

-- The loop of Start: its delay, the manager, the control application and the system.
pub record Accepting (D S : Type 0) : Type 0 where
  pub delay_t : ℕ
  pub manager : Manager
  pub app : Local D
  pub system : S

module _ {D S : Type 0} (kernel : Kernel S) where
  -- `responses` are those of the handshake session of a socket.
  unfoldable pub accept_round :
      (ℤ → List (Option (StageResponse D))) → Accepting D S → Result (Accepting D S)
  unfolding accept_connections back_off register_stage_session
  accept_round responses a =
      let (socket_t, next) = accept_connections kernel a.manager a.system in
      if socket_t ==ℤ minus_one
      then (do delay_t ← back_off a.delay_t; ok (record a { delay_t = delay_t; system = next }))
      else ok (record {
        delay_t = initial_connection_delay;
        manager = record a.manager { index_t = a.manager.index_t + 1 };
        app = register_stage_session a.app (responses socket_t);
        system = next;
      })

  unfoldable pub accept_rounds :
      (ℤ → List (Option (StageResponse D))) → ℕ → Accepting D S → Result (Accepting D S)
  unfolding accept_round
  accept_rounds responses zero a = ok a
  accept_rounds responses (suc n) a = do
    next ← accept_round responses a
    accept_rounds responses n next

  -- Start, whose loop another thread ends after so many rounds.
  unfoldable pub start :
      (ℤ → List (Option (StageResponse D))) → ℕ → Manager → Local D → S → Result (Accepting D S)
  unfolding accept_rounds stop_feedback_loop
  start responses rounds m app s = do
    a ← accept_rounds responses rounds (record {
      delay_t = initial_connection_delay;
      manager = record m { index_t = 0 };
      app = app;
      system = s;
    })
    ok (record a { app = stop_feedback_loop a.app })
