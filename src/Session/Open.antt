-- ===== src/Session/Open.antt =====
-- The socket of a session with a stage, and the start of the session
-- (src/session/data_plane_session.cpp). The operating system is a parameter.
use cheferd.Prelude.{
  ℕ, Bool, true, not, ◌&&◌, take, Option, none, some, if◌then◌else◌, Result, ok, ◌>>=◌,
}
use cheferd.Prelude.Int.{ℤ, pos, minus_one, ltb_ℤ, ◌==ℤ◌}
use cheferd.Text.{Bytes}
use cheferd.Local.Accept.Sockets.{Kernel}
use cheferd.Session.Queue.{State, Sender, rounds}

module _ {T : Type 0} (kernel : Kernel T) where
  -- `bind` and `listen`, with what working_session_ is then. Both are called, whatever the first
  -- one returns.
  abbrev listening : ℤ → Bytes → Bool → T → ℤ × Bool × T
  listening server_fd socket_name working_session s =
      let (bound, t) = kernel.bind_unix server_fd (take 107 socket_name) s in
      let (heard, u) = kernel.listen server_fd 3 t in
      (server_fd, working_session && (not (ltb_ℤ bound (pos 0)) && not (ltb_ℤ heard (pos 0))), u)

  -- The descriptor 0 ends the process, which is `none`.
  unfoldable pub prepare_unix_connection : Bytes → Bool → T → Option (ℤ × Bool × T)
  prepare_unix_connection socket_name working_session s =
      let (server_fd, t) = kernel.unix_socket (kernel.unlink socket_name s) in
      if server_fd ==ℤ pos 0 then none else some (listening server_fd socket_name working_session t)

  module _ {R S : Type 0} (sender_of : ℤ → Sender R S) where
    -- The session as it is when a stage has been waited for.
    abbrev pub accepted : ℤ → State R S → State R S
    accepted socket_t st =
        if socket_t ==ℤ minus_one then st else record st { working_session = true }

    -- StartSession; `sender_of` is SendRule for a socket. The loop has so many rounds.
    unfoldable pub start_session : ℤ → ℕ → State R S → T → Result (State R S × T)
    start_session server_fd n st s =
        let (socket_t, t) = kernel.accept server_fd s in
        let begun = accepted socket_t st in
        let ended = rounds (sender_of socket_t) n begun in
        if begun.working_session then (do next ← ended; ok (next, t)) else ok (begun, t)
