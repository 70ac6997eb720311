-- ===== src/Local/Accept/Sockets.antt =====
-- How `LocalConnectionManager` prepares its socket (src/networking/local_connection_manager.cpp).
use cheferd.Prelude.{ℕ, take, Bool, true, ◌++◌, if◌then◌else◌}
use cheferd.Prelude.Int.{ℤ, pos, minus_one, ltb_ℤ, ◌==ℤ◌}
use cheferd.Text.{Bytes, codes}
use cheferd.Config.Options.{CommunicationType, unix, inet, grpc}

-- Calls of the operating system in the state S, each with its result.
pub record Kernel (S : Type 0) : Type 0 where
  pub unlink : Bytes → S → S
  pub unix_socket : S → ℤ × S
  pub inet_socket : S → ℤ × S
  pub bind_unix : ℤ → Bytes → S → ℤ × S
  pub bind_inet : ℤ → ℤ → S → ℤ × S
  pub listen : ℤ → ℕ → S → ℤ × S
  pub accept : ℤ → S → ℤ × S
  pub close : ℤ → S → S

-- The fields that the class uses. `server_fd_array` is the entry 0 of that array, the only one.
pub record Manager : Type 0 where
  pub server_fd : ℤ
  pub server_fd_array : ℤ
  pub server_type : CommunicationType
  pub index_t : ℕ
  pub working_connection : Bool

-- How the preparation of a socket ends: with its result, or by the end of the process.
pub data Prepared (S : Type 0) : Type 0 where
  prepared : ℤ → Manager → S → Prepared S
  exited : S → Prepared S

abbrev option_port : ℤ
option_port = pos 12345

abbrev begun : CommunicationType → Manager
begun server_type = record {
  server_fd = minus_one;
  server_fd_array = pos 0;
  server_type = server_type;
  index_t = 0;
  working_connection = true;
}

module _ {S : Type 0} (kernel : Kernel S) where
  -- `bind` and `listen`, whose failures end in -1.
  abbrev listening : ℤ → ℤ × S → Manager → Prepared S
  listening fd (bound, s) m =
      if ltb_ℤ bound (pos 0)
      then prepared minus_one m s
      else (let (heard, t) = kernel.listen fd 3 s in
          if ltb_ℤ heard (pos 0) then prepared minus_one m t else prepared (pos 0) m t)

  -- A descriptor 0 ends the process.
  unfoldable pub prepare_inet_connection : ℤ → Manager → S → Prepared S
  prepare_inet_connection port m s =
      let (fd, t) = kernel.inet_socket s in
      if fd ==ℤ pos 0
      then exited t
      else listening fd (kernel.bind_inet fd port t) (record m { server_fd = fd })

  -- strncpy keeps 107 bytes of the name.
  unfoldable pub prepare_unix_connection : Bytes → Manager → S → Prepared S
  prepare_unix_connection socket_name m s =
      let (fd, t) = kernel.unix_socket (kernel.unlink socket_name s) in
      if fd ==ℤ pos 0
      then exited t
      else listening fd (kernel.bind_unix fd (take 107 socket_name) t) (record m { server_fd = fd })

  unfoldable pub prepare_unix_connections : Bytes → Manager → S → Prepared S
  prepare_unix_connections socket_name m s =
      let (fd, t) = kernel.unix_socket (kernel.unlink socket_name s) in
      if fd ==ℤ pos 0
      then exited t
      else listening fd (kernel.bind_unix fd (take 107 socket_name) t)
          (record m { server_fd_array = fd })

  -- The constructor; its communication type is the constant UNIX of the options.
  unfoldable pub construct : CommunicationType → Bytes → S → Prepared S
  unfolding prepare_unix_connections prepare_inet_connection
  construct unix local_address s =
      prepare_unix_connections (codes "/tmp/" ++ (local_address ++ codes ".socket")) (begun unix) s
  construct inet local_address s = prepare_inet_connection option_port (begun inet) s
  construct grpc local_address s = prepared (pos 0) (begun grpc) s
