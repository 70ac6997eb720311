-- ===== src/Core/Connect.antt =====
-- The service that the global controller offers to local controllers
-- (src/networking/core_connection_manager.cpp). The control application is `none` where its pointer
-- is null. The text of a reply is its message.
use cheferd.Prelude.{ℕ, ◌+◌, Option, none, some, [], ◌∷◌, ◌++◌}
use cheferd.Text.{Bytes, codes}
use cheferd.Core.State.{Core, register_local_controller_session, register_stage_session}
use cheferd.Status.{RpcStatus, cancelled}

abbrev impossible : Bytes
impossible = codes "CoreConnectionManager: Connection to Core Controller is not possible\n"

-- The status, the message, the number of connections so far and the control application.
abbrev pub Connected : Type 0
Connected = RpcStatus × Bytes × ℕ × Option Core

-- A request without an address is answered as if it had been registered.
unfoldable pub connect_local_to_global : Option Core → ℕ → Bytes → Connected
unfolding register_local_controller_session
connect_local_to_global app index [] =
    (RpcStatus.ok, codes "Hello local controller with address: ", index, app)
connect_local_to_global none index (c ∷ address) = (cancelled, impossible, index, none)
connect_local_to_global (some app) index (c ∷ address) = (
  RpcStatus.ok,
  codes "Hello local controller with address: " ++ c ∷ address,
  index + 1,
  some (register_local_controller_session app (c ∷ address)),
)

abbrev greeting : Bytes → Bytes → Bytes
greeting stage_name stage_env = codes "Hello stage with index: " ++ (stage_name ++ b' ' ∷ stage_env)

unfoldable pub connect_stage_to_global :
    Option Core → Bytes → Bytes → Bytes → Bytes → RpcStatus × Bytes × Option Core
unfolding register_stage_session
connect_stage_to_global app [] stage_name stage_env stage_user =
    (RpcStatus.ok, greeting stage_name stage_env, app)
connect_stage_to_global none (c ∷ address) stage_name stage_env stage_user =
    (cancelled, impossible, none)
connect_stage_to_global (some app) (c ∷ address) stage_name stage_env stage_user = (
  RpcStatus.ok,
  greeting stage_name stage_env,
  some (register_stage_session app (c ∷ address) stage_name stage_env stage_user),
)
