-- ===== src/Wire/Rpc.antt =====
-- The calls of `LocalInterface` (src/networking/local_interface.cpp). The remote procedures of a
-- local controller are parameters of the model: what gRPC makes of a request in the state S, as
-- whether its status is OK, the reply, and the next state.
use cheferd.Prelude.{Bool, List, [], ◌∷◌, if◌then◌else◌, Result, ok, ◌>>=◌}
use cheferd.Prelude.Int.{ℤ, ◌==ℤ◌}
use cheferd.Text.{Bytes}
use cheferd.Dict.{Dict, emplace}
use cheferd.Paio.Socket.{StageSimplifiedHandshakeRaw}
use cheferd.Status.{PStatus, error, ack_ok}
use cheferd.Wire.{
  EnforcementOpRules, enforcement_rules_of, fill_housekeeping_rules_grpc, stage_ready_of,
}

-- The service GlobalToLocal. An acknowledgement is its message; a reply that was not received has
-- the message 0.
pub record GlobalToLocal (S : Type 0) : Type 0 where
  pub local_handshake : List Bytes → S → Bool × ℤ × S
  pub stage_handshake : S → Bool × StageSimplifiedHandshakeRaw × S
  pub mark_stage_ready : Bytes → S → Bool × ℤ × S
  pub create_enforcement_rule : Dict EnforcementOpRules → S → Bool × ℤ × S
  pub collect_global_statistics : S → Bool × Dict ℤ × S

module _ {S : Type 0} (stub : GlobalToLocal S) where
  -- A call with an acknowledgement: its status, its message and the state that it leaves.
  abbrev pub Reply : Type 0
  Reply = PStatus × ℤ × S

  unfoldable pub local_handshake : Bytes → ℤ → S → Reply
  unfolding fill_housekeeping_rules_grpc
  local_handshake rule message s =
      let (is_ok, reply, next) = stub.local_handshake (fill_housekeeping_rules_grpc rule) s in
      if is_ok then (PStatus.ok, reply, next) else (error, message, next)

  unfoldable pub stage_handshake :
      StageSimplifiedHandshakeRaw → S → PStatus × StageSimplifiedHandshakeRaw × S
  stage_handshake stage_info_obj s =
      let (is_ok, reply, next) = stub.stage_handshake s in
      if is_ok
      then (
        PStatus.ok,
        record stage_info_obj {
          m_stage_name = reply.m_stage_name;
          m_stage_env = reply.m_stage_env;
          m_pid = reply.m_pid;
          m_ppid = reply.m_ppid;
        },
        next,
      )
      else (error, stage_info_obj, next)

  abbrev replied : Bool × ℤ × S → Reply
  replied (is_ok, reply, next) =
      (if is_ok then (if reply ==ℤ ack_ok then PStatus.ok else error) else error, reply, next)

  unfoldable pub mark_stage_ready : Bytes → S → Result Reply
  unfolding stage_ready_of
  mark_stage_ready rule s = do
    stage_name_env ← stage_ready_of rule
    ok (replied (stub.mark_stage_ready stage_name_env s))

  unfoldable pub create_enforcement_rule : Bytes → S → Result Reply
  unfolding enforcement_rules_of
  create_enforcement_rule rule s = do
    operation_rules ← enforcement_rules_of rule
    ok (replied (stub.create_enforcement_rule operation_rules s))

  unfoldable pub emplace_all : Dict ℤ → Dict ℤ → Dict ℤ
  emplace_all [] objects = objects
  emplace_all ((name, rate) ∷ rest) objects = emplace_all rest (emplace name rate objects)

  unfoldable pub collect_global_statistics : Dict ℤ → S → PStatus × Dict ℤ × S
  unfolding emplace_all
  collect_global_statistics objects s =
      let (is_ok, reply, next) = stub.collect_global_statistics s in
      if is_ok then (PStatus.ok, emplace_all reply objects, next) else (error, objects, next)

  -- It calls the same procedure.
  abbrev collect_global_statistics_aggregated : Dict ℤ → S → PStatus × Dict ℤ × S
  collect_global_statistics_aggregated objects s = collect_global_statistics objects s
