-- ===== src/Local/Handshake.antt =====
-- LocalHandshake, StageHandshake and MarkStageReady of the local controller
-- (src/controller/local_control_application.cpp).
pub mod Collected
pub mod Moved
use cheferd.Prelude.{
  ℕ, Bool, true, false, Option, none, some, List, [], ◌∷◌, ◌++◌, if◌then◌else◌, Result, ok, ◌>>=◌,
  subscript,
}
use cheferd.Prelude.Int.{ℤ, pos}
use cheferd.Text.{Bytes, codes, same}
use cheferd.Text.Tokens.{tokens_of}
use cheferd.Text.Number.{stoi}
use cheferd.Rules.Staged.{number_at}
use cheferd.Dict.{Dict, lookup, put, emplace, erase}
use cheferd.Local.State.{Local, Session, Channels}
use cheferd.Status.{RpcStatus, ack_ok}

unfoldable pub parse_rule : Bytes → List Bytes
parse_rule rule = tokens_of rule b'|'

-- The operation of a create_channel rule is its type, or its context where it has no type.
abbrev pub operation_of : List Bytes → Result Bytes
operation_of rule_tokens = do
  operation ← subscript rule_tokens 6
  if same operation (codes "no_op") then subscript rule_tokens 7 else ok operation

abbrev pub listed : Bytes → ℤ × ℤ → Dict Channels → Option Channels → Dict Channels
listed operation channel_object channels none = emplace operation (channel_object ∷ []) channels
listed operation channel_object channels (some channels_objects) =
    put operation (channels_objects ++ channel_object ∷ []) channels

unfoldable pub add_channel : Bytes → ℤ × ℤ → Dict Channels → Dict Channels
add_channel operation channel_object channels =
    listed operation channel_object channels (lookup operation channels)

-- What one rule adds.
abbrev pub channel_of : List Bytes → Dict Channels → Bytes → Result (Dict Channels)
channel_of rule_tokens channels kind =
    if same kind (codes "create_channel")
    then (do
      channel_id ← number_at stoi rule_tokens 3
      operation ← operation_of rule_tokens
      ok (add_channel operation (channel_id, pos 1) channels))
    else ok channels

unfoldable pub add_rules : List Bytes → Dict Channels → Result (Dict Channels)
unfolding parse_rule add_channel
add_rules [] channels = ok channels
add_rules (rule ∷ rest) channels = do
  let rule_tokens = parse_rule rule
  kind ← subscript rule_tokens 2
  next ← channel_of rule_tokens channels kind
  add_rules rest next

-- The status, the message of the reply and the next state.
abbrev pub Replied : Type 0 → Type 0
Replied D = RpcStatus × ℤ × Local D

module _ {D : Type 0} where
  unfoldable pub local_handshake : Local D → List Bytes → Result (Replied D)
  unfolding add_rules
  local_handshake s rules = do
    channels ← add_rules rules s.operation_to_channel_object
    ok (
      RpcStatus.ok,
      ack_ok,
      record s {
        housekeeping_rules = s.housekeeping_rules ++ rules;
        operation_to_channel_object = channels;
      },
    )

  -- It only logs.
  unfoldable pub stage_handshake : Local D → RpcStatus × Local D
  stage_handshake s = (RpcStatus.ok, s)

  -- An extracted node is inserted where its key is free; an empty node is not inserted.
  abbrev pub moved : Bytes → Option (Session D) → Dict (Session D) → Dict (Session D)
  moved stage_name_env none sessions = sessions
  moved stage_name_env (some session) sessions = emplace stage_name_env session sessions

  unfoldable pub mark_stage_ready : Local D → Bytes → Replied D
  mark_stage_ready s stage_name_env = (
    RpcStatus.ok,
    ack_ok,
    record s {
      data_sessions =
          moved stage_name_env (lookup stage_name_env s.preparing_data_sessions) s.data_sessions;
      preparing_data_sessions =
          erase stage_name_env (erase stage_name_env s.preparing_data_sessions);
    },
  )
