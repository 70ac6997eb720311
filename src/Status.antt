-- ===== src/Status.antt =====
-- PStatus (src/utils/status.cpp) and the codes of include/cheferd/networking/interface_definitions.hpp.
use cheferd.Prelude.{ℕ, Bool, true, false}
use cheferd.Prelude.Int.{ℤ, pos}
use cheferd.Text.{Bytes, codes}

pub data PStatus : Type 0 where
  ok notsupported error nostatus : PStatus

unfoldable pub is_ok : PStatus → Bool
is_ok PStatus.ok = true
is_ok notsupported = false
is_ok error = false
is_ok nostatus = false

unfoldable pub to_text : PStatus → Bytes
to_text PStatus.ok = codes "OK"
to_text notsupported = codes "NotSupported"
to_text error = codes "Error"
to_text nostatus = codes "Unknown Status"

-- The types of operations.
abbrev pub stage_handshake_type : ℕ
stage_handshake_type = 0

abbrev pub stage_ready_type : ℕ
stage_ready_type = 1

abbrev pub collect_stats_type : ℕ
collect_stats_type = 2

abbrev pub collect_detailed_stats_type : ℕ
collect_detailed_stats_type = 3

abbrev pub create_hsk_rule_type : ℕ
create_hsk_rule_type = 4

abbrev pub create_enf_rule_type : ℕ
create_enf_rule_type = 6

abbrev pub remove_rule_type : ℕ
remove_rule_type = 8

abbrev pub local_handshake_type : ℕ
local_handshake_type = 11

abbrev pub stage_handshake_info_type : ℕ
stage_handshake_info_type = 12

abbrev pub collect_global_stats_type : ℕ
collect_global_stats_type = 5

abbrev pub collect_global_stats_aggregated_type : ℕ
collect_global_stats_aggregated_type = 6

-- AckCode
abbrev pub ack_ok : ℤ
ack_ok = pos 1

abbrev pub ack_error : ℤ
ack_error = pos 0

-- The values of `grpc::Status` that the program returns, OK and CANCELLED.
pub data RpcStatus : Type 0 where
  ok cancelled : RpcStatus
