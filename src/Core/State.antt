-- ===== src/Core/State.antt =====
-- The state of `CoreControlApplication`, its queues and its sessions. A `long` or `int` is an
-- integer. The thread of a session answers rules in their order: its completion queue is given by
-- the responses that are still to come, so that `GetResult` waits for ever where there is none.
use cheferd.Prelude.{
  ℕ, Bool, false, Option, List, [], ◌∷◌, ◌++◌, Result, ok, fail, ◌>>=◌, or_fail, undefined, blocked,
}
use cheferd.Prelude.Int.{ℤ, pos, ◌+ℤ◌}
use cheferd.Text.{Bytes}
use cheferd.Text.Tokens.{tokens_of}
use cheferd.Dict.{Dict, lookup, put}

pub record StageInfo : Type 0 where
  pub m_stage_name : Bytes
  pub m_stage_env : Bytes
  pub m_stage_user : Bytes
  pub m_local_address : Bytes

-- The classes below `StageResponse` that a local controller answers with. A statistic's rate is
-- compared with -1 here and has the value of an integer.
pub data StageResponse : Type 0 where
  ack : ℕ → ℤ → StageResponse
  stats : ℕ → Dict ℤ → StageResponse
  other : StageResponse

-- LocalControllerSession, as the control application sees it; a null response is `none`.
pub record Session : Type 0 where
  pub submission_queue : List Bytes
  pub completion_queue : List (Option StageResponse)

abbrev pub Envs : Type 0
Envs = List ℤ

abbrev pub Locations : Type 0
Locations = Dict Envs

pub record Core : Type 0 where
  pub change_in_system : Bool
  pub pending_rules_queue : List Bytes
  pub local_queue : List Bytes
  pub local_to_data_queue : List StageInfo
  pub local_sessions : Dict Session
  pub local_to_stages : Dict (List Bytes)
  pub stage_info_detailed : Dict StageInfo
  pub job_location_tracker : Dict Locations
  pub job_demands : Dict ℤ
  pub job_rates : Dict ℤ
  pub job_previous_rates : Dict ℤ
  pub maximum_limit : ℤ
  pub active_ops : List Bytes
  pub active_op : Bytes
  pub active_local_sessions : ℤ
  pub pending_local_sessions : ℤ
  pub active_data_sessions : ℤ
  pub pending_data_sessions : ℤ
  pub housekeeping_rules : List Bytes

-- The constructor.
unfoldable pub start : List Bytes → ℤ → Core
start rules system_limit = record {
  change_in_system = false;
  pending_rules_queue = [];
  local_queue = [];
  local_to_data_queue = [];
  local_sessions = [];
  local_to_stages = [];
  stage_info_detailed = [];
  job_location_tracker = [];
  job_demands = [];
  job_rates = [];
  job_previous_rates = [];
  maximum_limit = system_limit;
  active_ops = [];
  active_op = [];
  active_local_sessions = pos 0;
  pending_local_sessions = pos 0;
  active_data_sessions = pos 0;
  pending_data_sessions = pos 0;
  housekeeping_rules = rules;
}

unfoldable pub register_local_controller_session : Core → Bytes → Core
register_local_controller_session s local_controller_address = record s {
  local_queue = s.local_queue ++ local_controller_address ∷ [];
  pending_local_sessions = s.pending_local_sessions +ℤ pos 1;
}

unfoldable pub register_stage_session : Core → Bytes → Bytes → Bytes → Bytes → Core
register_stage_session s local_controller_address stage_name stage_env stage_user = record s {
  local_to_data_queue = s.local_to_data_queue ++ info ∷ [];
  pending_data_sessions = s.pending_data_sessions +ℤ pos 1;
}
  where
    info : StageInfo
    info = record {
      m_stage_name = stage_name;
      m_stage_env = stage_env;
      m_stage_user = stage_user;
      m_local_address = local_controller_address;
    }

unfoldable pub enqueue_rule_in_queue : Core → Bytes → Core
enqueue_rule_in_queue s rule = record s { pending_rules_queue = s.pending_rules_queue ++ rule ∷ [] }

-- The empty string stands for an empty queue.
abbrev dequeued : Core → List Bytes → Bytes × Core
dequeued s [] = ([], s)
dequeued s (rule ∷ rest) = (rule, record s { pending_rules_queue = rest })

unfoldable pub dequeue_rule_from_queue : Core → Bytes × Core
dequeue_rule_from_queue s = dequeued s s.pending_rules_queue

-- The constant of include/cheferd/controller/core_control_application.hpp.
abbrev pub iops_threshold : ℕ
iops_threshold = 10

unfoldable pub parse_rule_with_break : Bytes → List Bytes
parse_rule_with_break rule = tokens_of rule b'|'

-- `local_sessions_[address]` makes a null session of an address that has none, and a call on it is
-- undefined.
abbrev pub session_at : Core → Bytes → Result Session
session_at s address = or_fail undefined (lookup address s.local_sessions)

-- LocalControllerSession::SubmitRule
unfoldable pub submit_rule : Core → Bytes → Bytes → Result Core
submit_rule s address rule = do
  session ← session_at s address
  let next = record session { submission_queue = session.submission_queue ++ rule ∷ [] }
  ok (record s { local_sessions = put address next s.local_sessions })

abbrev pub took :
    Core → Bytes → Session → List (Option StageResponse) → Result (Option StageResponse × Core)
took s address session [] = fail blocked
took s address session (response ∷ rest) = ok (
  response,
  record s {
    local_sessions = put address (record session { completion_queue = rest }) s.local_sessions;
  },
)

-- LocalControllerSession::GetResult
unfoldable pub get_result : Core → Bytes → Result (Option StageResponse × Core)
get_result s address = do
  session ← session_at s address
  took s address session session.completion_queue
