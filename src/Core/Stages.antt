-- ===== src/Core/Stages.antt =====
-- Local controllers and data plane stages that join and leave the global controller
-- (src/controller/core_control_application.cpp). The calls of std::thread that start a session are
-- not modelled: a new session's responses are those that `joins` gives.
pub mod Tracked
pub mod Admitted
pub mod Returned
use cheferd.Prelude.{
  ℕ, Bool, true, false, not, Option, none, some, List, [], ◌∷◌, ◌++◌, if◌then◌else◌, Result, ok,
  fail, ◌>>=◌, or_fail, subscript, out_of_range,
}
use cheferd.Prelude.Int.{ℤ, pos, minus_one, ◌+ℤ◌, ◌-ℤ◌, ◌==ℤ◌}
use cheferd.Text.{Bytes, codes, same}
use cheferd.Text.Number.{to_string, stoi}
use cheferd.Dict.{Dict, lookup, put, put_ordered, emplace, erase}
use cheferd.Core.State.{
  Core, StageInfo, StageResponse, ack, stats, other, Session, Envs, Locations,
  parse_rule_with_break, submit_rule, get_result,
}
use cheferd.Core.Static.{is_empty}

-- initialize: the operations of the create_channel rules are inserted into a set.
abbrev insert_op : Bytes → List Bytes → List Bytes
insert_op op [] = op ∷ []
insert_op op (o ∷ ops) = if same o op then o ∷ ops else o ∷ insert_op op ops

abbrev op_index : Bytes → ℕ
op_index token = if same token (codes "no_op") then 7 else 6

abbrev op_of : List Bytes → List Bytes → Bytes → Result (List Bytes)
op_of tokens ops kind =
    if same kind (codes "create_channel")
    then (do
      token ← subscript tokens 6
      op ← subscript tokens (op_index token)
      ok (insert_op op ops))
    else ok ops

unfoldable pub initial_ops : List Bytes → List Bytes → Result (List Bytes)
unfolding parse_rule_with_break
initial_ops [] ops = ok ops
initial_ops (specific_rule ∷ rest) ops = do
  let tokens = parse_rule_with_break specific_rule
  kind ← subscript tokens 2
  ops' ← op_of tokens ops kind
  initial_ops rest ops'

-- `*(active_ops.begin ())` of an empty set is undefined.
unfoldable pub initialize : Core → Result Core
unfolding initial_ops
initialize s = do
  ops ← initial_ops s.housekeeping_rules s.active_ops
  op ← subscript ops 0
  ok (record s { active_ops = ops; active_op = op })

-- AckCode::ok
abbrev is_ok : Option StageResponse → Bool
is_ok (some (ack kind message)) = message ==ℤ pos 1
is_ok response = false

abbrev pub joined_rules : List Bytes → Bytes
joined_rules [] = []
joined_rules (rule ∷ rest) = b':' ∷ (rule ++ joined_rules rest)

unfoldable pub handshake_rule : List Bytes → Bytes
handshake_rule rules = to_string (pos 11) ++ b'|' ∷ joined_rules rules

unfoldable pub call_local_handshake : Core → Bytes → Result (Bool × Core)
unfolding handshake_rule submit_rule get_result
call_local_handshake s address = do
  sent ← submit_rule s address (handshake_rule s.housekeeping_rules)
  (response, next) ← get_result sent address
  ok (is_ok response, next)

abbrev pub joined : List (Option StageResponse) → Session
joined joins = record { submission_queue = []; completion_queue = joins }

abbrev pub admit_local : Core → List (Option StageResponse) → List Bytes → Result Core
admit_local s joins [] = ok s
admit_local s joins (address ∷ rest) = do
  let known = record s {
    local_queue = rest;
    pending_local_sessions = s.pending_local_sessions -ℤ pos 1;
    local_sessions = emplace address (joined joins) s.local_sessions;
    local_to_stages = emplace address [] s.local_to_stages;
  }
  (status, next) ← call_local_handshake known address
  ok (record next { active_local_sessions = next.active_local_sessions +ℤ pos 1 })

-- The status of the handshake is not looked at.
unfoldable pub handle_local_controller_sessions : Core → List (Option StageResponse) → Result Core
unfolding call_local_handshake
handle_local_controller_sessions s joins = admit_local s joins s.local_queue

-- `at` of a map, which throws where there is no entry
abbrev pub at {ℓ} : {V : Type ℓ} → Bytes → Dict V → Result V
at k d = or_fail out_of_range (lookup k d)

abbrev pub stage_key : StageInfo → Bytes
stage_key info = info.m_stage_name ++ b'+' ∷ info.m_stage_env

unfoldable pub ready_rule : Bytes → Bytes → Bytes
ready_rule stage_name stage_env =
    to_string (pos 1) ++ b'|' ∷ (stage_name ++ b'+' ∷ (stage_env ++ b'|' ∷ []))

unfoldable pub mark_data_plane_stage_ready : Core → Bytes → Bytes → Bytes → Result (Bool × Core)
unfolding ready_rule submit_rule get_result
mark_data_plane_stage_ready s address stage_name stage_env = do
  session ← at address s.local_sessions
  sent ← submit_rule s address (ready_rule stage_name stage_env)
  (response, next) ← get_result sent address
  ok (is_ok response, next)

abbrev pub appended {ℓ} : {A : Type ℓ} → Option (List A) → A → List A
appended none a = a ∷ []
appended (some as') a = as' ++ a ∷ []

-- A stage of a new job, with the job's demand and rates; or one more stage of a job.
unfoldable pub track : Core → StageInfo → ℤ → Core
track s info env = elim (lookup info.m_stage_name s.job_location_tracker) [
  | none ↦ record s {
    job_location_tracker =
        put_ordered info.m_stage_name ((info.m_local_address, env ∷ []) ∷ [])
          s.job_location_tracker;
    job_demands = emplace info.m_stage_name minus_one s.job_demands;
    job_previous_rates = emplace info.m_stage_name (pos 0) s.job_previous_rates;
    job_rates = emplace info.m_stage_name minus_one s.job_rates;
  }
  | some locations ↦ record s {
    job_location_tracker =
        put_ordered info.m_stage_name
          (put info.m_local_address (appended (lookup info.m_local_address locations) env)
            locations)
          s.job_location_tracker;
  }
]

unfoldable pub list_stage : Core → StageInfo → Core
list_stage s info = record s {
  local_to_stages =
      put info.m_local_address
        (appended (lookup info.m_local_address s.local_to_stages) (stage_key info))
        s.local_to_stages;
}

abbrev pub admit_stage : Core → List StageInfo → Result Core
admit_stage s [] = ok s
admit_stage s (info ∷ rest) = do
  env ← stoi info.m_stage_env
  let popped = record s {
    local_to_data_queue = rest;
    pending_data_sessions = s.pending_data_sessions -ℤ pos 1;
    change_in_system = true;
  }
  let listed = list_stage (track popped info env) info
  (status, marked) ←
      mark_data_plane_stage_ready listed info.m_local_address info.m_stage_name info.m_stage_env
  let detailed = record marked {
    stage_info_detailed = put (stage_key info) info marked.stage_info_detailed;
  }
  ok (
      if status
      then record detailed { active_data_sessions = detailed.active_data_sessions +ℤ pos 1 }
      else detailed)

unfoldable pub handle_data_plane_sessions : Core → Result Core
unfolding list_stage
handle_data_plane_sessions s = admit_stage s s.local_to_data_queue

-- std::remove of a number from the vector, with the erase that follows.
unfoldable pub without : ℤ → Envs → Envs
without env [] = []
without env (e ∷ envs) = let rest = without env envs in if e ==ℤ env then rest else e ∷ rest

-- What is left of a job when one of its local controllers has the given stages.
abbrev pub drop_job : Core → Bytes → Locations → Core
drop_job s name [] = record s {
  job_location_tracker = erase name s.job_location_tracker;
  job_rates = erase name s.job_rates;
  job_previous_rates = erase name s.job_previous_rates;
  job_demands = erase name s.job_demands;
}
drop_job s name (location ∷ rest) = record s {
  job_location_tracker = put_ordered name (location ∷ rest) s.job_location_tracker;
}

abbrev pub drop_env : Core → Bytes → Bytes → Locations → Envs → Core
drop_env s name address locations [] = drop_job s name (erase address locations)
drop_env s name address locations (env ∷ envs) = record s {
  job_location_tracker =
      put_ordered name (put address (env ∷ envs) locations) s.job_location_tracker;
}

unfoldable pub remove_stage : Core → Bytes → Result Core
unfolding without
remove_stage s stage_name_env = do
  info ← at stage_name_env s.stage_info_detailed
  locations ← at info.m_stage_name s.job_location_tracker
  envs ← at info.m_local_address locations
  env ← stoi info.m_stage_env
  let dropped = drop_env s info.m_stage_name info.m_local_address locations (without env envs)
  ok (record dropped {
    stage_info_detailed = erase stage_name_env dropped.stage_info_detailed;
    change_in_system = true;
  })
