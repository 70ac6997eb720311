-- ===== src/Local/Stages.antt =====
-- The stages that a local controller connects: handle_data_plane_sessions and the calls it makes
-- (src/controller/local_control_application.cpp).
pub mod Installed
pub mod Blocked
pub mod Unopened
use cheferd.Prelude.{
  ℕ, zero, suc, ◌+◌, Bool, true, false, ◌&&◌, not, Option, none, some, List, [], ◌∷◌, ◌++◌,
  if◌then◌else◌, length, ◌==◌, Result, ok, fail, ◌>>=◌, undefined, out_of_range, or_fail,
}
use cheferd.Prelude.Int.{ℤ, pos, minus_one, ◌+ℤ◌, ◌-ℤ◌, ◌==ℤ◌, ltb_ℤ}
use cheferd.Text.{Bytes, codes}
use cheferd.Text.Number.{to_string}
use cheferd.Dict.{Dict, lookup, put, erase}
use cheferd.Session.DataPlane.{StageResponse, Handshake, ack, handshake, stat}
use cheferd.Local.State.{
  Local, Session, submit_rule, remove_session, get_result, submit_to, result_of,
}
use cheferd.Status.{PStatus, error, ack_ok, is_ok, RpcStatus, cancelled}

abbrev field_of : Bytes → Bytes
field_of [] = []
field_of (c ∷ rest) = (c ∷ rest) ++ codes "_"

abbrev positive_of : ℤ → Bytes → Bytes
positive_of z after = if ltb_ℤ (pos 0) z then to_string z ++ after else []

abbrev pub is_empty : Bytes → Bool
is_empty [] = true
is_empty (c ∷ rest) = false

-- The path of the stage's socket; the status is an error where a part is missing.
unfoldable pub fill_socket_info : Handshake → PStatus × Bytes
fill_socket_info h = (
  if not (is_empty h.m_name)
        && not (is_empty h.m_env)
        && ltb_ℤ (pos 0) h.m_pid
        && ltb_ℤ (pos 0) h.m_ppid
      then PStatus.ok
      else error,
  codes "/tmp/"
      ++ (field_of h.m_name
          ++ (field_of h.m_env
              ++ (positive_of h.m_pid (codes "_")
                  ++ (positive_of h.m_ppid [] ++ codes ".socket")))),
)

abbrev pub handshake_rule : Bytes
handshake_rule = codes "0|"

abbrev pub info_rule : Bytes → Bytes
info_rule socket_info = codes "12|" ++ (socket_info ++ b'|' ∷ (to_string minus_one ++ codes "|"))

abbrev pub ready_rule : Bytes
ready_rule = codes "1|"

abbrev pub stage_env_of : Handshake → Bytes
stage_env_of h = h.m_name ++ b'+' ∷ h.m_env

module _ {D : Type 0} where
  -- Another class of response, or none, makes a null pointer, which is read before it is tested.
  abbrev pub shaken : Option (StageResponse D) → Result Handshake
  shaken (some (handshake h)) = ok h
  shaken (some (ack kind message)) = fail undefined
  shaken (some (stat kind rate)) = fail undefined
  shaken none = fail undefined

  -- `responses` are those of the new session; the handshake session has answered twice.
  unfoldable pub call_stage_handshake :
      Local D
      → Session D
      → List (Option (StageResponse D))
      → Result (Handshake × Session D × Local D)
  unfolding submit_rule get_result fill_socket_info
  call_stage_handshake s session responses = do
    (response, asked) ← get_result (submit_rule session handshake_rule)
    h ← shaken response
    let (filled, socket_info) = fill_socket_info h
    let fresh : Session D = record {
      submission_queue = [];
      completion_queue = responses;
      working_session = true;
    }
    (answer, informed) ← get_result (submit_rule asked (info_rule socket_info))
    ok (
      h,
      informed,
      record s { preparing_data_sessions = put (stage_env_of h) fresh s.preparing_data_sessions },
    )

  unfoldable pub submit_rules :
      Dict (Session D) → Bytes → List Bytes → Result (ℕ × Dict (Session D))
  unfolding submit_to
  submit_rules sessions key [] = ok (0, sessions)
  submit_rules sessions key (rule ∷ rules) = do
    sent ← submit_to out_of_range sessions key rule
    (count, last) ← submit_rules sent key rules
    ok (suc count, last)

  -- An acknowledgement other than 1 ends the count with 0; a null response or one of another class
  -- is passed over.
  abbrev pub counted :
      Option (StageResponse D)
      → ℕ
      → Dict (Session D)
      → Result (ℕ × Dict (Session D))
      → Result (ℕ × Dict (Session D))
  counted (some (ack kind message)) valid sessions rest =
      if message ==ℤ ack_ok then rest else ok (0, sessions)
  counted (some (handshake h)) valid sessions rest = rest
  counted (some (stat kind rate)) valid sessions rest = rest
  counted none valid sessions rest = rest

  abbrev pub one_more : Option (StageResponse D) → ℕ → ℕ
  one_more (some (ack kind message)) valid = suc valid
  one_more (some (handshake h)) valid = valid
  one_more (some (stat kind rate)) valid = valid
  one_more none valid = valid

  unfoldable pub count_valid : Dict (Session D) → Bytes → ℕ → ℕ → Result (ℕ × Dict (Session D))
  unfolding result_of
  count_valid sessions key zero valid = ok (valid, sessions)
  count_valid sessions key (suc n) valid = do
    (response, next) ← result_of out_of_range sessions key
    let rest = count_valid next key n (one_more response valid)
    counted response valid next rest

  unfoldable pub submit_housekeeping_rules : Local D → Bytes → Result (ℕ × Local D)
  unfolding submit_rules count_valid
  submit_housekeeping_rules s stage_name_env = do
    (rule_counter, sent) ←
        submit_rules s.preparing_data_sessions stage_name_env s.housekeeping_rules
    (valid, answered) ← count_valid sent stage_name_env rule_counter 0
    ok (valid, record s { preparing_data_sessions = answered })

  -- The status is that of the submission, which is always OK.
  unfoldable pub mark_stage_ready : Local D → Bytes → Result (PStatus × Local D)
  unfolding submit_to result_of
  mark_stage_ready s stage_name_env = do
    sent ← submit_to out_of_range s.preparing_data_sessions stage_name_env ready_rule
    (response, next) ← result_of out_of_range sent stage_name_env
    ok (PStatus.ok, record s { preparing_data_sessions = next })

  -- ConnectStageToGlobal answers with `connected`.
  abbrev pub connected_stage : RpcStatus → Local D → Local D
  connected_stage RpcStatus.ok s = record s {
    active_data_plane_sessions = s.active_data_plane_sessions +ℤ pos 1;
  }
  connected_stage cancelled s = s

  abbrev pub dropped_stage : Local D → Bytes → Result (Local D)
  dropped_stage s stage_env = do
    session ← or_fail out_of_range (lookup stage_env s.preparing_data_sessions)
    ok (record s { preparing_data_sessions = erase stage_env s.preparing_data_sessions })

  abbrev pub readied : RpcStatus → Bytes → Bool → Local D → Result (Local D)
  readied connected stage_env true s = do
    (marked, ready) ← mark_stage_ready s stage_env
    if is_ok marked then ok (connected_stage connected ready) else dropped_stage ready stage_env
  readied connected stage_env false s = dropped_stage s stage_env

  abbrev pub installed : RpcStatus → Handshake → Local D → Result (Local D)
  installed connected h s = if is_empty h.m_name then ok s else (do
    (installed_rules, installed) ← submit_housekeeping_rules s (stage_env_of h)
    readied connected (stage_env_of h) (installed_rules == length installed.housekeeping_rules)
        installed)

  abbrev pub handled_stage :
      RpcStatus → List (Option (StageResponse D)) → List (Session D) → Local D → Result (Local D)
  handled_stage connected responses [] s = ok s
  handled_stage connected responses (session ∷ rest) s = do
    let popped = record s {
      pending_data_sessions = rest;
      pending_data_plane_sessions = s.pending_data_plane_sessions -ℤ pos 1;
    }
    (h, ended, shaken) ← call_stage_handshake popped session responses
    installed connected h shaken

  unfoldable pub handle_data_plane_sessions :
      RpcStatus → List (Option (StageResponse D)) → Local D → Result (Local D)
  unfolding call_stage_handshake submit_housekeeping_rules mark_stage_ready is_ok
  handle_data_plane_sessions connected responses s =
      handled_stage connected responses s.pending_data_sessions s
