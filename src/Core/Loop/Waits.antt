-- ===== src/Core/Loop/Waits.antt =====
-- What the connection of a stage does to the queue of the stages that wait and to its counter
-- (src/controller/core_control_application.cpp).
use cheferd.Prelude.{
  ◌≡◌, refl, ◌∙◌, subst, Bool, true, false, Option, List, [], ◌∷◌, if◌then◌else◌, ok, or_fail,
  undefined, Option-cases, bind-Steps, ok-injective, fail-ne-ok, inl, inr,
}
use cheferd.Prelude.Int.{ℤ, pos, ◌-ℤ◌}
use cheferd.Text.{Bytes}
use cheferd.Dict.{put, lookup, emplace}
use cheferd.Core.State.{Core, StageInfo, Session, StageResponse, submit_rule, get_result, took}
use cheferd.Core.Stages.{
  admit_stage, mark_data_plane_stage_ready, track, list_stage, at, stage_key, admit_local,
  call_local_handshake, joined,
}
use cheferd.Text.Number.{stoi}

-- Neither the queues nor the counters change from s to next.
abbrev pub Waits : Core → Core → Type 0
Waits s next =
    (next.local_to_data_queue ≡ s.local_to_data_queue)
    × (next.pending_data_sessions ≡ s.pending_data_sessions)
    × (next.local_queue ≡ s.local_queue)
    × (next.pending_local_sessions ≡ s.pending_local_sessions)

submit_rule-Waits :
    (s next : Core) (address rule : Bytes) → submit_rule s address rule ≡ ok next → Waits s next
unfolding submit_rule
submit_rule-Waits s next address rule e =
    let (session, f, done) = bind-Steps (or_fail undefined (lookup address s.local_sessions)) _ e in
    subst (Waits s) (ok-injective done) (refl, refl, refl, refl)

took-Waits :
    (responses : List (Option StageResponse)) (s next : Core) (address : Bytes) (session : Session)
    (response : Option StageResponse)
    → took s address session responses ≡ ok (response, next)
    → Waits s next
took-Waits [] s next address session response e = absurd (fail-ne-ok e)
took-Waits (r ∷ rest) s next address session response e =
    subst (λ (p : Option StageResponse × Core). Waits s p.1) (ok-injective e)
      (refl, refl, refl, refl)

get_result-Waits :
    (s next : Core) (address : Bytes) (response : Option StageResponse)
    → get_result s address ≡ ok (response, next)
    → Waits s next
unfolding get_result
get_result-Waits s next address response e =
    let (session, f, done) = bind-Steps (or_fail undefined (lookup address s.local_sessions)) _ e in
    took-Waits session.completion_queue s next address session response done

Waits-trans : (s t u : Core) → Waits s t → Waits t u → Waits s u
Waits-trans s t u (a, b, c, d) (a', b', c', d') = (a' ∙ a, b' ∙ b, c' ∙ c, d' ∙ d)

mark_data_plane_stage_ready-Waits :
    (s next : Core) (address stage_name stage_env : Bytes) (marked : Bool)
    → mark_data_plane_stage_ready s address stage_name stage_env ≡ ok (marked, next)
    → Waits s next
unfolding mark_data_plane_stage_ready
mark_data_plane_stage_ready-Waits s next address stage_name stage_env marked e =
    let (session, f, found) = bind-Steps (at address s.local_sessions) _ e in
    let (sent, g, submitted) = bind-Steps (submit_rule s address _) _ found in
    let ((response, last), h, done) = bind-Steps (get_result sent address) _ submitted in
    subst (λ (p : Bool × Core). Waits s p.1) (ok-injective done)
      (Waits-trans s sent last (submit_rule-Waits s sent address _ g)
        (get_result-Waits sent last address response h))

track-Waits : (s : Core) (info : StageInfo) (env : ℤ) → Waits s (track s info env)
unfolding track
track-Waits s info env = elim (Option-cases (lookup info.m_stage_name s.job_location_tracker)) [
  | inl e ↦ rw (track, e) (refl, refl, refl, refl)
  | inr (locations, e) ↦ rw (track, e) (refl, refl, refl, refl)
]

list_stage-Waits : (s : Core) (info : StageInfo) → Waits s (list_stage s info)
unfolding list_stage
list_stage-Waits s info = (refl, refl, refl, refl)

choose-Waits : (b : Bool) (s t u : Core) → Waits s t → Waits s u → Waits s (if b then t else u)
choose-Waits true s t u h k = h
choose-Waits false s t u h k = k

-- A local controller, or a stage, is taken from its queue, and the counter falls by one.
abbrev pub popped_local : Core → List Bytes → List (Option StageResponse) → Bytes → Core
popped_local s rest joins address = record s {
  local_queue = rest;
  pending_local_sessions = s.pending_local_sessions -ℤ pos 1;
  local_sessions = emplace address (joined joins) s.local_sessions;
  local_to_stages = emplace address [] s.local_to_stages;
}

abbrev pub popped_stage : Core → List StageInfo → Core
popped_stage s rest = record s {
  local_to_data_queue = rest;
  pending_data_sessions = s.pending_data_sessions -ℤ pos 1;
  change_in_system = true;
}

call_local_handshake-Waits :
    (s next : Core) (address : Bytes) (status : Bool)
    → call_local_handshake s address ≡ ok (status, next)
    → Waits s next
unfolding call_local_handshake
call_local_handshake-Waits s next address status e =
    let (sent, f, submitted) = bind-Steps (submit_rule s address _) _ e in
    let ((response, last), g, done) = bind-Steps (get_result sent address) _ submitted in
    subst (λ (p : Bool × Core). Waits s p.1) (ok-injective done)
      (Waits-trans s sent last (submit_rule-Waits s sent address _ f)
        (get_result-Waits sent last address response g))

-- Nothing else that waits changes.
pub admit_local-Waits :
    (s next : Core) (joins : List (Option StageResponse)) (address : Bytes) (rest : List Bytes)
    → admit_local s joins (address ∷ rest) ≡ ok next
    → Waits (popped_local s rest joins address) next
admit_local-Waits s next joins address rest e =
    let known : Core = popped_local s rest joins address in
    let ((status, shaken), f, done) = bind-Steps (call_local_handshake known address) _ e in
    subst (Waits known) (ok-injective done)
      (call_local_handshake-Waits known shaken address status f)

pub admit_stage-Waits :
    (s next : Core) (info : StageInfo) (rest : List StageInfo)
    → admit_stage s (info ∷ rest) ≡ ok next
    → Waits (popped_stage s rest) next
admit_stage-Waits s next info rest e =
    let (env, f, popped_after) = bind-Steps (stoi info.m_stage_env) _ e in
    let popped : Core = popped_stage s rest in
    let tracked : Core = track popped info env in
    let listed : Core = list_stage tracked info in
    let ((status, marked), g, done) =
      bind-Steps
        (mark_data_plane_stage_ready listed info.m_local_address info.m_stage_name info.m_stage_env)
        _ popped_after in
    let detailed : Core = record marked {
      stage_info_detailed = put (stage_key info) info marked.stage_info_detailed;
    } in
    let kept : Waits popped marked =
      Waits-trans popped tracked marked (track-Waits popped info env) (
        Waits-trans tracked listed marked (list_stage-Waits tracked info) (
          mark_data_plane_stage_ready-Waits listed marked info.m_local_address info.m_stage_name
            info.m_stage_env status g)) in
    subst (Waits popped) (ok-injective done) (choose-Waits status popped _ detailed kept kept)
