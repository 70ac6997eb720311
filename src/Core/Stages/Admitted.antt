-- ===== src/Core/Stages/Admitted.antt =====
-- The handler that takes a stage from the queue (src/controller/core_control_application.cpp).
use cheferd.Prelude.{
  ◌≡◌, refl, ap, ◌∙◌, Bool, true, false, Option, some, List, ◌∷◌, ok, Gives, bind-Gives, Gives-mono,
  if◌then◌else◌, inl, inr, Option-cases,
}
use cheferd.Prelude.Int.{ℤ, pos, ◌-ℤ◌}
use cheferd.Text.{Bytes, same_refl}
use cheferd.Text.Number.{stoi}
use cheferd.Dict.{lookup}
use cheferd.Dict.Laws.{lookup-put}
use cheferd.Core.State.{Core, StageInfo, StageResponse, Session, submit_rule, get_result}
use cheferd.Core.Stages.{track, list_stage, mark_data_plane_stage_ready, handle_data_plane_sessions}
use cheferd.Core.Stages.Tracked.{Tracked, track-Tracked}

either {ℓ} : {A : Type ℓ} (b : Bool) (P : A → Type 0) (x y : A) → P x → P y → P (if b then x else y)
either true P x y h k = h
either false P x y h k = k

-- Marking a stage as ready leaves the tracker as it is.
mark-Tracked :
    (s : Core) (address name env : Bytes) (session : Session) (r : Option StageResponse)
    (rs : List (Option StageResponse))
    → Tracked s
    → lookup address s.local_sessions ≡ some session
    → session.completion_queue ≡ r ∷ rs
    → Gives
        (λ m. Tracked m.1 × (m.1.local_to_data_queue ≡ s.local_to_data_queue))
        (mark_data_plane_stage_ready s address name env)
unfolding mark_data_plane_stage_ready submit_rule get_result
mark-Tracked s address name env session r rs h a b =
    rw a
      (rw (lookup-put address address _ s.local_sessions) (rw (same_refl address) (rw b (h, refl))))

queue-track :
    (s : Core) (info : StageInfo) (env : ℤ)
    → ((track s info env).local_sessions ≡ s.local_sessions)
      × ((track s info env).local_to_data_queue ≡ s.local_to_data_queue)
unfolding track
queue-track s info env = elim (Option-cases (lookup info.m_stage_name s.job_location_tracker)) [
  | inl e ↦ (rw (track, e) refl, rw (track, e) refl)
  | inr (locations, e) ↦ (rw (track, e) refl, rw (track, e) refl)
]

-- With a well-formed tracker, a stage at the front of the queue whose environment is a number,
-- and a session of its local controller that answers, the handler returns: the queue has lost its
-- front, and the tracker stays well formed, whatever the answer.
pub handle_data_plane_sessions-Tracked :
    (s : Core) (info : StageInfo) (rest : List StageInfo) (env : ℤ) (session : Session)
    (r : Option StageResponse) (rs : List (Option StageResponse))
    → Tracked s
    → s.local_to_data_queue ≡ info ∷ rest
    → stoi info.m_stage_env ≡ ok env
    → lookup info.m_local_address s.local_sessions ≡ some session
    → session.completion_queue ≡ r ∷ rs
    → Gives
        (λ next. Tracked next × (next.local_to_data_queue ≡ rest))
        (handle_data_plane_sessions s)
unfolding handle_data_plane_sessions list_stage
handle_data_plane_sessions-Tracked s info rest env session r rs h a b c d =
    let popped : Core = record s {
      local_to_data_queue = rest;
      pending_data_sessions = s.pending_data_sessions -ℤ pos 1;
      change_in_system = true;
    } in
    let kept = queue-track popped info env in
    rw a (
      rw b (
        bind-Gives (λ (m : Bool × Core). Tracked m.1 × (m.1.local_to_data_queue ≡ rest)) _ _ _
          (Gives-mono
            (λ (m : Bool × Core).
              Tracked m.1
              × (m.1.local_to_data_queue
                  ≡ (list_stage (track popped info env) info).local_to_data_queue))
            (λ m. Tracked m.1 × (m.1.local_to_data_queue ≡ rest)) _
            (mark-Tracked (list_stage (track popped info env) info) info.m_local_address
              info.m_stage_name info.m_stage_env session r rs (track-Tracked popped info env h)
              (ap (lookup info.m_local_address) kept.0 ∙ c) d)
            (λ m k. (k.0, k.1 ∙ kept.1)))
          (λ m k. either m.0 (λ next. Tracked next × (next.local_to_data_queue ≡ rest)) _ _ k k)))
