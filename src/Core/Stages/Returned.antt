-- ===== src/Core/Stages/Returned.antt =====
-- A stage that joins and leaves again leaves no trace in the tracker
-- (src/controller/core_control_application.cpp).
use cheferd.Prelude.{
  ◌≡◌, refl, sym, ap, ◌∙◌, subst, none, some, [], ◌∷◌, inl, inr, Bool-cases, ok, Gives, ==-refl,
  ◌+◌,
}
use cheferd.Prelude.Int.{ℤ, pos_part, neg_part}
use cheferd.Text.{Bytes, same, same_refl, same_sound}
use cheferd.Text.Number.{stoi}
use cheferd.Dict.{Dict, keys, lookup, put, put_ordered, erase}
use cheferd.Dict.Laws.{lookup-put, lookup-put_ordered, lookup-erase, lookup-front, erase-front}
use cheferd.Dict.Ordered.{Ordered, Ordered-Distinct, put_ordered-Ordered}
use cheferd.Core.State.{Core, StageInfo, Envs, Locations}
use cheferd.Core.Stages.{track, stage_key, drop_job, drop_env, remove_stage, without}

without_self : (env : ℤ) → without env (env ∷ []) ≡ []
unfolding without
without_self env = rw (==-refl (pos_part env + neg_part env)) refl

-- A tracker with a job's entry written and erased again, where the job was not in it.
lookup-erase-put_ordered :
    (name j : Bytes) (locations : Locations) (d : Dict Locations)
    → Ordered (keys d)
    → lookup name d ≡ none
    → lookup j (erase name (put_ordered name locations d)) ≡ lookup j d
lookup-erase-put_ordered name j locations d o h =
    lookup-erase name j (put_ordered name locations d) (
      Ordered-Distinct (keys (put_ordered name locations d))
        (put_ordered-Ordered name locations d o))
    ∙ elim (Bool-cases (same name j)) [
      | inl e ↦ rw e (sym (subst (λ k. lookup k d ≡ none) (same_sound name j e) h))
      | inr e ↦ rw e (lookup-put_ordered name j locations d ∙ rw e refl)
    ]

-- Removing a stage whose details and place are known does to the tracker what drop_env does.
remove_stage-drop_env :
    (P : Dict Locations → Type 0) (t : Core) (key : Bytes) (info : StageInfo)
    (locations : Locations) (envs : Envs) (env : ℤ)
    → lookup key t.stage_info_detailed ≡ some info
    → lookup info.m_stage_name t.job_location_tracker ≡ some locations
    → lookup info.m_local_address locations ≡ some envs
    → stoi info.m_stage_env ≡ ok env
    → P
        (drop_env t info.m_stage_name info.m_local_address locations
          (without env envs)).job_location_tracker
    → Gives (λ next. P next.job_location_tracker) (remove_stage t key)
unfolding remove_stage
remove_stage-drop_env P t key info locations envs env a b c d h = rw a (rw b (rw c (rw d h)))

tracker-track :
    (s : Core) (info : StageInfo) (env : ℤ)
    → lookup info.m_stage_name s.job_location_tracker ≡ none
    → (track s info env).job_location_tracker
      ≡ put_ordered info.m_stage_name ((info.m_local_address, env ∷ []) ∷ []) s.job_location_tracker
unfolding track
tracker-track s info env h = rw (track, h) refl

-- A job leaves with its only stage.
drop_env-last :
    (t : Core) (name address : Bytes) (env : ℤ)
    → (drop_env t name address
        ((address, env ∷ []) ∷ [])
        (without env (env ∷ []))).job_location_tracker
      ≡ erase name t.job_location_tracker
drop_env-last t name address env =
    ap (λ envs. (drop_env t name address ((address, env ∷ []) ∷ []) envs).job_location_tracker)
      (without_self env)
    ∙ ap (λ left. (drop_job t name left).job_location_tracker) (erase-front address (env ∷ []) [])

-- With the tracker's keys in order, the first stage of a job that is not in the tracker, whose
-- environment is a number, joins and is removed again: the removal returns, and the tracker then
-- has of every job what it had before.
pub remove_stage-track :
    (s : Core) (info : StageInfo) (env : ℤ) (job : Bytes)
    → Ordered (keys s.job_location_tracker)
    → lookup info.m_stage_name s.job_location_tracker ≡ none
    → stoi info.m_stage_env ≡ ok env
    → Gives
        (λ next. lookup job next.job_location_tracker ≡ lookup job s.job_location_tracker)
        (remove_stage
          (record (track s info env) {
            stage_info_detailed = put (stage_key info) info s.stage_info_detailed;
          })
          (stage_key info))
remove_stage-track s info env job o h e =
    let name : Bytes = info.m_stage_name in
    let locations : Locations = (info.m_local_address, env ∷ []) ∷ [] in
    let t : Core = record (track s info env) {
      stage_info_detailed = put (stage_key info) info s.stage_info_detailed;
    } in
    let tracker : t.job_location_tracker ≡ put_ordered name locations s.job_location_tracker =
      tracker-track s info env h in
    remove_stage-drop_env (λ d. lookup job d ≡ lookup job s.job_location_tracker) t (stage_key info)
      info locations (env ∷ []) env
      (lookup-put (stage_key info) (stage_key info) info s.stage_info_detailed
        ∙ rw (same_refl (stage_key info)) refl)
      (ap (lookup name) tracker
        ∙ (lookup-put_ordered name name locations s.job_location_tracker
            ∙ rw (same_refl name) refl))
      (lookup-front info.m_local_address (env ∷ []) []) e
      (ap (lookup job) (drop_env-last t name info.m_local_address env)
        ∙ (ap (λ d. lookup job (erase name d)) tracker
            ∙ lookup-erase-put_ordered name job locations s.job_location_tracker o h))
