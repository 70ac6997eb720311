-- ===== src/Core/Stages/Tracked.antt =====
-- The tracker of jobs and stages stays well formed while stages join and leave.
use cheferd.Prelude.{
  ◌≤◌, ◌≡◌, refl, sym, subst, Option, none, some, [], ◌∷◌, arith, length, length-append, inl, inr,
  Option-cases, ok, Gives,
}
use cheferd.Prelude.Int.{ℤ}
use cheferd.Text.{Bytes}
use cheferd.Text.Number.{stoi}
use cheferd.Dict.{keys, lookup, put, put_ordered, erase}
use cheferd.Dict.Laws.{Distinct, length-put, put-Distinct, erase-Distinct}
use cheferd.Dict.Ordered.{Ordered, put_ordered-Ordered, erase-Ordered}
use cheferd.Dict.Values.{Values, Values-lookup, Values-put, Values-put_ordered, Values-erase}
use cheferd.Core.State.{Core, StageInfo, Envs, Locations}
use cheferd.Core.Enforce.{total_stages}
use cheferd.Core.Stages.{appended, track, without, drop_job, drop_env, remove_stage}

abbrev pub Occupied : Envs → Type 0
Occupied envs = 1 ≤ length envs

-- A job has a local controller, and each has a stage of the job.
abbrev pub Located : Locations → Type 0
Located locations = (1 ≤ length locations) × (Distinct (keys locations) × Values Occupied locations)

-- The jobs are in order, and each is at a local controller with a stage.
abbrev pub Tracked : Core → Type 0
Tracked s = Ordered (keys s.job_location_tracker) × Values Located s.job_location_tracker

-- A job at well-formed locations has at least one stage, which is what its rate is divided by.
pub stages-Located : (locations : Locations) → Located locations → 1 ≤ total_stages locations
unfolding total_stages
stages-Located [] (h, k) = h
stages-Located ((address, envs) ∷ rest) (h, (d, (o, os))) = omega arith

appended-Occupied : (o : Option Envs) (env : ℤ) → Occupied (appended o env)
appended-Occupied none env = omega arith
appended-Occupied (some envs) env = rw (length-append envs (env ∷ [])) (omega arith)

put-Located :
    (address : Bytes) (envs : Envs) (locations : Locations)
    → Occupied envs
    → Located locations
    → Located (put address envs locations)
put-Located address envs locations o (n, (d, h)) = (
  length-put address envs locations,
  (put-Distinct address envs locations d, Values-put Occupied address envs locations o h),
)

-- A stage that joins keeps a well-formed tracker well formed, be its job new or not.
pub track-Tracked : (s : Core) (info : StageInfo) (env : ℤ) → Tracked s → Tracked (track s info env)
unfolding track
track-Tracked s info env (o, h) =
    elim (Option-cases (lookup info.m_stage_name s.job_location_tracker)) [
      | inl e ↦
          rw (track, e)
            (
              put_ordered-Ordered info.m_stage_name _ s.job_location_tracker o,
              Values-put_ordered Located info.m_stage_name _ s.job_location_tracker
                  (omega arith, ((tt, tt), (omega arith, tt))) h,
            )
      | inr (locations, e) ↦
          rw (track, e)
            (
              put_ordered-Ordered info.m_stage_name _ s.job_location_tracker o,
              Values-put_ordered Located info.m_stage_name _ s.job_location_tracker
                  (put-Located info.m_local_address _ locations
                    (appended-Occupied (lookup info.m_local_address locations) env)
                    (Values-lookup Located info.m_stage_name locations s.job_location_tracker h e))
                  h,
            )
    ]

erase-Located :
    (address : Bytes) (locations : Locations)
    → 1 ≤ length (erase address locations)
    → Located locations
    → Located (erase address locations)
erase-Located address locations n (m, (d, h)) =
    (n, (erase-Distinct address locations d, Values-erase Occupied address locations h))

module _ (s : Core) (name : Bytes) (t : Tracked s) where
  put-Tracked :
      (locations : Locations)
      → Located locations
      → Ordered (keys (put_ordered name locations s.job_location_tracker))
        × Values Located (put_ordered name locations s.job_location_tracker)
  put-Tracked locations l = (
    put_ordered-Ordered name locations s.job_location_tracker t.0,
    Values-put_ordered Located name locations s.job_location_tracker l t.1,
  )

  drop_job-Tracked :
      (left locations : Locations) (address : Bytes)
      → Located locations
      → left ≡ erase address locations
      → Tracked (drop_job s name left)
  drop_job-Tracked [] locations address l e = (
    erase-Ordered name s.job_location_tracker t.0,
    Values-erase Located name s.job_location_tracker t.1,
  )
  drop_job-Tracked (x ∷ left) locations address l e = put-Tracked (x ∷ left) (
      subst Located (sym e)
        (erase-Located address locations (subst (λ r. 1 ≤ length r) e (omega arith)) l))

  drop_env-Tracked :
      (address : Bytes) (locations : Locations) (left : Envs)
      → Located locations
      → Tracked (drop_env s name address locations left)
  drop_env-Tracked address locations [] l =
      drop_job-Tracked (erase address locations) locations address l refl
  drop_env-Tracked address locations (env ∷ left) l =
      put-Tracked _ (put-Located address (env ∷ left) locations (omega arith) l)

-- From a well-formed tracker, a stage whose details and place are known and whose environment is a
-- number is removed: the call returns, and the tracker stays well formed, so no local controller is
-- kept without a stage and no job without a local controller.
pub remove_stage-Tracked :
    (s : Core) (key : Bytes) (info : StageInfo) (locations : Locations) (envs : Envs) (env : ℤ)
    → Tracked s
    → lookup key s.stage_info_detailed ≡ some info
    → lookup info.m_stage_name s.job_location_tracker ≡ some locations
    → lookup info.m_local_address locations ≡ some envs
    → stoi info.m_stage_env ≡ ok env
    → Gives Tracked (remove_stage s key)
unfolding remove_stage
remove_stage-Tracked s key info locations envs env h a b c d =
    rw (remove_stage, a)
      (rw b (
        rw c (
          rw d (
            drop_env-Tracked s info.m_stage_name h info.m_local_address locations (without env envs)
              (Values-lookup Located info.m_stage_name locations s.job_location_tracker h.1 b)))))
