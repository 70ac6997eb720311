-- ===== src/Tests/Controller.antt =====
-- The global controller with two jobs at one local controller.
use cheferd.Prelude.{◌≡◌, refl, some, [], ◌∷◌, arith, Gives}
use cheferd.Prelude.Int.{pos, ◌+ℤ◌, ◌/ℤ◌}
use cheferd.Text.{codes, same}
use cheferd.Text.Number.{stoi}
use cheferd.Dict.{Dict, keys, lookup, put, before}
use cheferd.Dict.Laws.{Distinct}
use cheferd.Core.State.{Core, StageInfo, ack, Session, Envs, Locations, start}
use cheferd.Core.Enforce.{total_stages, send_rules, enforcement_rule}
use cheferd.Core.Enforce.Submitted.{Delivered, queue_of, send_rules-Delivered}
use cheferd.Core.Vanilla.{shares_of, first_phase, second_phase, distribute}
use cheferd.Core.Vanilla.Allocation.{total, total-first_phase}
use cheferd.Core.Vanilla.Limit.{Spread, AllReachable, second_phase-Spread}
use cheferd.Core.Vanilla.Limit.Bound.{Limited, distribute-Limited}
use cheferd.Core.Static.{enforce_static}
use cheferd.Core.Static.Enforced.{Settled, enforce_static-Settled}
use cheferd.Core.Stages.Returned.{remove_stage-track}
use cheferd.Core.Stages.{stage_key, track, remove_stage, handle_data_plane_sessions}
use cheferd.Core.Stages.Tracked.{Tracked, Located, remove_stage-Tracked}
use cheferd.Core.Stages.Admitted.{handle_data_plane_sessions-Tracked}

abbrev pub session : Session
session = record { submission_queue = []; completion_queue = some (ack 1 (pos 1)) ∷ [] }

abbrev pub at_local : Envs → Locations
at_local envs = (codes "local", envs) ∷ []

abbrev pub jobs : Dict Locations
jobs = (codes "a", at_local (pos 1 ∷ [])) ∷ (codes "b", at_local (pos 2 ∷ pos 3 ∷ [])) ∷ []

abbrev pub stage_info : StageInfo
stage_info = record {
  m_stage_name = codes "b";
  m_stage_env = codes "3";
  m_stage_user = codes "user";
  m_local_address = codes "local";
}

abbrev new_stage : StageInfo
new_stage = record stage_info { m_stage_name = codes "c" }

abbrev pub two_jobs : Core
two_jobs = record (start [] (pos 100)) {
  local_sessions = (codes "local", session) ∷ [];
  local_to_data_queue = new_stage ∷ [];
  stage_info_detailed = (codes "b+3", stage_info) ∷ [];
  pending_rules_queue = codes "1|demand|a|read|70|" ∷ [];
  job_location_tracker = jobs;
  job_demands = (codes "a", pos 30) ∷ (codes "b", pos 90) ∷ [];
  job_rates = [];
  job_previous_rates = [];
  maximum_limit = pos 100;
  active_op = codes "read";
}

pub two_jobs-Tracked : Tracked two_jobs
unfolding before same
two_jobs-Tracked = (((refl, tt), (tt, tt)), (one_located, (two_located, tt)))
  where
    one_located : Located (at_local (pos 1 ∷ []))
    one_located = (omega arith, ((tt, tt), (omega arith, tt)))

    two_located : Located (at_local (pos 2 ∷ pos 3 ∷ []))
    two_located = (omega arith, ((tt, tt), (omega arith, tt)))

pub jobs-Distinct : Distinct (keys jobs)
unfolding same
jobs-Distinct = ((refl, tt), (tt, tt))

pub reachable_jobs : AllReachable two_jobs jobs
unfolding lookup same total_stages
reachable_jobs = (((refl, tt), omega arith), (((refl, tt), omega arith), tt))

distribute-Limited_example : Gives (λ r. Limited two_jobs r.0) (distribute two_jobs)
distribute-Limited_example =
    distribute-Limited two_jobs two_jobs-Tracked.0 (omega arith) (omega arith) reachable_jobs

total-first_phase_example :
    total (keys jobs) (first_phase (keys jobs) (shares_of two_jobs)).rates
      +ℤ (first_phase (keys jobs) (shares_of two_jobs)).left_iops
    ≡ pos 100
total-first_phase_example = total-first_phase (keys jobs) (shares_of two_jobs) jobs-Distinct

second_phase-Spread_example :
    Gives
      (λ r. Spread two_jobs (pos 20 /ℤ 2) (keys jobs) r.0)
      (second_phase two_jobs (codes "read") (pos 20) 2 jobs [])
second_phase-Spread_example =
    second_phase-Spread two_jobs (codes "read") (pos 20) 2 jobs [] jobs-Distinct reachable_jobs

send_rules-Delivered_example :
    Gives
      (λ r.
        Delivered two_jobs r.0
          (λ envs. enforcement_rule (codes "a") (codes "read") envs (pos 7))
          (at_local (pos 1 ∷ []))
        × (queue_of r.0 (codes "other") ≡ queue_of two_jobs (codes "other")))
      (send_rules two_jobs (codes "a") (codes "read") (pos 7) (at_local (pos 1 ∷ [])) [])
unfolding same
send_rules-Delivered_example =
    send_rules-Delivered two_jobs (codes "a") (codes "read") (pos 7) (at_local (pos 1 ∷ [])) []
      (codes "other") (tt, tt) reachable_jobs.0.0 (refl, tt)

remove_stage-Tracked_example : Gives Tracked (remove_stage two_jobs (codes "b+3"))
unfolding lookup same stoi
remove_stage-Tracked_example =
    remove_stage-Tracked two_jobs (codes "b+3") stage_info (at_local (pos 2 ∷ pos 3 ∷ []))
      (pos 2 ∷ pos 3 ∷ []) (pos 3) two_jobs-Tracked refl refl refl refl

handle_data_plane_sessions-Tracked_example :
    Gives
      (λ next. Tracked next × (next.local_to_data_queue ≡ []))
      (handle_data_plane_sessions two_jobs)
unfolding lookup same stoi
handle_data_plane_sessions-Tracked_example =
    handle_data_plane_sessions-Tracked two_jobs new_stage [] (pos 3) session (some (ack 1 (pos 1)))
      [] two_jobs-Tracked refl refl refl refl

enforce_static-Settled_example :
    Gives (λ r. Settled two_jobs (keys jobs) r.0) (enforce_static two_jobs (codes "read") jobs [])
enforce_static-Settled_example =
    enforce_static-Settled two_jobs (codes "read") jobs [] jobs-Distinct reachable_jobs

remove_stage-track_example :
    Gives
      (λ next.
        lookup (codes "a") next.job_location_tracker
        ≡ lookup (codes "a") two_jobs.job_location_tracker)
      (remove_stage
        (record (track two_jobs new_stage (pos 3)) {
          stage_info_detailed = put (stage_key new_stage) new_stage two_jobs.stage_info_detailed;
        })
        (stage_key new_stage))
unfolding lookup same stoi
remove_stage-track_example =
    remove_stage-track two_jobs new_stage (pos 3) (codes "a") two_jobs-Tracked.0 refl refl
