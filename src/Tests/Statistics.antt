-- ===== src/Tests/Statistics.antt =====
-- The global controller with two jobs, one of which has a stage that is gone.
use cheferd.Prelude.{Gives, refl, true, Option, some, [], ◌∷◌}
use cheferd.Prelude.Int.{pos, minus_one}
use cheferd.Text.{codes, same}
use cheferd.Text.Number.{stoi}
use cheferd.Dict.{lookup, put, emplace, erase, put_ordered, before}
use cheferd.Core.State.{Core, StageInfo, StageResponse, stats, get_result}
use cheferd.Core.Stages.{without, remove_stage}
use cheferd.Core.Statistics.{Collected, without_stage, stage_values, collect_statistics_result}
use cheferd.Core.Statistics.Results.{TakenIn, collect_statistics_result-TakenIn}
use cheferd.Core.Statistics.Returned.{collect_statistics_result-returns}
use cheferd.Tests.Controller.{session, at_local, stage_info, two_jobs, two_jobs-Tracked}

-- The stage b+3 is gone, and the stage a+1 is not.
abbrev answer : Option StageResponse
answer = some (stats 5 ((codes "a+1", pos 7) ∷ (codes "b+3", minus_one) ∷ []))

abbrev staying_info : StageInfo
staying_info = record stage_info { m_stage_name = codes "a"; m_stage_env = codes "1" }

abbrev polled : Core
polled = record two_jobs {
  local_sessions = (codes "local", record session { completion_queue = answer ∷ [] }) ∷ [];
  local_to_stages = (codes "local", codes "a+1" ∷ codes "b+3" ∷ []) ∷ [];
  stage_info_detailed = (codes "a+1", staying_info) ∷ (codes "b+3", stage_info) ∷ [];
}

abbrev poll : Collected
poll = record { core = polled; sessions_to_delete = []; collected_stats = [] }

abbrev taken_in : Collected
taken_in = record {
  core = record polled {
    local_sessions = (codes "local", record session { completion_queue = [] }) ∷ [];
    local_to_stages = (codes "local", codes "a+1" ∷ []) ∷ [];
    stage_info_detailed = (codes "a+1", staying_info) ∷ [];
    job_location_tracker =
        (codes "a", at_local (pos 1 ∷ [])) ∷ (codes "b", at_local (pos 2 ∷ [])) ∷ [];
    change_in_system = true;
  };
  sessions_to_delete = [];
  collected_stats =
      (codes "local", stats 5 ((codes "a+1", pos 7) ∷ (codes "b+3", minus_one) ∷ [])) ∷ [];
}

collect_statistics_result-TakenIn_example :
    TakenIn
      (codes "local")
      answer
      (record session { completion_queue = answer ∷ [] })
      []
      poll
      (codes "a+1" ∷ codes "b+3" ∷ [])
      taken_in
unfolding collect_statistics_result get_result stage_values remove_stage without without_stage
    lookup put emplace erase put_ordered before same stoi
collect_statistics_result-TakenIn_example =
    collect_statistics_result-TakenIn (codes "local") poll taken_in
      (record session { completion_queue = answer ∷ [] }) answer [] (codes "a+1") (codes "b+3" ∷ [])
      (two_jobs-Tracked, ((refl, tt), (tt, tt)), (tt, tt)) refl refl refl refl

collect_statistics_result-returns_example :
    Gives
      (λ next.
        TakenIn
          (codes "local")
          answer
          (record session { completion_queue = answer ∷ [] })
          []
          poll
          (codes "a+1" ∷ codes "b+3" ∷ [])
          next)
      (collect_statistics_result poll (codes "local"))
unfolding lookup same stoi
collect_statistics_result-returns_example =
    collect_statistics_result-returns (codes "local") poll
      (record session { completion_queue = answer ∷ [] }) answer [] (codes "a+1") (codes "b+3" ∷ [])
      (two_jobs-Tracked, ((refl, tt), (tt, tt)), (tt, tt)) refl refl refl
      (stage_info, at_local (pos 2 ∷ pos 3 ∷ []), pos 2 ∷ pos 3 ∷ [], pos 3, refl, refl, refl, refl)
