-- ===== src/Core/Statistics.antt =====
-- The statistics that the global controller collects from the local controllers, and the stages
-- that it removes on the way (src/controller/core_control_application.cpp).
pub mod Removed
pub mod Answered
pub mod Results
pub mod Returned
use cheferd.Prelude.{
  ℕ, Bool, true, false, not, Option, none, some, List, [], ◌∷◌, ◌++◌, if◌then◌else◌, Result, ok,
  fail, ◌>>=◌, undefined,
}
use cheferd.Prelude.Int.{ℤ, pos, minus_one, ◌-ℤ◌, ◌==ℤ◌}
use cheferd.Text.{Bytes, same}
use cheferd.Text.Number.{to_string}
use cheferd.Dict.{Dict, keys, lookup, put, emplace, erase}
use cheferd.Core.State.{Core, StageResponse, ack, stats, other, submit_rule, get_result}
use cheferd.Core.Static.{is_empty}
use cheferd.Core.Stages.{at, remove_stage}

abbrev pub collect_detailed_stats : ℕ
collect_detailed_stats = 3

abbrev pub collect_global_stats : ℕ
collect_global_stats = 5

abbrev pub collect_global_stats_aggregated : ℕ
collect_global_stats_aggregated = 6

abbrev stats_rule : ℕ → Bytes
stats_rule subtype =
    to_string (pos collect_detailed_stats) ++ b'|' ∷ (to_string (pos subtype) ++ b'|' ∷ [])

abbrev some_stages : Option (List Bytes) → Bool
some_stages none = false
some_stages (some stages) = not (is_empty stages)

-- The local controller has a stage.
abbrev pub has_stages : Core → Bytes → Bool
has_stages s address = some_stages (lookup address s.local_to_stages)

-- What the collection has changed so far: the state, the sessions to delete and the statistics.
pub record Collected : Type 0 where
  pub core : Core
  pub sessions_to_delete : List Bytes
  pub collected_stats : Dict StageResponse

-- std::remove of a stage, with the erase that follows.
unfoldable pub without_stage : Bytes → List Bytes → List Bytes
without_stage stage [] = []
without_stage stage (t ∷ stages) =
    let rest = without_stage stage stages in if same t stage then rest else t ∷ rest

abbrev pub left_stages : Collected → Core → Bytes → List Bytes → Collected
left_stages c s local_address [] = record c {
  core = record s { local_to_stages = erase local_address s.local_to_stages };
  sessions_to_delete = c.sessions_to_delete ++ local_address ∷ [];
}
left_stages c s local_address (stage ∷ stages) = record c {
  core = record s { local_to_stages = put local_address (stage ∷ stages) s.local_to_stages };
}

-- One statistic: a rate of -1 says that the stage is gone.
abbrev pub stage_value : Collected → Bytes → Bytes → ℤ → Result Collected
stage_value c local_address stage current_rate =
    if current_rate ==ℤ minus_one
    then (do
      next ← remove_stage c.core stage
      stages ← at local_address next.local_to_stages
      ok (left_stages c next local_address (without_stage stage stages)))
    else ok c

unfoldable pub stage_values : Collected → Bytes → Dict ℤ → Result Collected
unfolding without_stage
stage_values c local_address [] = ok c
stage_values c local_address ((stage, current_rate) ∷ rest) = do
  next ← stage_value c local_address stage current_rate
  stage_values next local_address rest

unfoldable pub remove_stages : Core → List Bytes → Result Core
remove_stages s [] = ok s
remove_stages s (stage ∷ stages) = do next ← remove_stage s stage; remove_stages next stages

-- A local controller that does not answer, or answers with no statistic, loses all its stages.
abbrev pub lost : Collected → Bytes → Result Collected
lost c local_address = do
  stages ← at local_address c.core.local_to_stages
  next ← remove_stages c.core stages
  ok (record c {
    core = record next { local_to_stages = erase local_address next.local_to_stages };
    sessions_to_delete = c.sessions_to_delete ++ local_address ∷ [];
  })

-- An answer of another class makes a null pointer, whose member is read.
abbrev pub answered : Collected → Bytes → Option StageResponse → Result Collected
answered c local_address none = lost c local_address
answered c local_address (some (stats n [])) = lost c local_address
answered c local_address (some (stats n (value ∷ values))) = do
  next ← stage_values c local_address (value ∷ values)
  ok (record next {
    collected_stats = emplace local_address (stats n (value ∷ values)) next.collected_stats;
  })
answered c local_address (some (ack n z)) = fail undefined
answered c local_address (some other) = fail undefined

unfoldable pub collect_statistics_result : Collected → Bytes → Result Collected
unfolding get_result stage_values remove_stages
collect_statistics_result c local_address = do
  (response, next) ← get_result c.core local_address
  answered (record c { core = next }) local_address response

unfoldable pub send_requests : Core → ℕ → List Bytes → List Bytes → Result (Core × List Bytes)
unfolding submit_rule
send_requests s subtype [] sent = ok (s, sent)
send_requests s subtype (address ∷ rest) sent =
    if has_stages s address
    then (do
      next ← submit_rule s address (stats_rule subtype)
      send_requests next subtype rest (sent ++ address ∷ []))
    else send_requests s subtype rest sent

abbrev pub among_sessions : Bytes → List Bytes → Bool
among_sessions address [] = false
among_sessions address (a ∷ rest) = if same a address then true else among_sessions address rest

unfoldable pub collect_results : Collected → (Bytes → Bool) → List Bytes → Result Collected
unfolding collect_statistics_result
collect_results c wanted [] = ok c
collect_results c wanted (address ∷ rest) =
    if wanted address
    then (if has_stages c.core address
        then (do next ← collect_statistics_result c address; collect_results next wanted rest)
        else collect_results c wanted rest)
    else collect_results c wanted rest

unfoldable pub delete_sessions : Core → List Bytes → Core
delete_sessions s [] = s
delete_sessions s (address ∷ rest) =
    delete_sessions
      (record s {
        active_local_sessions = s.active_local_sessions -ℤ pos 1;
        local_sessions = erase address s.local_sessions;
      })
      rest

abbrev collect_from : Core → (Bytes → Bool) → Result (Core × Dict StageResponse)
collect_from s wanted = do
  c ←
      collect_results (record { core = s; sessions_to_delete = []; collected_stats = [] }) wanted
        (keys s.local_sessions)
  ok (delete_sessions c.core c.sessions_to_delete, c.collected_stats)

unfoldable pub collect_statistics_global : Core → Result (Core × Dict StageResponse)
unfolding send_requests collect_results delete_sessions
collect_statistics_global s = do
  (next, sent) ← send_requests s collect_global_stats (keys s.local_sessions) []
  collect_from next (λ address. true)

unfoldable pub collect_statistics_global_send : Core → Result (Core × List Bytes)
unfolding send_requests
collect_statistics_global_send s =
    send_requests s collect_global_stats_aggregated (keys s.local_sessions) []

unfoldable pub collect_statistics_global_collect :
    Core → List Bytes → Result (Core × Dict StageResponse)
unfolding collect_results delete_sessions
collect_statistics_global_collect s sessions_sent =
    collect_from s (λ address. among_sessions address sessions_sent)
