-- ===== src/Local/Statistics.antt =====
-- CollectGlobalStatistics and CollectGlobalStatisticsAggregated of the local controller
-- (src/controller/local_control_application.cpp). `is_lost` tells whether a rate is the `double` -1.
pub mod Reported
use cheferd.Prelude.{
  ℕ, zero, suc, ◌+◌, Bool, true, false, Option, none, some, List, [], ◌∷◌, ◌++◌, if◌then◌else◌,
  Result, ok, fail, ◌>>=◌, undefined, out_of_range, or_fail,
}
use cheferd.Prelude.Int.{ℤ, pos, ◌-ℤ◌}
use cheferd.Text.{Bytes, codes}
use cheferd.Dict.{Dict, keys, lookup, put, erase}
use cheferd.Session.DataPlane.{StageResponse, ack, handshake, stat}
use cheferd.Local.State.{Local, Session, submit_rule, remove_session, get_result}
use cheferd.Status.{RpcStatus}

-- COLLECT_DETAILED_STATS and COLLECT_GLOBAL_STATS
abbrev pub stats_rule : Bytes
stats_rule = codes "3|5|"

-- What a round of collection has so far: the rates of the reply, and the sessions that are lost.
pub record Round (D : Type 0) : Type 0 where
  pub gl_stats : Dict D
  pub sessions_to_delete : List Bytes
  pub active : ℤ

module _ {D : Type 0} where
  -- The request is put in every session's submission queue.
  unfoldable pub submit_all : Dict (Session D) → Dict (Session D)
  unfolding submit_rule
  submit_all [] = []
  submit_all ((key, session) ∷ sessions) =
      (key, submit_rule session stats_rule) ∷ submit_all sessions

  -- A lost session's rate is reported too; without an answer only the number of sessions changes.
  -- A response of another class makes a null pointer, and reading it is undefined.
  abbrev pub report : (D → Bool) → Bytes → Option (StageResponse D) → Round D → Result (Round D)
  report is_lost name none round = ok (record round { active = round.active -ℤ pos 1 })
  report is_lost name (some (stat kind rate)) round = ok (record round {
    gl_stats = put name rate round.gl_stats;
    sessions_to_delete =
        if is_lost rate then round.sessions_to_delete ++ name ∷ [] else round.sessions_to_delete;
    active = if is_lost rate then round.active -ℤ pos 1 else round.active;
  })
  report is_lost name (some (ack kind message)) round = fail undefined
  report is_lost name (some (handshake h)) round = fail undefined

  unfoldable pub collect_all :
      (Bytes → Option (StageResponse D) → Round D → Result (Round D))
      → Dict (Session D)
      → Round D
      → Result (Dict (Session D) × Round D)
  unfolding get_result
  collect_all reported [] round = ok ([], round)
  collect_all reported ((key, session) ∷ sessions) round = do
    (response, next) ← get_result session
    counted ← reported key response round
    (rest, last) ← collect_all reported sessions counted
    ok ((key, next) ∷ rest, last)

  -- `at` throws where the key is gone; the session is removed, then its entry is erased.
  unfoldable pub delete_sessions : List Bytes → Dict (Session D) → Result (Dict (Session D))
  delete_sessions [] sessions = ok sessions
  delete_sessions (key ∷ rest) sessions = do
    session ← or_fail out_of_range (lookup key sessions)
    delete_sessions rest (erase key sessions)

  unfoldable pub collect_global_statistics :
      (D → Bool) → Local D → Result (RpcStatus × Dict D × Local D)
  unfolding submit_all collect_all delete_sessions
  collect_global_statistics is_lost s = do
    let none_yet : Round D = record {
      gl_stats = [];
      sessions_to_delete = [];
      active = s.active_data_plane_sessions;
    }
    (sessions, round) ← collect_all (report is_lost) (submit_all s.data_sessions) none_yet
    left ← delete_sessions round.sessions_to_delete sessions
    ok (
      RpcStatus.ok,
      round.gl_stats,
      record s { data_sessions = left; active_data_plane_sessions = round.active },
    )

  -- The running average of the aggregated statistics; `average` is
  -- `(double)(rate + previous * i) / (i + 1)`.
  abbrev pub averaged : (D → D → ℕ → D) → ℕ → D → Option D → D
  averaged average i rate none = rate
  averaged average i rate (some previous) = average rate previous i

  abbrev pub report_average :
      (D → Bool)
      → (D → D → ℕ → D)
      → ℕ
      → Bytes
      → Option (StageResponse D)
      → Round D
      → Result (Round D)
  report_average is_lost average i name none round =
      ok (record round { active = round.active -ℤ pos 1 })
  report_average is_lost average i name (some (stat kind rate)) round = ok (
      if is_lost rate
      then record round {
        sessions_to_delete = round.sessions_to_delete ++ name ∷ [];
        active = round.active -ℤ pos 1;
      }
      else record round {
        gl_stats = put name (averaged average i rate (lookup name round.gl_stats)) round.gl_stats;
      })
  report_average is_lost average i name (some (ack kind message)) round = fail undefined
  report_average is_lost average i name (some (handshake h)) round = fail undefined

  -- The lost sessions of a round get the rate -1 and are erased.
  unfoldable pub erase_lost : D → List Bytes → Dict D → Dict (Session D) → Dict D × Dict (Session D)
  erase_lost lost_rate [] rates sessions = (rates, sessions)
  erase_lost lost_rate (key ∷ rest) rates sessions =
      erase_lost lost_rate rest (put key lost_rate rates) (erase key sessions)

  abbrev pub aggregate_round :
      (D → Bool) → (D → D → ℕ → D) → D → ℕ → Dict D → Local D → Result (Dict D × Local D)
  aggregate_round is_lost average lost_rate i gl_stats s = do
    let so_far : Round D = record {
      gl_stats = gl_stats;
      sessions_to_delete = [];
      active = s.active_data_plane_sessions;
    }
    (sessions, round) ←
        collect_all (report_average is_lost average i) (submit_all s.data_sessions) so_far
    let (rates, left) = erase_lost lost_rate round.sessions_to_delete round.gl_stats sessions
    ok (rates, record s { data_sessions = left; active_data_plane_sessions = round.active })

  -- The rounds from i on; the sleep between them is left out.
  unfoldable pub aggregate_rounds :
      (D → Bool) → (D → D → ℕ → D) → D → ℕ → ℕ → Dict D → Local D → Result (Dict D × Local D)
  unfolding submit_all collect_all erase_lost
  aggregate_rounds is_lost average lost_rate zero i gl_stats s = ok (gl_stats, s)
  aggregate_rounds is_lost average lost_rate (suc n) i gl_stats s = do
    (rates, next) ← aggregate_round is_lost average lost_rate i gl_stats s
    aggregate_rounds is_lost average lost_rate n (i + 1) rates next

-- COLLECT_ROUNDS
abbrev pub collect_rounds : ℕ
collect_rounds = 5

unfoldable pub collect_global_statistics_aggregated :
    {D : Type 0}
    → (D → Bool)
    → (D → D → ℕ → D)
    → D
    → Local D
    → Result (RpcStatus × Dict D × Local D)
unfolding aggregate_rounds
collect_global_statistics_aggregated is_lost average lost_rate s = do
  (rates, next) ← aggregate_rounds is_lost average lost_rate collect_rounds 0 [] s
  ok (RpcStatus.ok, rates, next)
