-- ===== src/Core/Statistics/Returned.antt =====
-- The collection of an answer by which at most one stage is gone returns
-- (src/controller/core_control_application.cpp).
use cheferd.Prelude.{
  ◌≡◌, refl, sym, ap, ◌∙◌, subst, Option, none, some, List, [], ◌∷◌, ◌++◌, Result, ok, fail,
  if◌then◌else◌, Gives, inl, inr, Bool-cases,
}
use cheferd.Prelude.Int.{ℤ, minus_one, ◌==ℤ◌}
use cheferd.Text.{Bytes}
use cheferd.Text.Number.{stoi}
use cheferd.Dict.{Dict, lookup, erase, emplace}
use cheferd.Core.State.{
  Core, StageInfo, StageResponse, stats, ack, other, Session, Envs, Locations, get_result,
}
use cheferd.Core.Stages.{remove_stage}
use cheferd.Core.Stages.Tracked.{Tracked, remove_stage-Tracked}
use cheferd.Core.Statistics.{
  Collected, stage_value, stage_values, left_stages, without_stage, remove_stages, lost, answered,
  collect_statistics_result,
}
use cheferd.Core.Statistics.Removed.{Sound, remove_stage-Removes}
use cheferd.Core.Statistics.Results.{without_answer, TakenIn, collect_statistics_result-TakenIn}

-- The stages with a statistic of -1.
abbrev pub gone_stages : Dict ℤ → List Bytes
gone_stages [] = []
gone_stages ((stage, rate) ∷ rest) =
    if rate ==ℤ minus_one then stage ∷ gone_stages rest else gone_stages rest

-- The stage has details, whose environment is a number, and its job is tracked at its local
-- controller.
abbrev pub Placed : Core → Bytes → Type 0
Placed s stage =
    (info : StageInfo) × (locations : Locations) × (envs : Envs) × (env : ℤ) × (lookup stage
        s.stage_info_detailed
      ≡ some info)
    × (lookup info.m_stage_name s.job_location_tracker ≡ some locations)
    × (lookup info.m_local_address locations ≡ some envs)
    × (stoi info.m_stage_env ≡ ok env)

abbrev pub AtMostOne : Core → List Bytes → Type 0
AtMostOne s [] = Unit
AtMostOne s (stage ∷ []) = Placed s stage
AtMostOne s (stage ∷ second ∷ stages) = ⊥

-- The answer is none, or it is of statistics, and at most one stage, which is placed, is gone by it.
abbrev pub LosesAtMostOne : Core → Option StageResponse → List Bytes → Type 0
LosesAtMostOne s none stages = AtMostOne s stages
LosesAtMostOne s (some (stats n [])) stages = AtMostOne s stages
LosesAtMostOne s (some (stats n (value ∷ values))) stages =
    AtMostOne s (gone_stages (value ∷ values))
LosesAtMostOne s (some (ack n z)) stages = ⊥
LosesAtMostOne s (some other) stages = ⊥

returned : {A : Type 0} (P : A → Type 0) (m : Result A) → Gives P m → (a : A) × (m ≡ ok a)
returned P (ok a) h = (a, refl)
returned P (fail e) h = absurd h

first-AtMostOne :
    (s : Core) (stage : Bytes) (stages : List Bytes)
    → AtMostOne s (stage ∷ stages)
    → Placed s stage × (stages ≡ [])
first-AtMostOne s stage [] h = (h, refl)
first-AtMostOne s stage (x ∷ xs) h = absurd h

remove_stage-Placed :
    (s : Core) (stage : Bytes)
    → Tracked s
    → Placed s stage
    → (next : Core) × (remove_stage s stage ≡ ok next)
remove_stage-Placed s stage h (info, locations, envs, env, a, b, d, e) =
    returned Tracked (remove_stage s stage)
      (remove_stage-Tracked s stage info locations envs env h a b d e)

module _ (address : Bytes) where
  stage_values-none_gone :
      (c : Collected) (values : Dict ℤ)
      → gone_stages values ≡ []
      → stage_values c address values ≡ ok c
  unfolding stage_values
  stage_values-none_gone c [] h = refl
  stage_values-none_gone c ((stage, rate) ∷ rest) h = elim (Bool-cases (rate ==ℤ minus_one)) [
    | inl k ↦ let some_gone : stage ∷ gone_stages rest ≡ [] = rw k at h in absurd cc
    | inr k ↦
        let none_gone : gone_stages rest ≡ [] = rw k at h in
        rw k (stage_values-none_gone c rest none_gone)
  ]

  stage_value-returns :
      (c : Collected) (stage : Bytes) (stages : List Bytes)
      → Sound c.core
      → lookup address c.core.local_to_stages ≡ some stages
      → Placed c.core stage
      → (next : Collected) × (stage_value c address stage minus_one ≡ ok next)
  stage_value-returns c stage stages h l p =
      let (t, e) = remove_stage-Placed c.core stage h.0 p in
      let kept = (remove_stage-Removes c.core t stage h e).1.0 in
      (
        left_stages c t address (without_stage stage stages),
        rw e (rw (ap (lookup address) kept ∙ l) refl),
      )

  stage_values-returns :
      (values : Dict ℤ) (c : Collected) (stages : List Bytes)
      → Sound c.core
      → lookup address c.core.local_to_stages ≡ some stages
      → AtMostOne c.core (gone_stages values)
      → (next : Collected) × (stage_values c address values ≡ ok next)
  unfolding stage_values
  stage_values-returns [] c stages h l p = (c, refl)
  stage_values-returns ((stage, rate) ∷ rest) c stages h l p =
      elim (Bool-cases (rate ==ℤ minus_one)) [
        | inl k ↦
            let one : AtMostOne c.core (stage ∷ gone_stages rest) = rw k at p in
            let (placed, none_gone) = first-AtMostOne c.core stage (gone_stages rest) one in
            let (next, e) = stage_value-returns c stage stages h l placed in
            (next, rw k (rw e (stage_values-none_gone next rest none_gone)))
        | inr k ↦
            let one : AtMostOne c.core (gone_stages rest) = rw k at p in
            let (next, e) = stage_values-returns rest c stages h l one in (next, rw k e)
      ]

  lost-returns :
      (c : Collected) (stage : Bytes) (stages : List Bytes)
      → Sound c.core
      → lookup address c.core.local_to_stages ≡ some (stage ∷ stages)
      → AtMostOne c.core (stage ∷ stages)
      → (next : Collected) × (lost c address ≡ ok next)
  unfolding remove_stages
  lost-returns c stage stages h l p =
      let (placed, one) = first-AtMostOne c.core stage stages p in
      let (t, e) = remove_stage-Placed c.core stage h.0 placed in
      let alone : lookup address c.core.local_to_stages ≡ some (stage ∷ []) =
        l ∙ ap (λ (ss : List Bytes). some (stage ∷ ss)) one in
      (
        record c {
          core = record t { local_to_stages = erase address t.local_to_stages };
          sessions_to_delete = c.sessions_to_delete ++ address ∷ [];
        },
        rw alone (rw e refl),
      )

  answered-returns :
      (response : Option StageResponse) (c : Collected) (x : Bytes) (xs : List Bytes)
      → Sound c.core
      → lookup address c.core.local_to_stages ≡ some (x ∷ xs)
      → LosesAtMostOne c.core response (x ∷ xs)
      → (next : Collected) × (answered c address response ≡ ok next)
  answered-returns none c x xs h l p = lost-returns c x xs h l p
  answered-returns (some (stats n [])) c x xs h l p = lost-returns c x xs h l p
  answered-returns (some (stats n (value ∷ values))) c x xs h l p =
      let (next, e) = stage_values-returns (value ∷ values) c (x ∷ xs) h l p in
      (
        record next {
          collected_stats = emplace address (stats n (value ∷ values)) next.collected_stats;
        },
        rw e refl,
      )
  answered-returns (some (ack n z)) c x xs h l p = absurd p
  answered-returns (some other) c x xs h l p = absurd p

  -- With a well-formed tracker, and details and lists of stages that have each key once, the
  -- collection of an answer of a local controller with stages returns if the answer is none or is
  -- of statistics, and at most one stage is gone by it, whose details and place are known and
  -- whose environment is a number: the answer has left the queue of its session, the stage has no
  -- details any more and is not among the stages of the local controller, which keeps the others in
  -- their order, or is not listed and has its session deleted if none is left; the answer is kept
  -- if it has a statistic and none is there, and the tracker stays well formed.
  pub collect_statistics_result-returns :
      (c : Collected) (session : Session) (response : Option StageResponse)
      (rest : List (Option StageResponse)) (x : Bytes) (xs : List Bytes)
      → Sound c.core
      → lookup address c.core.local_sessions ≡ some session
      → session.completion_queue ≡ response ∷ rest
      → lookup address c.core.local_to_stages ≡ some (x ∷ xs)
      → LosesAtMostOne c.core response (x ∷ xs)
      → Gives
          (λ next. TakenIn address response session rest c (x ∷ xs) next)
          (collect_statistics_result c address)
  unfolding collect_statistics_result get_result
  collect_statistics_result-returns c session response rest x xs h a b l p =
      let (next, e) =
        answered-returns response (without_answer address c session rest) x xs h l p in
      let done : collect_statistics_result c address ≡ ok next = rw a (rw b e) in
      subst (Gives (λ n. TakenIn address response session rest c (x ∷ xs) n)) (sym done)
        (collect_statistics_result-TakenIn address c next session response rest x xs h a b l done)
