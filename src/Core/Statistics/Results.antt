-- ===== src/Core/Statistics/Results.antt =====
-- The collection of the statistics of a local controller
-- (src/controller/core_control_application.cpp).
use cheferd.Prelude.{
  ◌≡◌, refl, sym, ap, ◌∙◌, subst, Bool, true, false, ◌||◌, Option, none, some, List, [], ◌∷◌, ◌++◌,
  append-nil, ok, ◌>>=◌, bind-Steps, ok-injective, fail-ne-ok, inl, inr, Bool-cases, arith,
}
use cheferd.Prelude.Int.{ℤ, minus_one, ◌==ℤ◌}
use cheferd.Text.{Bytes, same, same_refl}
use cheferd.Dict.{Dict, lookup, put, emplace}
use cheferd.Dict.Laws.{lookup-erase, erase-Distinct}
use cheferd.Core.State.{Core, StageResponse, stats, ack, other, Session, get_result}
use cheferd.Core.Stages.{at, remove_stage}
use cheferd.Core.Statistics.{
  Collected, among_sessions, without_stage, left_stages, stage_value, stage_values, remove_stages,
  lost, answered, collect_statistics_result,
}
use cheferd.Core.Statistics.Removed.{
  Sound, Removes, Forgotten, at-some, remove_stage-Removes, remove_stages-Removes,
}
use cheferd.Core.Statistics.Answered.{
  lost_in, gone, staying, listed, ending, collected, staying-nothing, listed-some, ending_self,
  Outcome, Outcome-same, left-Sound, left-Outcome,
}

module _ (address : Bytes) where
  nothing-Outcome :
      (c : Collected) (stages : List Bytes)
      → Sound c.core
      → lookup address c.core.local_to_stages ≡ listed stages
      → Outcome address (λ j. false) c stages c
  nothing-Outcome c stages h l =
      let stay : staying (λ j. false) stages ≡ stages =
        staying-nothing (λ j. false) stages (λ j. refl) in
      (
        h,
        refl,
        λ j. refl,
        l ∙ ap listed (sym stay),
        sym (
            ap (λ after. c.sessions_to_delete ++ ending address stages after) stay
            ∙ ap (◌++◌ c.sessions_to_delete) (ending_self address stages)
            ∙ append-nil c.sessions_to_delete),
        refl,
      )

  stage_values-Outcome :
      (values : Dict ℤ) (c next : Collected) (stages : List Bytes)
      → Sound c.core
      → lookup address c.core.local_to_stages ≡ listed stages
      → stage_values c address values ≡ ok next
      → Outcome address (lost_in values) c stages next
  unfolding stage_values
  stage_values-Outcome [] c next stages h l e =
      subst (Outcome address (λ j. false) c stages) (ok-injective e) (nothing-Outcome c stages h l)
  stage_values-Outcome ((stage, rate) ∷ rest) c next stages h l e =
      let (mid, f, done) = bind-Steps (stage_value c address stage rate) _ e in
      elim (Bool-cases (rate ==ℤ minus_one)) [
        | inr k ↦
            let unchanged : ok c ≡ ok mid = rw k at f in
            Outcome-same address (lost_in rest) _ c stages next (λ j. rw k refl)
              (stage_values-Outcome rest c next stages h l (
                subst (λ m. stage_values m address rest ≡ ok next) (sym (ok-injective unchanged))
                  done))
        | inl k ↦
            let removed : (do
              t ← remove_stage c.core stage
              left ← at address t.local_to_stages
              ok (left_stages c t address (without_stage stage left)))
                ≡ ok mid =
              rw k at f in
            let (t, g, f1) = bind-Steps (remove_stage c.core stage) _ removed in
            let (left, a, f2) = bind-Steps (at address t.local_to_stages) _ f1 in
            Outcome-same address (λ j. same stage j || lost_in rest j) _ c stages next
              (λ j. rw k refl)
              (after_removal stage rest c mid next t stages left h l g a (ok-injective f2)
                (λ s k. stage_values-Outcome rest mid next (without_stage stage left) s k done))
      ]
    where
      after_removal :
          (stage : Bytes) (rest : Dict ℤ) (c mid next : Collected) (t : Core)
          (stages left : List Bytes)
          → Sound c.core
          → lookup address c.core.local_to_stages ≡ listed stages
          → remove_stage c.core stage ≡ ok t
          → at address t.local_to_stages ≡ ok left
          → left_stages c t address (without_stage stage left) ≡ mid
          → (Sound mid.core
              → lookup address mid.core.local_to_stages ≡ listed (without_stage stage left)
              → Outcome address (lost_in rest) mid (without_stage stage left) next)
          → Outcome address (λ j. same stage j || lost_in rest j) c stages next
      after_removal stage rest c mid next t stages left h l g a e k =
          let gives : Removes (λ j. same stage j) c.core t =
            remove_stage-Removes c.core t stage h g in
          let (sound, kept) = left-Sound address (without_stage stage left) c t gives.0 in
          there stage rest c next t stages left gives
            (sym l ∙ ap (lookup address) (sym gives.1.0) ∙ at-some address t.local_to_stages left a)
            (subst (λ m. Outcome address (lost_in rest) m (without_stage stage left) next) (sym e)
              (k (subst (λ m. Sound m.core) e sound) (
                subst
                  (λ m. lookup address m.core.local_to_stages ≡ listed (without_stage stage left)) e
                  kept)))
        where
          there :
              (stage : Bytes) (rest : Dict ℤ) (c next : Collected) (t : Core)
              (stages left : List Bytes)
              → Removes (λ j. same stage j) c.core t
              → listed stages ≡ some left
              → Outcome address
                  (lost_in rest)
                  (left_stages c t address (without_stage stage left))
                  (without_stage stage left)
                  next
              → Outcome address (λ j. same stage j || lost_in rest j) c stages next
          there stage rest c next t [] left gives e k = absurd cc
          there stage rest c next t (x ∷ xs) left gives e k =
              left-Outcome address (lost_in rest) c next t stage x xs (without_stage stage left)
                gives (ap (without_stage stage) (sym (listed-some (x ∷ xs) left e))) k

  staying-all :
      (p : Bytes → Bool) (stages : List Bytes)
      → ((j : Bytes) → among_sessions j stages ≡ true → p j ≡ true)
      → staying p stages ≡ []
  staying-all p [] h = refl
  staying-all p (stage ∷ stages) h =
      rw (h stage (rw (same_refl stage) refl))
        (staying-all p stages (λ j k. h j (ground (arith, k))))

  lost-Removes :
      (c : Collected) (t : Core) (x : Bytes) (xs : List Bytes)
      → Removes (λ j. among_sessions j (x ∷ xs)) c.core t
      → Outcome address (λ j. among_sessions j (x ∷ xs)) c (x ∷ xs) (left_stages c t address [])
  lost-Removes c t x xs ((k, d, l), (a, b), f) =
      let stay : staying (λ j. among_sessions j (x ∷ xs)) (x ∷ xs) ≡ [] =
        staying-all (λ j. among_sessions j (x ∷ xs)) (x ∷ xs) (λ j e. e) in
      (
        (k, d, erase-Distinct address t.local_to_stages l),
        b,
        f,
        lookup-erase address address t.local_to_stages l
            ∙ rw (same_refl address) refl
            ∙ ap listed (sym stay),
        ap (λ after. c.sessions_to_delete ++ ending address (x ∷ xs) after) (sym stay),
        refl,
      )

  lost-Outcome :
      (c next : Collected) (x : Bytes) (xs : List Bytes)
      → Sound c.core
      → lookup address c.core.local_to_stages ≡ some (x ∷ xs)
      → lost c address ≡ ok next
      → Outcome address (λ j. among_sessions j (x ∷ xs)) c (x ∷ xs) next
  lost-Outcome c next x xs h l e =
      let (stages, a, e1) = bind-Steps (at address c.core.local_to_stages) _ e in
      let (t, f, e2) = bind-Steps (remove_stages c.core stages) _ e1 in
      let there : some (x ∷ xs) ≡ some stages =
        sym l ∙ at-some address c.core.local_to_stages stages a in
      let all : stages ≡ x ∷ xs = sym (listed-some (x ∷ xs) stages there) in
      subst (Outcome address (λ j. among_sessions j (x ∷ xs)) c (x ∷ xs)) (ok-injective e2) (
        lost-Removes c t x xs (
          subst (λ ls. Removes (λ j. among_sessions j ls) c.core t) all
            (remove_stages-Removes stages c.core t h f)))

  -- The collection after an answer is taken in: the answer has left the queue of its session.
  abbrev pub TakenIn :
      Option StageResponse
      → Session
      → List (Option StageResponse)
      → Collected
      → List Bytes
      → Collected
      → Type 0
  TakenIn response session rest c stages next =
      Sound next.core
      × (next.core.local_sessions
          ≡ put address (record session { completion_queue = rest }) c.core.local_sessions)
      × Forgotten (gone response stages) c.core next.core
      × (lookup address next.core.local_to_stages ≡ listed (staying (gone response stages) stages))
      × (next.sessions_to_delete
          ≡ c.sessions_to_delete ++ ending address stages (staying (gone response stages) stages))
      × (next.collected_stats ≡ collected response address c.collected_stats)

  module _ (c : Collected) (session : Session) (rest : List (Option StageResponse)) where
    -- The collection when the answer has left the queue.
    abbrev pub without_answer : Collected
    without_answer = record c {
      core = record c.core {
        local_sessions =
            put address (record session { completion_queue = rest }) c.core.local_sessions;
      };
    }

    answered-TakenIn :
        (response : Option StageResponse) (next : Collected) (x : Bytes) (xs : List Bytes)
        → Sound c.core
        → lookup address c.core.local_to_stages ≡ some (x ∷ xs)
        → answered without_answer address response ≡ ok next
        → TakenIn response session rest c (x ∷ xs) next
    answered-TakenIn none next x xs h l e = lost-Outcome without_answer next x xs h l e
    answered-TakenIn (some (stats n [])) next x xs h l e =
        lost-Outcome without_answer next x xs h l e
    answered-TakenIn (some (stats n (value ∷ values))) next x xs h l e =
        let (mid, f, done) =
          bind-Steps (stage_values without_answer address (value ∷ values)) _ e in
        let (s, b, g, k, d, kept) =
          stage_values-Outcome (value ∷ values) without_answer mid (x ∷ xs) h l f in
        subst (TakenIn (some (stats n (value ∷ values))) session rest c (x ∷ xs))
          (ok-injective done) (s, b, g, k, d, ap (emplace address (stats n (value ∷ values))) kept)
    answered-TakenIn (some (ack n z)) next x xs h l e = absurd (fail-ne-ok e)
    answered-TakenIn (some other) next x xs h l e = absurd (fail-ne-ok e)

  -- With a well-formed tracker, and details and lists of stages that have each key once, when the
  -- collection of an answer of a local controller with stages returns: the answer has left the
  -- queue of its session and no other session has changed. The stages that are gone are those with
  -- a statistic of -1, or all the stages of the local controller if there is no answer or no
  -- statistic in it. They have no details any more, and every other stage has what it had. The
  -- local controller lists the others in their order, or it is not listed and its session is to
  -- be deleted if none is left. An answer with a statistic is kept under the local controller's
  -- address, unless an earlier one is there. The tracker is well formed, and the keys are distinct.
  pub collect_statistics_result-TakenIn :
      (c next : Collected) (session : Session) (response : Option StageResponse)
      (rest : List (Option StageResponse)) (x : Bytes) (xs : List Bytes)
      → Sound c.core
      → lookup address c.core.local_sessions ≡ some session
      → session.completion_queue ≡ response ∷ rest
      → lookup address c.core.local_to_stages ≡ some (x ∷ xs)
      → collect_statistics_result c address ≡ ok next
      → TakenIn response session rest c (x ∷ xs) next
  unfolding collect_statistics_result get_result
  collect_statistics_result-TakenIn c next session response rest x xs h a b l e =
      let taken : answered (without_answer c session rest) address response ≡ ok next =
        rw b at (rw a at e) in
      answered-TakenIn c session rest response next x xs h l taken
