-- ===== src/Core/Statistics/Answered.antt =====
-- What the global controller makes of the answer of a local controller
-- (src/controller/core_control_application.cpp).
use cheferd.Prelude.{
  ◌≡◌, refl, ap, ◌∙◌, Bool, false, ◌||◌, Option, none, some, List, [], ◌∷◌, ◌++◌, append-nil,
  if◌then◌else◌, arith,
}
use cheferd.Prelude.Int.{ℤ, minus_one, ◌==ℤ◌}
use cheferd.Text.{Bytes, same, same_refl}
use cheferd.Dict.{Dict, lookup, emplace}
use cheferd.Dict.Laws.{lookup-put, lookup-erase, put-Distinct, erase-Distinct, same-sym}
use cheferd.Core.State.{Core, StageResponse, stats, ack, other}
use cheferd.Core.Statistics.{Collected, among_sessions, without_stage, left_stages}
use cheferd.Core.Statistics.Removed.{Sound, Removes, Forgotten, Forgotten-trans}

-- A statistic of -1 for the stage.
abbrev pub lost_in : Dict ℤ → Bytes → Bool
lost_in [] j = false
lost_in ((stage, rate) ∷ rest) j =
    if rate ==ℤ minus_one then same stage j || lost_in rest j else lost_in rest j

-- The stages that are gone by an answer: all that are listed, if there is none or it is empty.
abbrev pub gone : Option StageResponse → List Bytes → Bytes → Bool
gone none stages j = among_sessions j stages
gone (some (stats n [])) stages j = among_sessions j stages
gone (some (stats n (value ∷ values))) stages j = lost_in (value ∷ values) j
gone (some (ack n z)) stages j = false
gone (some other) stages j = false

abbrev pub staying : (Bytes → Bool) → List Bytes → List Bytes
staying gone [] = []
staying gone (stage ∷ stages) =
    if gone stage then staying gone stages else stage ∷ staying gone stages

-- A local controller without a stage is not listed.
abbrev pub listed : List Bytes → Option (List Bytes)
listed [] = none
listed (stage ∷ stages) = some (stage ∷ stages)

-- The session to delete when the stages of a local controller become others.
abbrev pub ending : Bytes → List Bytes → List Bytes → List Bytes
ending address [] after = []
ending address (stage ∷ stages) [] = address ∷ []
ending address (stage ∷ stages) (left ∷ after) = []

-- An answer with a statistic is collected, unless there is one under the address.
abbrev pub collected : Option StageResponse → Bytes → Dict StageResponse → Dict StageResponse
collected none address answers = answers
collected (some (stats n [])) address answers = answers
collected (some (stats n (value ∷ values))) address answers =
    emplace address (stats n (value ∷ values)) answers
collected (some (ack n z)) address answers = answers
collected (some other) address answers = answers

pub staying-nothing :
    (gone : Bytes → Bool) (stages : List Bytes)
    → ((j : Bytes) → gone j ≡ false)
    → staying gone stages ≡ stages
staying-nothing gone [] h = refl
staying-nothing gone (stage ∷ stages) h =
    rw (h stage) (ap (◌∷◌ stage) (staying-nothing gone stages h))

staying-same :
    (p q : Bytes → Bool) (stages : List Bytes)
    → ((j : Bytes) → p j ≡ q j)
    → staying p stages ≡ staying q stages
staying-same p q [] h = refl
staying-same p q (stage ∷ stages) h = rw (h stage, staying-same p q stages h) refl

staying-without_stage :
    (p : Bytes → Bool) (stage : Bytes) (stages : List Bytes)
    → staying p (without_stage stage stages) ≡ staying (λ j. same stage j || p j) stages
unfolding without_stage
staying-without_stage p stage [] = refl
staying-without_stage p stage (t ∷ stages) =
    ground (arith, same-sym t stage, staying-without_stage p stage stages)

pub listed-some : (stages left : List Bytes) → listed stages ≡ some left → stages ≡ left
listed-some [] left e = absurd cc
listed-some (stage ∷ stages) left e = cc

module _ (address : Bytes) where
  ending-same :
      (x y : Bytes) (xs ys after : List Bytes)
      → ending address (x ∷ xs) after ≡ ending address (y ∷ ys) after
  ending-same x y xs ys [] = refl
  ending-same x y xs ys (z ∷ after) = refl

  pub ending_self : (stages : List Bytes) → ending address stages stages ≡ []
  ending_self [] = refl
  ending_self (stage ∷ stages) = refl

  -- What the stages for which p holds leave of the stages of the local controller.
  abbrev pub Outcome : (Bytes → Bool) → Collected → List Bytes → Collected → Type 0
  Outcome p c stages next =
      Sound next.core
      × (next.core.local_sessions ≡ c.core.local_sessions)
      × Forgotten p c.core next.core
      × (lookup address next.core.local_to_stages ≡ listed (staying p stages))
      × (next.sessions_to_delete ≡ c.sessions_to_delete ++ ending address stages (staying p stages))
      × (next.collected_stats ≡ c.collected_stats)

  pub Outcome-same :
      (p q : Bytes → Bool) (c : Collected) (stages : List Bytes) (next : Collected)
      → ((j : Bytes) → p j ≡ q j)
      → Outcome p c stages next
      → Outcome q c stages next
  Outcome-same p q c stages next h (a, b, f, l, d, k) = (
    a,
    b,
    λ j. f j ∙ ap (λ b. if b then none else lookup j c.core.stage_info_detailed) (h j),
    l ∙ ap listed (staying-same p q stages h),
    d
        ∙ ap (λ after. c.sessions_to_delete ++ ending address stages after)
            (staying-same p q stages h),
    k,
  )

  pub left-Sound :
      (left : List Bytes) (c : Collected) (s : Core)
      → Sound s
      → Sound (left_stages c s address left).core
        × (lookup address (left_stages c s address left).core.local_to_stages ≡ listed left)
  left-Sound [] c s (t, d, l) = (
    (t, d, erase-Distinct address s.local_to_stages l),
    lookup-erase address address s.local_to_stages l ∙ rw (same_refl address) refl,
  )
  left-Sound (y ∷ ys) c s (t, d, l) = (
    (t, d, put-Distinct address (y ∷ ys) s.local_to_stages l),
    lookup-put address address (y ∷ ys) s.local_to_stages ∙ rw (same_refl address) refl,
  )

  module _ (p : Bytes → Bool) (c next : Collected) (s : Core) (stage x : Bytes)
      (xs : List Bytes) where
    pub left-Outcome :
        (left : List Bytes)
        → Removes (λ j. same stage j) c.core s
        → left ≡ without_stage stage (x ∷ xs)
        → Outcome p (left_stages c s address left) left next
        → Outcome (λ j. same stage j || p j) c (x ∷ xs) next
    left-Outcome [] (h, (a, b), f) e (t, b', f', l, d, k) =
        let stay : [] ≡ staying (λ j. same stage j || p j) (x ∷ xs) =
          ap (staying p) e ∙ staying-without_stage p stage (x ∷ xs) in
        (
          t,
          b' ∙ b,
          Forgotten-trans (λ j. same stage j) p c.core s next.core f f',
          l ∙ ap listed stay,
          d
              ∙ append-nil (c.sessions_to_delete ++ address ∷ [])
              ∙ ap (λ after. c.sessions_to_delete ++ ending address (x ∷ xs) after) stay,
          k,
        )
    left-Outcome (y ∷ ys) (h, (a, b), f) e (t, b', f', l, d, k) =
        let stay : staying p (y ∷ ys) ≡ staying (λ j. same stage j || p j) (x ∷ xs) =
          ap (staying p) e ∙ staying-without_stage p stage (x ∷ xs) in
        (
          t,
          b' ∙ b,
          Forgotten-trans (λ j. same stage j) p c.core s next.core f f',
          l ∙ ap listed stay,
          d
              ∙ ap (◌++◌ c.sessions_to_delete) (ending-same y x ys xs (staying p (y ∷ ys)))
              ∙ ap (λ after. c.sessions_to_delete ++ ending address (x ∷ xs) after) stay,
          k,
        )
