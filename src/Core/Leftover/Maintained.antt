-- ===== src/Core/Leftover/Maintained.antt =====
-- Which jobs keep their previous rate in the leftover policy
-- (src/controller/core_control_application.cpp).
use cheferd.Prelude.{◌≡◌, refl, ap, ◌∙◌, Bool, some, List, [], ◌∷◌, All}
use cheferd.Text.{Bytes, same_refl}
use cheferd.Dict.{lookup, value}
use cheferd.Dict.Laws.{Fresh, Distinct, lookup-put}
use cheferd.Core.State.{Core}
use cheferd.Core.Vanilla.Allocation.{value-touch}
use cheferd.Core.Leftover.Arithmetic.{Floats}
use cheferd.Core.Leftover.{Decided, maintains, decide_jobs}

module _ {F D : Type 0} (floats : Floats F D) where
  module _ (s : Core) (room : Bool) where
    -- Whether a job keeps its rate, from the previous rates at the start.
    abbrev pub keeps : Decided → Bytes → Bool
    keeps d app =
        maintains floats s.change_in_system room (value app s.job_rates) (value app d.previous)

    pub previous-decide_jobs :
        (apps : List Bytes) (d : Decided) (j : Bytes)
        → value j (decide_jobs floats s room apps d).previous ≡ value j d.previous
    unfolding decide_jobs
    previous-decide_jobs [] d j = refl
    previous-decide_jobs (app ∷ apps) d j =
        previous-decide_jobs apps _ j ∙ value-touch app j d.previous

    maintain-Fresh :
        (apps : List Bytes) (d : Decided) (j : Bytes)
        → Fresh j apps
        → lookup j (decide_jobs floats s room apps d).maintain ≡ lookup j d.maintain
    unfolding decide_jobs
    maintain-Fresh [] d j f = refl
    maintain-Fresh (app ∷ apps) d j (f, fs) =
        maintain-Fresh apps _ j fs ∙ (lookup-put app j (keeps d app) d.maintain ∙ rw f refl)

    pub maintain-decide_jobs :
        (apps : List Bytes) (d e : Decided)
        → ((j : Bytes) → value j e.previous ≡ value j d.previous)
        → Distinct apps
        → All
            (λ app. lookup app (decide_jobs floats s room apps e).maintain ≡ some (keeps d app))
            apps
    unfolding decide_jobs
    maintain-decide_jobs [] d e h k = tt
    maintain-decide_jobs (app ∷ apps) d e h (f, k) = (
      maintain-Fresh apps _ app f
          ∙ (lookup-put app app (keeps e app) e.maintain
              ∙ rw (same_refl app) (
                  ap
                    (λ z. some (maintains floats s.change_in_system room (value app s.job_rates) z))
                    (h app))),
      maintain-decide_jobs apps d _ (λ j. value-touch app j e.previous ∙ h j) k,
    )

  abbrev pub undecided : Core → Decided
  undecided s = record {
    maintain = [];
    previous = s.job_previous_rates;
    maintained_rate = 0;
    updated_rate = 0;
  }
