-- ===== src/Core/Statistics/Removed.antt =====
-- What the removal of a stage that is gone does to the details of the stages
-- (src/controller/core_control_application.cpp).
use cheferd.Prelude.{
  ◌≡◌, refl, sym, ap, ◌∙◌, subst, Bool, true, false, ◌||◌, Option, none, some, List, [], ◌∷◌,
  if◌then◌else◌, ok, or_fail, out_of_range, Gives, bind-Steps, ok-injective, fail-ne-ok,
}
use cheferd.Text.{Bytes, same}
use cheferd.Text.Number.{stoi}
use cheferd.Dict.{Dict, keys, lookup, erase}
use cheferd.Dict.Laws.{Distinct, lookup-erase, erase-Distinct}
use cheferd.Core.State.{Core, StageInfo, Envs, Locations}
use cheferd.Core.Stages.{at, drop_job, drop_env, without, remove_stage}
use cheferd.Core.Stages.Tracked.{Tracked, remove_stage-Tracked}
use cheferd.Core.Statistics.{among_sessions, remove_stages}

-- The tracker is well formed, and the details and the lists of stages have each key once.
abbrev pub Sound : Core → Type 0
Sound s = Tracked s × Distinct (keys s.stage_info_detailed) × Distinct (keys s.local_to_stages)

-- Neither the lists of stages nor the sessions change.
abbrev pub Kept : Core → Core → Type 0
Kept s next = (next.local_to_stages ≡ s.local_to_stages) × (next.local_sessions ≡ s.local_sessions)

-- The stages for which a test holds have no details any more, and the others have what they had.
abbrev pub Forgotten : (Bytes → Bool) → Core → Core → Type 0
Forgotten gone s next =
    (j : Bytes)
    → lookup j next.stage_info_detailed ≡ (if gone j then none else lookup j s.stage_info_detailed)

abbrev pub Removes : (Bytes → Bool) → Core → Core → Type 0
Removes gone s next = Sound next × Kept s next × Forgotten gone s next

pub at-some : {A : Type 0} (k : Bytes) (d : Dict A) (v : A) → at k d ≡ ok v → lookup k d ≡ some v
at-some {A = A} k d v e = from_option (lookup k d) e
  where
    from_option : (o : Option A) → or_fail out_of_range o ≡ ok v → o ≡ some v
    from_option none e = absurd (fail-ne-ok e)
    from_option (some w) e = ap some (ok-injective e)

drop_env-Kept :
    (s : Core) (name address : Bytes) (locations : Locations) (envs : Envs)
    → ((drop_env s name address locations envs).stage_info_detailed ≡ s.stage_info_detailed)
      × Kept s (drop_env s name address locations envs)
drop_env-Kept s name address locations [] = dropped (erase address locations)
  where
    dropped :
        (left : Locations)
        → ((drop_job s name left).stage_info_detailed ≡ s.stage_info_detailed)
          × Kept s (drop_job s name left)
    dropped [] = (refl, (refl, refl))
    dropped (x ∷ left) = (refl, (refl, refl))
drop_env-Kept s name address locations (env ∷ envs) = (refl, (refl, refl))

forgotten-Removes :
    (s dropped next : Core) (stage : Bytes)
    → Sound s
    → (dropped.stage_info_detailed ≡ s.stage_info_detailed) × Kept s dropped
    → record dropped {
      stage_info_detailed = erase stage dropped.stage_info_detailed;
      change_in_system = true;
    }
      ≡ next
    → Tracked next
    → Removes (λ j. same stage j) s next
forgotten-Removes s dropped next stage (t, d, l) (details, (stages, sessions)) e tracked =
    let left : next.stage_info_detailed ≡ erase stage s.stage_info_detailed =
      ap (λ (c : Core). c.stage_info_detailed) (sym e) ∙ ap (erase stage) details in
    let listed : next.local_to_stages ≡ s.local_to_stages =
      ap (λ (c : Core). c.local_to_stages) (sym e) ∙ stages in
    (
      (
        tracked,
        subst (λ (ds : Dict StageInfo). Distinct (keys ds)) (sym left)
            (erase-Distinct stage s.stage_info_detailed d),
        subst (λ (ls : Dict (List Bytes)). Distinct (keys ls)) (sym listed) l,
      ),
      (listed, ap (λ (c : Core). c.local_sessions) (sym e) ∙ sessions),
      λ j. ap (lookup j) left ∙ lookup-erase stage j s.stage_info_detailed d,
    )

pub remove_stage-Removes :
    (s next : Core) (stage : Bytes)
    → Sound s
    → remove_stage s stage ≡ ok next
    → Removes (λ j. same stage j) s next
unfolding remove_stage
remove_stage-Removes s next stage h e =
    let (info, f, e1) = bind-Steps (at stage s.stage_info_detailed) _ e in
    let (locations, g, e2) = bind-Steps (at info.m_stage_name s.job_location_tracker) _ e1 in
    let (envs, k, e3) = bind-Steps (at info.m_local_address locations) _ e2 in
    let (env, l, e4) = bind-Steps (stoi info.m_stage_env) _ e3 in
    forgotten-Removes s
      (drop_env s info.m_stage_name info.m_local_address locations (without env envs)) next stage h
      (drop_env-Kept s info.m_stage_name info.m_local_address locations (without env envs))
      (ok-injective e4)
      (subst (Gives Tracked) e (
        remove_stage-Tracked s stage info locations envs env h.0
          (at-some stage s.stage_info_detailed info f)
          (at-some info.m_stage_name s.job_location_tracker locations g)
          (at-some info.m_local_address locations envs k) l))

either :
    {A : Type 0} (a b : Bool) (o : Option A)
    → (if b then none else (if a then none else o)) ≡ (if a || b then none else o)
either true true o = refl
either true false o = refl
either false b o = refl

-- One removal after another.
pub Forgotten-trans :
    (p q : Bytes → Bool) (s t u : Core)
    → Forgotten p s t
    → Forgotten q t u
    → Forgotten (λ j. p j || q j) s u
Forgotten-trans p q s t u f g j =
    g j
    ∙ ap (λ o. if q j then none else o) (f j)
    ∙ either (p j) (q j) (lookup j s.stage_info_detailed)

Removes-trans :
    (p q : Bytes → Bool) (s t u : Core)
    → Removes p s t
    → Removes q t u
    → Removes (λ j. p j || q j) s u
Removes-trans p q s t u (a, (b, c), f) (a', (b', c'), f') =
    (a', (b' ∙ b, c' ∙ c), Forgotten-trans p q s t u f f')

Removes-same :
    (p q : Bytes → Bool) (s t : Core) → ((j : Bytes) → p j ≡ q j) → Removes p s t → Removes q s t
Removes-same p q s t e (a, b, f) =
    (a, b, λ j. f j ∙ ap (λ b. if b then none else lookup j s.stage_info_detailed) (e j))

Removes-none : (s : Core) → Sound s → Removes (λ j. false) s s
Removes-none s h = (h, (refl, refl), λ j. refl)

-- All the stages of a list.
pub remove_stages-Removes :
    (stages : List Bytes) (s next : Core)
    → Sound s
    → remove_stages s stages ≡ ok next
    → Removes (λ j. among_sessions j stages) s next
unfolding remove_stages
remove_stages-Removes [] s next h e =
    subst (Removes (λ j. false) s) (ok-injective e) (Removes-none s h)
remove_stages-Removes (stage ∷ stages) s next h e =
    let (t, f, done) = bind-Steps (remove_stage s stage) _ e in
    let first : Removes (λ j. same stage j) s t = remove_stage-Removes s t stage h f in
    Removes-same (λ j. same stage j || among_sessions j stages) _ s next
      (λ j. or_if (same stage j) (among_sessions j stages))
      (Removes-trans (λ j. same stage j) (λ j. among_sessions j stages) s t next first
        (remove_stages-Removes stages t next first.0 done))
  where
    or_if : (a b : Bool) → (a || b) ≡ (if a then true else b)
    or_if true b = refl
    or_if false b = refl
