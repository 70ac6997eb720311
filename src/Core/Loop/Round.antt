-- ===== src/Core/Loop/Round.antt =====
-- A round of the feedback loop ends (src/controller/core_control_application.cpp).
use cheferd.Prelude.{
  ℕ, ◌<◌, ◌≡◌, refl, sym, ap, ◌∙◌, subst, Option, none, some, List, [], length, Result, ok, fail,
  ◌>>=◌,
}
use cheferd.Text.{Bytes}
use cheferd.Config.Options.{ControlType}
use cheferd.Core.State.{Core, StageInfo, StageResponse}
use cheferd.Core.Leftover.Arithmetic.{Floats}
use cheferd.Core.Loop.{
  Rounds, after, drain_local_controllers, drain_data_planes, controlled_round, feedback_round,
}
use cheferd.Core.Loop.Handled.{Counted}
use cheferd.Core.Loop.Ended.{
  Joined, Drained, drain_local_controllers-Joined, drain_data_planes-Drained,
}

-- Both loops over what waits, one after the other.
abbrev connecting : ℕ → (Bytes → List (Option StageResponse)) → Core → Option (Result Core)
connecting fuel joins s = after (drain_local_controllers fuel joins s) (drain_data_planes fuel)

stages_next :
    (fuel : ℕ) (infos : List StageInfo) (r : Result Core)
    → Joined infos r
    → length infos < fuel
    → (t : Result Core) × (after (some r) (drain_data_planes fuel) ≡ some t) × (Drained [] t)
stages_next fuel infos (ok next) (c, q, d) h =
    let (t, run, drained) =
      drain_data_planes-Drained fuel next c
        (subst (λ (waiting : List StageInfo). length waiting < fuel) (sym d) h) in
    (t, run, subst (λ addresses. Drained addresses t) q drained)
stages_next fuel infos (fail e) joined h = (fail e, refl, tt)

connecting-Drained :
    (fuel : ℕ) (joins : Bytes → List (Option StageResponse)) (s : Core)
    → Counted s
    → length s.local_queue < fuel
    → length s.local_to_data_queue < fuel
    → (t : Result Core) × (connecting fuel joins s ≡ some t) × (Drained [] t)
connecting-Drained fuel joins s c h k =
    let (r, run, joined) = drain_local_controllers-Joined fuel joins s c h in
    let (t, rest, drained) = stages_next fuel s.local_to_data_queue r joined k in
    (t, ap (λ o. after o (drain_data_planes fuel)) run ∙ rest, drained)

after_both :
    {A : Type 0} (o : Option (Result Core)) (f : Core → Option (Result Core)) (g : Core → Result A)
    (t : Result Core)
    → after o f ≡ some t
    → (after o λ joined. after (f joined) λ connected. some (g connected)) ≡ some (t >>= g)
after_both none f g t e = absurd cc
after_both (some (ok joined)) f g t e = rw e (after_one t)
  where
    after_one :
        (t : Result Core) → (after (some t) λ connected. some (g connected)) ≡ some (t >>= g)
    after_one (ok connected) = refl
    after_one (fail x) = refl
after_both (some (fail x)) f g (ok connected) e = absurd cc
after_both (some (fail x)) f g (fail y) e =
    let same_fault : x ≡ y = cc in ap (λ fault. some (fail fault)) same_fault

module _ {F D : Type 0} (floats : Floats F D) where
  -- If the counters of what waits are the lengths of the queues, a round of the feedback loop ends,
  -- with fuel above both lengths, whatever the control type: it is the control of a state in which
  -- neither a local controller nor a stage waits, or a call in its loops has not returned.
  pub feedback_round-Drained :
      (fuel : ℕ) (joins : Bytes → List (Option StageResponse)) (kind : ControlType) (l : Rounds)
      → Counted l.core
      → length l.core.local_queue < fuel
      → length l.core.local_to_data_queue < fuel
      → (t : Result Core) × (feedback_round floats fuel joins kind l
          ≡ some (t >>= controlled_round floats kind l))
        × (Drained [] t)
  unfolding feedback_round
  feedback_round-Drained fuel joins kind l c h k =
      let (t, run, drained) = connecting-Drained fuel joins l.core c h k in
      (
        t,
        after_both (drain_local_controllers fuel joins l.core) (drain_data_planes fuel)
            (controlled_round floats kind l) t run,
        drained,
      )
