-- ===== src/Core/Static/Enforced.antt =====
-- What the static policy enforces: job_previous_rates holds the rate that each job was last sent
-- (src/controller/core_control_application.cpp).
use cheferd.Prelude.{
  ◌≡◌, refl, sym, ap, ◌∙◌, subst, Bool, true, false, Option, none, some, List, [], ◌∷◌, arith,
  if◌then◌else◌, ltb, All, inl, inr, Bool-cases, ok, Gives, bind-Gives, Gives-mono,
}
use cheferd.Prelude.Int.{ℤ, minus_one, ◌-ℤ◌, ◌==ℤ◌, magnitude}
use cheferd.Text.{Bytes, same, same_sound}
use cheferd.Dict.{Dict, keys, lookup, put, touch, value}
use cheferd.Dict.Laws.{Fresh, Distinct, lookup-Fresh, same-sym}
use cheferd.Core.State.{Core, Locations}
use cheferd.Core.Enforce.{send_enforcement_rule}
use cheferd.Core.Enforce.Sent.{Reachable, Kept, Sent, send_enforcement_rule-Sent}
use cheferd.Core.Static.{below_threshold, touched, unchanged, rates_from_demands, enforce_static}
use cheferd.Core.Vanilla.Allocation.{value-put_self, value-put_ne, value-touch}
use cheferd.Core.Vanilla.Enforced.{Near, Near-self, Near-false}
use cheferd.Core.Vanilla.Limit.{AllReachable, AllReachable-Kept}

-- One job of the loop: what it is left with, and that the other jobs keep their rates.
abbrev Applied : Core → Bytes → Core → Type 0
Applied s app next =
    Near false (value app s.job_rates) (value app next.job_previous_rates)
    × (((j : Bytes) → same app j ≡ false → value j next.job_rates ≡ value j s.job_rates)
        × (((j : Bytes)
              → same app j ≡ false
              → value j next.job_previous_rates ≡ value j s.job_previous_rates)
            × Kept s next))

module _ (s : Core) (app : Bytes) where
  step-Applied :
      (operation : Bytes) (locations : Locations) (updated : Dict Bool)
      → Reachable s locations
      → Gives
          (λ r. Applied s app r.0)
          (if below_threshold app (touched s app).job_rates (touched s app).job_previous_rates
            then ok (unchanged (touched s app) app, updated)
            else send_enforcement_rule (touched s app) app locations operation updated)
  step-Applied operation locations updated h =
      elim (Bool-cases
        (below_threshold app (touched s app).job_rates (touched s app).job_previous_rates)) [
          | inl e ↦ rw e (
            Near-false false _ _ refl (
                subst
                  (λ a. ltb (magnitude (a -ℤ value app (touch app s.job_previous_rates))) 10 ≡ true)
                  (value-touch app app s.job_rates) e),
            (
              (λ j n.
                  value-put_ne app j minus_one (touch app s.job_rates) n
                  ∙ value-touch app j s.job_rates),
              ((λ j n. value-touch app j s.job_previous_rates), (refl, (refl, (refl, λ a c. c)))),
            ),
          )
          | inr e ↦ rw e (
              Gives-mono (λ r. Sent (touched s app) app r.0) (λ r. Applied s app r.0) _
                (send_enforcement_rule-Sent (touched s app) app locations operation updated h)
                (λ r (a, (b, k)). (
                  subst (Near false (value app s.job_rates))
                      (sym (
                        ap (value app) b
                        ∙ (value-put_self app _ (touch app s.job_previous_rates)
                            ∙ value-touch app app s.job_rates)))
                      (Near-self false (value app s.job_rates)),
                  (
                    (λ j n.
                        ap (value j) a
                        ∙ (value-touch app j (touch app s.job_rates)
                            ∙ value-touch app j s.job_rates)),
                    (
                      (λ j n.
                          ap (value j) b
                          ∙ (value-put_ne app j _ (touch app s.job_previous_rates) n
                              ∙ value-touch app j s.job_previous_rates)),
                      k,
                    ),
                  ),
                )))
        ]

-- Each job's previous rate is its rate, up to the threshold.
abbrev pub Settled : Core → List Bytes → Core → Type 0
Settled s apps next =
    All (λ app. Near false (value app s.job_rates) (value app next.job_previous_rates)) apps

Settled-step :
    (s t next : Core) (app : Bytes) (apps : List Bytes)
    → Applied s app t
    → Fresh app apps
    → Settled t apps next
    → Settled s apps next
Settled-step s t next app [] r f h = tt
Settled-step s t next app (j ∷ apps) r (f, fs) (h, hs) = (
  subst (λ z. Near false z (value j next.job_previous_rates)) (r.1.0 j (same-sym app j ∙ f)) h,
  Settled-step s t next app apps r fs hs,
)

abbrev Outcome : Core → List Bytes → Core → Type 0
Outcome s apps next =
    Settled s apps next
    × ((j : Bytes) → Fresh j apps → value j next.job_previous_rates ≡ value j s.job_previous_rates)

enforce_static-Outcome :
    (s : Core) (operation : Bytes) (d : Dict Locations) (updated : Dict Bool)
    → Distinct (keys d)
    → AllReachable s d
    → Gives (λ r. Outcome s (keys d) r.0) (enforce_static s operation d updated)
unfolding enforce_static
enforce_static-Outcome s operation [] updated h c = (tt, λ j f. refl)
enforce_static-Outcome s operation ((app, locations) ∷ rest) updated (f, h) (c, cs) =
    bind-Gives (λ r. Applied s app r.0) (λ r. Outcome s (app ∷ keys rest) r.0) _ _
      (step-Applied s app operation locations updated c)
      (λ (next, updated') r.
        Gives-mono (λ u. Outcome next (keys rest) u.0) (λ u. Outcome s (app ∷ keys rest) u.0) _
          (enforce_static-Outcome next operation rest updated' h
            (AllReachable-Kept s next rest r.1.1.1 cs))
          (λ u (a, b). (
            (
              subst (Near false _) (sym (b app f)) r.0,
              Settled-step s next u.0 app (keys rest) r f a,
            ),
            (λ j (m, ms). b j ms ∙ r.1.1.0 j m),
          )))

-- The loop of the static policy, over jobs that occur once each, whose local controllers all have
-- sessions and that all have stages, returns, and each job's previous rate is then less than 10
-- from the rate that it had before the loop.
pub enforce_static-Settled :
    (s : Core) (operation : Bytes) (d : Dict Locations) (updated : Dict Bool)
    → Distinct (keys d)
    → AllReachable s d
    → Gives (λ r. Settled s (keys d) r.0) (enforce_static s operation d updated)
enforce_static-Settled s operation d updated h c =
    Gives-mono (λ r. Outcome s (keys d) r.0) (λ r. Settled s (keys d) r.0) _
      (enforce_static-Outcome s operation d updated h c) (λ r k. k.0)

-- The demand that is set, if there is one, and the old rate otherwise.
abbrev pub demand_or : Option ℤ → ℤ → ℤ
demand_or none rate = rate
demand_or (some demand) rate = if demand ==ℤ minus_one then rate else demand

-- Over demands of jobs that occur once each, a job's rate becomes its demand, if it has one that is
-- not -1, and stays as it is otherwise.
pub value-rates_from_demands :
    (d rates : Dict ℤ) (job : Bytes)
    → Distinct (keys d)
    → value job (rates_from_demands d rates) ≡ demand_or (lookup job d) (value job rates)
unfolding rates_from_demands lookup
value-rates_from_demands [] rates job h = refl
value-rates_from_demands ((k, demand) ∷ d) rates job (f, h) =
    let rates' : Dict ℤ = if demand ==ℤ minus_one then rates else put k demand rates in
    value-rates_from_demands d rates' job h ∙ elim (Bool-cases (same k job)) [
      | inl e ↦
          rw (e, lookup-Fresh job d (subst (λ i. Fresh i (keys d)) (same_sound k job e) f))
            (ground (arith, value-put_self k demand rates, same_sound k job e))
      | inr e ↦
          rw e (ap (demand_or (lookup job d)) (ground (arith, value-put_ne k job demand rates e)))
    ]
