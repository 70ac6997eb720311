-- ===== src/Core/Vanilla/Limit.antt =====
-- The vanilla policy enforces the limit of the system.
pub mod Bound
use cheferd.Prelude.{
  ℕ, zero, suc, ◌+◌, ◌-◌, ◌*◌, ◌/◌, ◌≤◌, ◌<◌, ◌≡◌, refl, sym, subst, ap, ◌∙◌, Bool, true, false,
  not, ◌&&◌, List, [], ◌∷◌, arith, if◌then◌else◌, length, inl, inr, Bool-cases, All, Result, ok,
  fail, ◌>>=◌, Gives, bind-Gives, Gives-mono,
}
use cheferd.Prelude.Int.{
  ℤ, pos, negsuc, pos_part, neg_part, ◌+ℤ◌, ◌-ℤ◌, ◌/ℤ◌, ◌≤ℤ◌, magnitude, int_laws, +ℤ_parts,
  -ℤ_parts, eq_of_parts,
}
use cheferd.Text.{Bytes, same}
use cheferd.Dict.{Dict, keys, value}
use cheferd.Dict.Laws.{Fresh, Distinct, same-sym}
use cheferd.Core.State.{Core, Locations}
use cheferd.Core.Enforce.{send_enforcement_rule}
use cheferd.Core.Enforce.Sent.{Connected, Connected-All, Reachable, Kept, Kept-trans}
use cheferd.Core.Static.{below_threshold, unchanged}
use cheferd.Core.Vanilla.{raise, second_phase}
use cheferd.Core.Vanilla.Enforced.{Near, Raised, raised, kept-Raised, sent-Raised, Kept-raise}

-- Every local controller of every job has a session, and every job has a stage.
abbrev pub AllReachable : Core → Dict Locations → Type 0
AllReachable s [] = Unit
AllReachable s ((app, locations) ∷ rest) = Reachable s locations × AllReachable s rest

pub AllReachable-Kept :
    (s next : Core) (d : Dict Locations) → Kept s next → AllReachable s d → AllReachable next d
AllReachable-Kept s next [] k h = tt
AllReachable-Kept s next ((app, locations) ∷ rest) k ((h, n), hs) =
    ((Connected-All s next (keys locations) k.1.1.1 h, n), AllReachable-Kept s next rest k hs)

-- A job of the second phase, and what is left to the others.
step-Raised :
    (s : Core) (operation app : Bytes) (share : ℤ) (locations : Locations) (updated : Dict Bool)
    → Reachable s locations
    → let next = raised s app share in
      Gives
        (λ r. Raised s app share r.0)
        (if not s.change_in_system && below_threshold app next.job_rates next.job_previous_rates
          then ok (unchanged next app, updated)
          else send_enforcement_rule next app locations operation updated)
step-Raised s operation app share locations updated (h, n) =
    let next : Core = raised s app share in
    elim (Bool-cases
      (not s.change_in_system && below_threshold app next.job_rates next.job_previous_rates)) [
        | inl e ↦ rw e (kept-Raised s app share updated (ground arith) (ground arith))
        | inr e ↦ rw e (
            sent-Raised s app share locations operation updated
              (Connected-All s next (keys locations) (Kept-raise s app _).1.1.1 h, n))
      ]

-- The rates that the phase enforces for some jobs.
abbrev pub Spread : Core → ℤ → List Bytes → Core → Type 0
Spread s share apps next =
    All
      (λ app.
        Near s.change_in_system (value app s.job_rates +ℤ share)
          (value app next.job_previous_rates))
      apps

Spread-step :
    (s t next : Core) (app : Bytes) (share : ℤ) (apps : List Bytes)
    → Raised s app share t
    → Fresh app apps
    → Spread t share apps next
    → Spread s share apps next
Spread-step s t next app share [] r f h = tt
Spread-step s t next app share (j ∷ apps) r (f, fs) (h, hs) = (
  subst (λ z. Near s.change_in_system (z +ℤ share) (value j next.job_previous_rates))
      (r.1.0 j (same-sym app j ∙ f))
      (subst (λ b. Near b (value j t.job_rates +ℤ share) (value j next.job_previous_rates))
        r.1.1.1.0 h),
  Spread-step s t next app share apps r fs hs,
)

abbrev pub Enforced : Core → ℤ → List Bytes → Core → Type 0
Enforced s share apps next =
    Spread s share apps next
    × (((j : Bytes) → Fresh j apps → value j next.job_previous_rates ≡ value j s.job_previous_rates)
        × Kept s next)

pub second_phase-Near :
    (s : Core) (operation : Bytes) (left : ℤ) (n : ℕ) (d : Dict Locations) (updated : Dict Bool)
    → Distinct (keys d)
    → AllReachable s d
    → Gives (λ r. Enforced s (left /ℤ n) (keys d) r.0) (second_phase s operation left n d updated)
unfolding second_phase
second_phase-Near s operation left n [] updated h c =
    (tt, ((λ j f. refl), (refl, (refl, (refl, λ a k. k)))))
second_phase-Near s operation left n ((app, locations) ∷ rest) updated (f, h) (c, cs) =
    bind-Gives (λ r. Raised s app (left /ℤ n) r.0)
      (λ r. Enforced s (left /ℤ n) (app ∷ keys rest) r.0) _ _
      (step-Raised s operation app (left /ℤ n) locations updated c)
      (λ (next, updated') r.
        Gives-mono (λ u. Enforced next (left /ℤ n) (keys rest) u.0)
          (λ u. Enforced s (left /ℤ n) (app ∷ keys rest) u.0) _
          (second_phase-Near next operation left n rest updated' h
            (AllReachable-Kept s next rest r.1.1.1 cs))
          (λ u (a, (b, k)). (
            (
              subst (Near s.change_in_system _) (sym (b app f)) r.0,
              Spread-step s next u.0 app (left /ℤ n) (keys rest) r f a,
            ),
            ((λ j (m, ms). b j ms ∙ r.1.1.0 j m), Kept-trans s next u.0 r.1.1.1 k),
          )))

-- The second phase, over jobs that occur once each, whose local controllers all have sessions and
-- that all have stages, returns. Each job's previous rate is then the rate that it had in the first
-- phase plus its part of what was left, if something has changed in the system, and less than 10
-- from it otherwise.
pub second_phase-Spread :
    (s : Core) (operation : Bytes) (left : ℤ) (n : ℕ) (d : Dict Locations) (updated : Dict Bool)
    → Distinct (keys d)
    → AllReachable s d
    → Gives (λ r. Spread s (left /ℤ n) (keys d) r.0) (second_phase s operation left n d updated)
second_phase-Spread s operation left n d updated h c =
    Gives-mono (λ r. Enforced s (left /ℤ n) (keys d) r.0) _ _
      (second_phase-Near s operation left n d updated h c) (λ r k. k.0)
