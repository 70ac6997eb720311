-- ===== src/Core/Vanilla/Enforced.antt =====
-- What the second phase of the vanilla policy enforces: job_previous_rates holds the rate that each
-- job was last sent.
use cheferd.Prelude.{
  ◌<◌, ◌≡◌, refl, sym, subst, ap, ◌∙◌, Bool, true, false, arith, ltb, ok, Gives, Gives-mono,
}
use cheferd.Prelude.Int.{ℤ, minus_one, ◌+ℤ◌, ◌-ℤ◌, magnitude}
use cheferd.Text.{Bytes, same}
use cheferd.Dict.{Dict, put, value}
use cheferd.Core.State.{Core, Locations}
use cheferd.Core.Enforce.{send_enforcement_rule}
use cheferd.Core.Enforce.Sent.{Reachable, Kept, Kept-trans, Sent, send_enforcement_rule-Sent}
use cheferd.Core.Static.{below_threshold, unchanged}
use cheferd.Core.Vanilla.{raise}
use cheferd.Core.Vanilla.Allocation.{value-put_self, value-put_ne, value-touch}

-- The rate that is enforced is the one that is assigned, or below the threshold from it while
-- nothing has changed.
abbrev pub Near : Bool → ℤ → ℤ → Type 0
Near true assigned enforced = enforced ≡ assigned
Near false assigned enforced = magnitude (assigned -ℤ enforced) < 10

pub Near-self : (b : Bool) (a : ℤ) → Near b a a
unfolding ◌-ℤ◌
Near-self true a = refl
Near-self false a = ground arith

pub Near-false : (b : Bool) (a e : ℤ) → b ≡ false → ltb (magnitude (a -ℤ e)) 10 ≡ true → Near b a e
Near-false true a e h k = cc
Near-false false a e h k = ground arith

-- One job of the phase: what it is left with, and that the other jobs keep their rates.
abbrev pub Raised : Core → Bytes → ℤ → Core → Type 0
Raised s app share next =
    Near s.change_in_system (value app s.job_rates +ℤ share) (value app next.job_previous_rates)
    × (((j : Bytes) → same app j ≡ false → value j next.job_rates ≡ value j s.job_rates)
        × (((j : Bytes)
              → same app j ≡ false
              → value j next.job_previous_rates ≡ value j s.job_previous_rates)
            × Kept s next))

pub Kept-raise : (s : Core) (app : Bytes) (rate : ℤ) → Kept s (raise s app rate)
unfolding raise
Kept-raise s app rate = (refl, (refl, (refl, λ a c. c)))

rates-raise :
    (s : Core) (app : Bytes) (rate : ℤ) → (raise s app rate).job_rates ≡ put app rate s.job_rates
unfolding raise
rates-raise s app rate = refl

value-raise :
    (s : Core) (app : Bytes) (rate : ℤ) (j : Bytes)
    → value j (raise s app rate).job_previous_rates ≡ value j s.job_previous_rates
unfolding raise
value-raise s app rate j = ground (arith, value-touch app j s.job_previous_rates)

module _ (s : Core) (app : Bytes) (share : ℤ) where
  abbrev assigned : ℤ
  assigned = value app s.job_rates +ℤ share

  abbrev pub raised : Core
  raised = raise s app assigned

  given : value app raised.job_rates ≡ assigned
  given = ap (value app) (rates-raise s app assigned) ∙ value-put_self app assigned s.job_rates

  others : (j : Bytes) → same app j ≡ false → value j raised.job_rates ≡ value j s.job_rates
  others j n = ap (value j) (rates-raise s app assigned) ∙ value-put_ne app j assigned s.job_rates n

  -- The rule is not sent.
  pub kept-Raised :
      (updated : Dict Bool)
      → s.change_in_system ≡ false
      → below_threshold app raised.job_rates raised.job_previous_rates ≡ true
      → Gives
          (λ (r : Core × Dict Bool). Raised s app share r.0)
          (ok (unchanged raised app, updated))
  kept-Raised updated h k = (
    Near-false s.change_in_system assigned (value app raised.job_previous_rates) h
        (subst (λ a. ltb (magnitude (a -ℤ value app raised.job_previous_rates)) 10 ≡ true) given k),
    (
      (λ j n. value-put_ne app j minus_one raised.job_rates n ∙ others j n),
      ((λ j n. value-raise s app assigned j), Kept-raise s app assigned),
    ),
  )

  -- The rule is sent.
  pub sent-Raised :
      (locations : Locations) (operation : Bytes) (updated : Dict Bool)
      → Reachable raised locations
      → Gives
          (λ r. Raised s app share r.0)
          (send_enforcement_rule raised app locations operation updated)
  sent-Raised locations operation updated h =
      Gives-mono (λ r. Sent raised app r.0) (λ r. Raised s app share r.0) _
        (send_enforcement_rule-Sent raised app locations operation updated h)
        (λ (next, u) (a, (b, k)). (
          subst (Near s.change_in_system assigned)
              (sym (ap (value app) b ∙ (value-put_self app _ raised.job_previous_rates ∙ given)))
              (Near-self s.change_in_system assigned),
          (
            (λ j n. ap (value j) a ∙ (value-touch app j raised.job_rates ∙ others j n)),
            (
              (λ j n.
                  ap (value j) b
                  ∙ (value-put_ne app j _ raised.job_previous_rates n
                      ∙ value-raise s app assigned j)),
              Kept-trans s raised next (Kept-raise s app assigned) k,
            ),
          ),
        ))
