-- ===== src/Core/Enforce/Sent.antt =====
-- What sending an enforcement rule needs, and what it changes.
use cheferd.Prelude.{
  ◌≤◌, ◌≡◌, refl, ◌∙◌, Bool, true, false, Option, none, some, List, [], ◌∷◌, arith, ◌==◌, All, inl,
  inr, Bool-cases, Option-cases, Gives, bind-Gives, Gives-mono,
}
use cheferd.Prelude.Int.{ℤ, ◌/ℤ◌}
use cheferd.Text.{Bytes, same}
use cheferd.Dict.{Dict, keys, lookup, put, touch, value}
use cheferd.Dict.Laws.{lookup-put}
use cheferd.Core.State.{Core, Locations, submit_rule}
use cheferd.Core.Enforce.{
  enforcement_rule, send_rules, send_enforcement_rule, total_stages, limit_per_stage,
}

abbrev is_some {ℓ} : {A : Type ℓ} → Option A → Bool
is_some none = false
is_some (some a) = true

-- The local controller has a session.
abbrev pub Connected : Core → Bytes → Type 0
Connected s address = is_some (lookup address s.local_sessions) ≡ true

-- Every local controller of the job has a session, and the job has a stage.
abbrev pub Reachable : Core → Locations → Type 0
Reachable s locations = All (Connected s) (keys locations) × (1 ≤ total_stages locations)

-- Nothing but sessions and the job's own entries has changed from s to next.
abbrev pub Kept : Core → Core → Type 0
Kept s next =
    (next.change_in_system ≡ s.change_in_system)
    × ((next.job_location_tracker ≡ s.job_location_tracker)
        × ((next.maximum_limit ≡ s.maximum_limit)
            × ((address : Bytes) → Connected s address → Connected next address)))

abbrev pub SessionsOnly : Core → Core → Type 0
SessionsOnly s next =
    (next.job_rates ≡ s.job_rates)
    × ((next.job_previous_rates ≡ s.job_previous_rates) × Kept s next)

is_some-put {ℓ} :
    {V : Type ℓ} (k j : Bytes) (v : V) (d : Dict V)
    → is_some (lookup j d) ≡ true
    → is_some (lookup j (put k v d)) ≡ true
is_some-put k j v d h = elim (Bool-cases (same k j)) [
  | inl e ↦ rw (lookup-put k j v d, e) refl
  | inr e ↦ rw (lookup-put k j v d, e) h
]

pub Connected-submit_rule :
    (s : Core) (address rule : Bytes)
    → Connected s address
    → Gives (SessionsOnly s) (submit_rule s address rule)
unfolding submit_rule
Connected-submit_rule s address rule h = elim (Option-cases (lookup address s.local_sessions)) [
  | inr (session, e) ↦
      rw e (refl, (refl, (refl, (refl, (refl, λ k c. is_some-put address k _ s.local_sessions c)))))
  | inl e ↦ cc
]

pub Connected-All :
    (s next : Core) (ks : List Bytes)
    → ((address : Bytes) → Connected s address → Connected next address)
    → All (Connected s) ks
    → All (Connected next) ks
Connected-All s next [] f h = tt
Connected-All s next (k ∷ ks) f (h, hs) = (f k h, Connected-All s next ks f hs)

pub Kept-trans : (s t u : Core) → Kept s t → Kept t u → Kept s u
Kept-trans s t u (a, (b, (c, d))) (a', (b', (c', d'))) =
    (a' ∙ a, (b' ∙ b, (c' ∙ c, λ k h. d' k (d k h))))

SessionsOnly-trans : (s t u : Core) → SessionsOnly s t → SessionsOnly t u → SessionsOnly s u
SessionsOnly-trans s t u (a, (b, k)) (a', (b', k')) = (a' ∙ a, (b' ∙ b, Kept-trans s t u k k'))

send_rules-SessionsOnly :
    (s : Core) (app operation : Bytes) (limit : ℤ) (locations : Locations) (updated : Dict Bool)
    → All (Connected s) (keys locations)
    → Gives (λ r. SessionsOnly s r.0) (send_rules s app operation limit locations updated)
unfolding send_rules
send_rules-SessionsOnly s app operation limit [] updated h =
    (refl, (refl, (refl, (refl, (refl, λ k c. c)))))
send_rules-SessionsOnly s app operation limit ((address, envs) ∷ rest) updated (h, hs) =
    bind-Gives (SessionsOnly s) (λ r. SessionsOnly s r.0)
      (submit_rule s address (enforcement_rule app operation envs limit)) _
      (Connected-submit_rule s address _ h)
      (λ next k.
        Gives-mono (λ r. SessionsOnly next r.0) (λ r. SessionsOnly s r.0) _
          (send_rules-SessionsOnly next app operation limit rest _
            (Connected-All s next (keys rest) k.1.1.1.1.1 hs))
          (λ r m. SessionsOnly-trans s next r.0 k m))

-- The job's rate is the one it was last sent, and the other jobs keep theirs.
abbrev pub Sent : Core → Bytes → Core → Type 0
Sent s app next =
    (next.job_rates ≡ touch app s.job_rates)
    × ((next.job_previous_rates ≡ put app (value app s.job_rates) s.job_previous_rates)
        × Kept s next)

pub send_enforcement_rule-Sent :
    (s : Core) (app : Bytes) (locations : Locations) (operation : Bytes) (updated : Dict Bool)
    → Reachable s locations
    → Gives (λ r. Sent s app r.0) (send_enforcement_rule s app locations operation updated)
unfolding send_enforcement_rule limit_per_stage
send_enforcement_rule-Sent s app locations operation updated (h, n) =
    let rate : ℤ = value app s.job_rates in
    let next : Core = record s {
      job_rates = touch app s.job_rates;
      job_previous_rates = put app rate s.job_previous_rates;
    } in
    let positive : (total_stages locations == 0) ≡ false = ground arith in
    rw positive (
      Gives-mono (λ r. SessionsOnly next r.0) (λ r. Sent s app r.0) _
        (send_rules-SessionsOnly next app operation (rate /ℤ total_stages locations) locations
          updated h)
        (λ r k. k))

-- With a session for every local controller of a job and at least one stage of it, sending its rule
-- returns, and the job's previous rate is then the rate it has; the other jobs keep theirs, and no
-- rate changes but that a missing one is made 0.
pub send_enforcement_rule-rates :
    (s : Core) (app : Bytes) (locations : Locations) (operation : Bytes) (updated : Dict Bool)
    → All (Connected s) (keys locations)
    → 1 ≤ total_stages locations
    → Gives
        (λ r.
          (r.0.job_rates ≡ touch app s.job_rates)
          × (r.0.job_previous_rates ≡ put app (value app s.job_rates) s.job_previous_rates))
        (send_enforcement_rule s app locations operation updated)
send_enforcement_rule-rates s app locations operation updated h n =
    Gives-mono (λ r. Sent s app r.0) _ _
      (send_enforcement_rule-Sent s app locations operation updated (h, n)) (λ r k. (k.0, k.1.0))
