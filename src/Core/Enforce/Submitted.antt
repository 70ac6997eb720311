-- ===== src/Core/Enforce/Submitted.antt =====
-- Which rules the local controllers get.
use cheferd.Prelude.{
  ◌≡◌, refl, ap, ◌∙◌, Bool, false, Option, none, some, List, [], ◌∷◌, ◌++◌, All, inl, inr,
  Option-cases, Gives, bind-Gives, Gives-mono, Gives-both,
}
use cheferd.Prelude.Int.{ℤ}
use cheferd.Text.{Bytes, same, same_refl}
use cheferd.Dict.{Dict, keys, lookup}
use cheferd.Dict.Laws.{Fresh, Distinct, lookup-put, same-sym}
use cheferd.Core.State.{Core, Session, Envs, Locations, submit_rule}
use cheferd.Core.Enforce.{enforcement_rule, send_rules}
use cheferd.Core.Enforce.Sent.{Connected, Connected-All, Connected-submit_rule, SessionsOnly}

abbrev rules_in : Option Session → List Bytes
rules_in none = []
rules_in (some session) = session.submission_queue

-- The rules that wait for a local controller.
abbrev pub queue_of : Core → Bytes → List Bytes
queue_of s address = rules_in (lookup address s.local_sessions)

-- The local controller's queue has the rule at its end, and no other has changed.
abbrev Appended : Core → Bytes → Bytes → Core → Type 0
Appended s address rule next =
    (queue_of next address ≡ queue_of s address ++ rule ∷ [])
    × ((j : Bytes) → same address j ≡ false → queue_of next j ≡ queue_of s j)

queue_of-submit_rule :
    (s : Core) (address rule : Bytes)
    → Connected s address
    → Gives (Appended s address rule) (submit_rule s address rule)
unfolding submit_rule
queue_of-submit_rule s address rule h = elim (Option-cases (lookup address s.local_sessions)) [
  | inr (session, e) ↦ rw e (
    rw (lookup-put address address _ s.local_sessions) (rw (same_refl address, e) refl),
    λ j n. rw (lookup-put address j _ s.local_sessions) (rw n refl),
  )
  | inl e ↦ cc
]

-- Every local controller of the list has its rule at the end of its queue.
abbrev pub Delivered : Core → Core → (Envs → Bytes) → Locations → Type 0
Delivered s next rule_of =
    All (λ (l : Bytes × Envs). queue_of next l.0 ≡ queue_of s l.0 ++ rule_of l.1 ∷ [])

-- What sending did to the queues.
abbrev pub Dispatched : Core → (Envs → Bytes) → Locations → Core → Type 0
Dispatched s rule_of locations next =
    Delivered s next rule_of locations
    × ((j : Bytes) → Fresh j (keys locations) → queue_of next j ≡ queue_of s j)

Delivered-step :
    (s t next : Core) (address : Bytes) (rule : Bytes) (rule_of : Envs → Bytes)
    (locations : Locations)
    → Appended s address rule t
    → Fresh address (keys locations)
    → Delivered t next rule_of locations
    → Delivered s next rule_of locations
Delivered-step s t next address rule rule_of [] a f h = tt
Delivered-step s t next address rule rule_of ((k, envs) ∷ rest) a (f, fs) (h, hs) = (
  h ∙ ap (λ q. q ++ rule_of envs ∷ []) (a.1 k (same-sym address k ∙ f)),
  Delivered-step s t next address rule rule_of rest a fs hs,
)

send_rules-Dispatched :
    (s : Core) (app operation : Bytes) (limit : ℤ) (locations : Locations) (updated : Dict Bool)
    → Distinct (keys locations)
    → All (Connected s) (keys locations)
    → Gives
        (λ r. Dispatched s (λ envs. enforcement_rule app operation envs limit) locations r.0)
        (send_rules s app operation limit locations updated)
unfolding send_rules
send_rules-Dispatched s app operation limit [] updated d c = (tt, λ j f. refl)
send_rules-Dispatched s app operation limit ((address, envs) ∷ rest) updated (f, d) (c, cs) =
    let rule_of : Envs → Bytes = λ e. enforcement_rule app operation e limit in
    bind-Gives (λ t. SessionsOnly s t × Appended s address (rule_of envs) t)
      (λ r. Dispatched s rule_of ((address, envs) ∷ rest) r.0)
      (submit_rule s address (rule_of envs)) _
      (Gives-both _ _ (submit_rule s address (rule_of envs))
        (Connected-submit_rule s address (rule_of envs) c)
        (queue_of-submit_rule s address (rule_of envs) c))
      (λ t (k, a).
        Gives-mono (λ r. Dispatched t rule_of rest r.0) _ _
          (send_rules-Dispatched t app operation limit rest _ d
            (Connected-All s t (keys rest) k.1.1.1.1.1 cs))
          (λ r (h, o). (
            (o address f ∙ a.0, Delivered-step s t r.0 address (rule_of envs) rule_of rest a f h),
            λ j (n, ns). o j ns ∙ a.1 j n,
          )))

-- With a session for every local controller of a job, each listed once, sending the rules returns:
-- each of them has the rule for its own stages at the end of its queue, one rule and no more, and
-- the queue of any other is as it was.
pub send_rules-Delivered :
    (s : Core) (app operation : Bytes) (limit : ℤ) (locations : Locations) (updated : Dict Bool)
    (other : Bytes)
    → Distinct (keys locations)
    → All (Connected s) (keys locations)
    → Fresh other (keys locations)
    → Gives
        (λ r.
          Delivered s r.0 (λ envs. enforcement_rule app operation envs limit) locations
          × (queue_of r.0 other ≡ queue_of s other))
        (send_rules s app operation limit locations updated)
send_rules-Delivered s app operation limit locations updated other d c f =
    let rule_of : Envs → Bytes = λ envs. enforcement_rule app operation envs limit in
    Gives-mono (λ r. Dispatched s rule_of locations r.0)
      (λ r. Delivered s r.0 rule_of locations × (queue_of r.0 other ≡ queue_of s other)) _
      (send_rules-Dispatched s app operation limit locations updated d c)
      (λ r h. (h.0, h.1 other f))
