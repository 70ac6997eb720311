-- ===== src/Core/Loop/Ended.antt =====
-- The loops over the local controllers and stages that wait to be connected end
-- (src/controller/core_control_application.cpp).
use cheferd.Prelude.{
  ℕ, zero, suc, ◌<◌, ◌≡◌, refl, ◌∙◌, true, false, Option, some, List, [], ◌∷◌, length, Result, ok,
  fail, Fault, Result-cases, arith, inl, inr, Bool-cases,
}
use cheferd.Prelude.Int.{ℤ, pos, ltb_ℤ}
use cheferd.Text.{Bytes}
use cheferd.Core.State.{Core, StageInfo, StageResponse}
use cheferd.Core.Stages.{handle_local_controller_sessions, handle_data_plane_sessions}
use cheferd.Core.Loop.{next_joins, while_pending, drain_local_controllers, drain_data_planes}
use cheferd.Core.Loop.Handled.{Counted, nothing_left, handle_local-next, handle_stage-next}

module _ (pending : Core → ℤ) (handle : Core → Result Core) where
  module _ (fuel : ℕ) (s : Core) where
    while_pending-ends :
        ltb_ℤ (pos 0) (pending s) ≡ false → while_pending (suc fuel) pending handle s ≡ some (ok s)
    unfolding while_pending
    while_pending-ends p = rw (p, while_pending) refl

    while_pending-goes_on :
        (next : Core)
        → ltb_ℤ (pos 0) (pending s) ≡ true
        → handle s ≡ ok next
        → while_pending (suc fuel) pending handle s ≡ while_pending fuel pending handle next
    unfolding while_pending
    while_pending-goes_on next p e = rw (p, while_pending) (rw (e, while_pending) refl)

    while_pending-fails :
        (x : Fault)
        → ltb_ℤ (pos 0) (pending s) ≡ true
        → handle s ≡ fail x
        → while_pending (suc fuel) pending handle s ≡ some (fail x)
    unfolding while_pending
    while_pending-fails x p e = rw (p, while_pending) (rw (e, while_pending) refl)

  -- What a loop keeps, and what it waits for.
  module _ (Kept : Core → Type 0) (waiting : Core → ℕ) where
    abbrev pub Ended : Result Core → Type 0
    Ended (ok t) = Kept t × (ltb_ℤ (pos 0) (pending t) ≡ false)
    Ended (fail e) = Unit

    -- A loop whose handler keeps a property and leaves one less waiting ends.
    while_pending-Ended :
        ((s next : Core)
          → Kept s
          → ltb_ℤ (pos 0) (pending s) ≡ true
          → handle s ≡ ok next
          → Kept next × (suc (waiting next) ≡ waiting s))
        → (fuel : ℕ) (s : Core) → Kept s
        → waiting s < fuel
        → (r : Result Core) × (while_pending fuel pending handle s ≡ some r) × (Ended r)
    while_pending-Ended step zero s k h = elim h [ ]
    while_pending-Ended step (suc fuel) s k h = elim (Bool-cases (ltb_ℤ (pos 0) (pending s))) [
      | inr p ↦ (ok s, while_pending-ends fuel s p, (k, p))
      | inl p ↦ elim (Result-cases (handle s)) [
        | inl (next, e) ↦
            let (kept, fewer) = step s next k p e in
            let (r, run, ended) = while_pending-Ended step fuel next kept (omega arith) in
            (r, while_pending-goes_on fuel s next p e ∙ run, ended)
        | inr (x, e) ↦ (fail x, while_pending-fails fuel s x p e, tt)
      ]
    ]

no_more : {A : Type 0} (queue : List A) → length queue ≡ 0 → queue ≡ []
no_more [] h = refl
no_more (a ∷ queue) h = absurd (omega arith)

-- A run that ends has connected every local controller that waited, or one of its calls has not
-- returned; the stages wait as they did.
abbrev pub Joined : List StageInfo → Result Core → Type 0
Joined infos (ok t) = Counted t × (t.local_queue ≡ []) × (t.local_to_data_queue ≡ infos)
Joined infos (fail e) = Unit

-- Of the stages, in the same way.
abbrev pub Drained : List Bytes → Result Core → Type 0
Drained addresses (ok t) = Counted t × (t.local_queue ≡ addresses) × (t.local_to_data_queue ≡ [])
Drained addresses (fail e) = Unit

abbrev KeepsStages : List StageInfo → Core → Type 0
KeepsStages infos s = Counted s × (s.local_to_data_queue ≡ infos)

abbrev KeepsLocals : List Bytes → Core → Type 0
KeepsLocals addresses s = Counted s × (s.local_queue ≡ addresses)

emptied_local_queue :
    (infos : List StageInfo) (handle : Core → Result Core) (r : Result Core)
    → Ended
        (λ (c : Core). c.pending_local_sessions)
        handle
        (KeepsStages infos)
        (λ (c : Core). length c.local_queue)
        r
    → Joined infos r
emptied_local_queue infos handle (ok t) ((c, q), p) = (
  c,
  no_more t.local_queue (nothing_left (length t.local_queue) t.pending_local_sessions c.0 p),
  q,
)
emptied_local_queue infos handle (fail e) h = tt

emptied_stage_queue :
    (addresses : List Bytes) (r : Result Core)
    → Ended
        (λ (c : Core). c.pending_data_sessions)
        handle_data_plane_sessions
        (KeepsLocals addresses)
        (λ (c : Core). length c.local_to_data_queue)
        r
    → Drained addresses r
emptied_stage_queue addresses (ok t) ((c, q), p) = (
  c,
  q,
  no_more t.local_to_data_queue
      (nothing_left (length t.local_to_data_queue) t.pending_data_sessions c.1 p),
)
emptied_stage_queue addresses (fail e) h = tt

-- While the counters are the lengths of the queues, the loop that connects the local controllers
-- ends within one round more than wait.
pub drain_local_controllers-Joined :
    (fuel : ℕ) (joins : Bytes → List (Option StageResponse)) (s : Core)
    → Counted s
    → length s.local_queue < fuel
    → (r : Result Core) × (drain_local_controllers fuel joins s ≡ some r)
      × (Joined s.local_to_data_queue r)
unfolding drain_local_controllers
drain_local_controllers-Joined fuel joins s c h =
    let handle : Core → Result Core =
      λ c. handle_local_controller_sessions c (next_joins joins c.local_queue) in
    let (r, run, ended) =
      while_pending-Ended (λ (c : Core). c.pending_local_sessions) handle
        (KeepsStages s.local_to_data_queue) (λ (c : Core). length c.local_queue)
        (λ t next (d, q) p e.
          let (counted, fewer, stages) =
            handle_local-next (next_joins joins t.local_queue) t.local_queue t next refl d p e in
          ((counted, stages ∙ q), fewer))
        fuel s (c, refl) h in
    (r, run, emptied_local_queue s.local_to_data_queue handle r ended)

-- So does the loop that connects the stages.
pub drain_data_planes-Drained :
    (fuel : ℕ) (s : Core)
    → Counted s
    → length s.local_to_data_queue < fuel
    → (r : Result Core) × (drain_data_planes fuel s ≡ some r) × (Drained s.local_queue r)
unfolding drain_data_planes
drain_data_planes-Drained fuel s c h =
    let (r, run, ended) =
      while_pending-Ended (λ (c : Core). c.pending_data_sessions) handle_data_plane_sessions
        (KeepsLocals s.local_queue) (λ (c : Core). length c.local_to_data_queue)
        (λ t next (d, q) p e.
          let (counted, fewer, locals) =
            handle_stage-next t.local_to_data_queue t next refl d p e in
          ((counted, locals ∙ q), fewer))
        fuel s (c, refl) h in
    (r, run, emptied_stage_queue s.local_queue r ended)
