-- ===== src/Core/Loop/Handled.antt =====
-- What waits behind the handlers of the feedback loop (src/controller/core_control_application.cpp).
use cheferd.Prelude.{
  ℕ, suc, ◌≡◌, ◌≢◌, sym, ap, ◌∙◌, subst, true, false, Option, List, [], ◌∷◌, length, ok, arith,
}
use cheferd.Prelude.Int.{ℤ, pos, ◌-ℤ◌, ltb_ℤ}
use cheferd.Text.{Bytes}
use cheferd.Core.State.{Core, StageInfo, StageResponse}
use cheferd.Core.Stages.{
  handle_local_controller_sessions, handle_data_plane_sessions, admit_local, admit_stage,
}
use cheferd.Core.Loop.Waits.{admit_local-Waits, admit_stage-Waits}

-- The counters of what waits are the lengths of the queues.
abbrev pub Counted : Core → Type 0
Counted s =
    (s.pending_local_sessions ≡ pos (length s.local_queue))
    × (s.pending_data_sessions ≡ pos (length s.local_to_data_queue))

module _ (n : ℕ) (z : ℤ) (counted : z ≡ pos n) where
  none_waits : n ≡ 0 → ltb_ℤ (pos 0) z ≢ true
  none_waits e p = ground arith

  pub nothing_left : ltb_ℤ (pos 0) z ≡ false → n ≡ 0
  nothing_left p = ground arith

one_less : (n : ℕ) → pos (suc n) -ℤ pos 1 ≡ pos n
unfolding ◌-ℤ◌
one_less n = ground arith

-- The counter behind a step, of a queue that was one longer.
counter_next :
    {A : Type 0} (a : A) (queue rest left : List A) (z y : ℤ)
    → queue ≡ a ∷ rest
    → z ≡ pos (length queue)
    → y ≡ z -ℤ pos 1
    → left ≡ rest
    → y ≡ pos (length left)
counter_next a queue rest left z y q c e l =
    e
    ∙ ap (λ x. x -ℤ pos 1) (c ∙ ap (λ as'. pos (length as')) q)
    ∙ one_less (length rest)
    ∙ ap (λ as'. pos (length as')) (sym l)

pub handle_local-next :
    (joins : List (Option StageResponse)) (queue : List Bytes) (s next : Core)
    → s.local_queue ≡ queue
    → Counted s
    → ltb_ℤ (pos 0) s.pending_local_sessions ≡ true
    → handle_local_controller_sessions s joins ≡ ok next
    → Counted next
      × (suc (length next.local_queue) ≡ length queue)
      × (next.local_to_data_queue ≡ s.local_to_data_queue)
unfolding handle_local_controller_sessions
handle_local-next joins [] s next q (c, d) p e =
    absurd (none_waits (length s.local_queue) s.pending_local_sessions c (ap length q) p)
handle_local-next joins (address ∷ rest) s next q (c, d) p e =
    let (stages, number, left, counter) =
      admit_local-Waits s next joins address rest
        (subst (λ queue. admit_local s joins queue ≡ ok next) q e) in
    (
      (
        counter_next address s.local_queue rest next.local_queue s.pending_local_sessions
            next.pending_local_sessions q c counter left,
        number ∙ d ∙ ap (λ infos. pos (length infos)) (sym stages),
      ),
      ap (λ queue. suc (length queue)) left,
      stages,
    )

pub handle_stage-next :
    (queue : List StageInfo) (s next : Core)
    → s.local_to_data_queue ≡ queue
    → Counted s
    → ltb_ℤ (pos 0) s.pending_data_sessions ≡ true
    → handle_data_plane_sessions s ≡ ok next
    → Counted next
      × (suc (length next.local_to_data_queue) ≡ length queue)
      × (next.local_queue ≡ s.local_queue)
unfolding handle_data_plane_sessions
handle_stage-next [] s next q (c, d) p e =
    absurd (none_waits (length s.local_to_data_queue) s.pending_data_sessions d (ap length q) p)
handle_stage-next (info ∷ rest) s next q (c, d) p e =
    let (left, counter, locals, number) =
      admit_stage-Waits s next info rest (subst (λ queue. admit_stage s queue ≡ ok next) q e) in
    (
      (
        number ∙ c ∙ ap (λ addresses. pos (length addresses)) (sym locals),
        counter_next info s.local_to_data_queue rest next.local_to_data_queue
            s.pending_data_sessions next.pending_data_sessions q d counter left,
      ),
      ap (λ queue. suc (length queue)) left,
      locals,
    )
