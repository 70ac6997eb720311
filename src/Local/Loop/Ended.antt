-- ===== src/Local/Loop/Ended.antt =====
-- When the loop that connects the stages of a local controller ends
-- (src/controller/local_control_application.cpp).
use cheferd.Prelude.{
  ℕ, suc, ◌<◌, ◌≡◌, ◌≢◌, refl, sym, ap, ◌∙◌, subst, true, false, Option, none, some, List, [], ◌∷◌,
  length, Result, ok, fail, inl, inr, Bool-cases, Result-cases, arith, Fault,
}
use cheferd.Prelude.Int.{pos, ◌-ℤ◌, ltb_ℤ}
use cheferd.Session.DataPlane.{StageResponse}
use cheferd.Local.State.{Local, Session}
use cheferd.Local.Stages.{handled_stage, handle_data_plane_sessions}
use cheferd.Local.Loop.{Answer, drain, stop_feedback_loop}
use cheferd.Local.Loop.Waits.{Counted, handled_stage-next}
use cheferd.Status.{RpcStatus}

module _ {D : Type 0} where
  -- A run that ends has connected every stage that waited, or one of its calls has not returned.
  abbrev pub Drained : Result (Local D) → Type 0
  Drained (ok t) = (t.pending_data_sessions ≡ []) × Counted t
  Drained (fail e) = Unit

  module _ (connected : RpcStatus) (responses : List (Option (StageResponse D))) where
    pub drain_ends :
        (rest : List (Answer D)) (s : Local D)
        → ltb_ℤ (pos 0) s.pending_data_plane_sessions ≡ false
        → drain ((connected, responses) ∷ rest) s ≡ some (ok s)
    unfolding drain
    drain_ends rest s p = rw (p, drain) refl

    pub drain_goes_on :
        (rest : List (Answer D)) (s next : Local D)
        → ltb_ℤ (pos 0) s.pending_data_plane_sessions ≡ true
        → handle_data_plane_sessions connected responses s ≡ ok next
        → drain ((connected, responses) ∷ rest) s ≡ drain rest next
    unfolding drain
    drain_goes_on rest s next p e = rw (p, drain) (rw (e, drain) refl)

    pub drain_fails :
        (rest : List (Answer D)) (s : Local D) (x : Fault)
        → ltb_ℤ (pos 0) s.pending_data_plane_sessions ≡ true
        → handle_data_plane_sessions connected responses s ≡ fail x
        → drain ((connected, responses) ∷ rest) s ≡ some (fail x)
    unfolding drain
    drain_fails rest s x p e = rw (p, drain) (rw (e, drain) refl)

    none_waits :
        (s : Local D)
        → length s.pending_data_sessions ≡ 0
        → Counted s
        → ltb_ℤ (pos 0) s.pending_data_plane_sessions ≢ true
    none_waits s n c p = ground arith

    one_less : (n : ℕ) → pos (suc n) -ℤ pos 1 ≡ pos n
    unfolding ◌-ℤ◌
    one_less n = ground arith

    -- A stage that is connected is one less in the queue and in the number.
    pub handled-Counted :
        (session : Session D) (rest : List (Session D)) (s next : Local D)
        → s.pending_data_sessions ≡ session ∷ rest
        → Counted s
        → handle_data_plane_sessions connected responses s ≡ ok next
        → Counted next × (next.pending_data_sessions ≡ rest)
    unfolding handle_data_plane_sessions
    handled-Counted session rest s next q c e =
        let (left, number) =
          handled_stage-next connected responses session rest s next
            (subst (λ queue. handled_stage connected responses queue s ≡ ok next) q e) in
        (
          number
              ∙ ap (λ z. z -ℤ pos 1) (c ∙ ap (λ queue. pos (length queue)) q)
              ∙ one_less (length rest)
              ∙ ap (λ queue. pos (length queue)) (sym left),
          left,
        )

    handled-next :
        (queue : List (Session D)) (s next : Local D)
        → s.pending_data_sessions ≡ queue
        → Counted s
        → ltb_ℤ (pos 0) s.pending_data_plane_sessions ≡ true
        → handle_data_plane_sessions connected responses s ≡ ok next
        → Counted next × (suc (length next.pending_data_sessions) ≡ length queue)
    handled-next [] s next q c p e = absurd (none_waits s (ap length q) c p)
    handled-next (session ∷ rest) s next q c p e =
        let (counted, left) = handled-Counted session rest s next q c e in
        (counted, ap (λ queue. suc (length queue)) left)

    -- A handler that finds no stage leaves the state as it is.
    pub handle_nothing :
        (s : Local D)
        → s.pending_data_sessions ≡ []
        → handle_data_plane_sessions connected responses s ≡ ok s
    unfolding handle_data_plane_sessions
    handle_nothing s q = ap (λ queue. handled_stage connected responses queue s) q

    nothing_left :
        (queue : List (Session D)) (s : Local D)
        → s.pending_data_sessions ≡ queue
        → Counted s
        → ltb_ℤ (pos 0) s.pending_data_plane_sessions ≡ false
        → queue ≡ []
    nothing_left [] s q c p = refl
    nothing_left (session ∷ rest) s q c p =
        let waiting : length s.pending_data_sessions ≡ suc (length rest) = ap length q in
        absurd (ground arith)

  -- While the number of the stages that wait is that of their queue, the loop that connects them
  -- ends if there are answers for one round more than stages wait: with an empty queue, or by a call
  -- that does not return.
  pub drain-Drained :
      (answers : List (Answer D)) (s : Local D)
      → Counted s
      → length s.pending_data_sessions < length answers
      → (r : Result (Local D)) × (drain answers s ≡ some r) × (Drained r)
  drain-Drained [] s c h = absurd (omega arith)
  drain-Drained ((connected, responses) ∷ rest) s c h =
      elim (Bool-cases (ltb_ℤ (pos 0) s.pending_data_plane_sessions)) [
        | inr p ↦ (
          ok s,
          drain_ends connected responses rest s p,
          (nothing_left connected responses s.pending_data_sessions s refl c p, c),
        )
        | inl p ↦ elim (Result-cases (handle_data_plane_sessions connected responses s)) [
          | inl (next, e) ↦
              let (counted, fewer) =
                handled-next connected responses s.pending_data_sessions s next refl c p e in
              let (r, run, drained) = drain-Drained rest next counted (omega arith) in
              (r, drain_goes_on connected responses rest s next p e ∙ run, drained)
          | inr (x, e) ↦ (fail x, drain_fails connected responses rest s x p e, tt)
        ]
      ]

  spins :
      (answers : List (Answer D)) (s : Local D)
      → s.pending_data_sessions ≡ []
      → ltb_ℤ (pos 0) s.pending_data_plane_sessions ≡ true
      → drain answers s ≡ none
  unfolding drain
  spins [] s q p = refl
  spins ((connected, responses) ∷ rest) s q p =
      drain_goes_on connected responses rest s s p (handle_nothing connected responses s q)
      ∙ spins rest s q p

  some_wait :
      (queue : List (Session D)) (s : Local D)
      → s.pending_data_sessions ≡ queue
      → Counted s
      → queue ≢ []
      → ltb_ℤ (pos 0) s.pending_data_plane_sessions ≡ true
  some_wait [] s q c n = absurd (n refl)
  some_wait (session ∷ rest) s q c n =
      let waiting : length s.pending_data_sessions ≡ suc (length rest) = ap length q in ground arith

  -- If stages wait when the feedback loop is stopped, the loop that connects them never ends: the
  -- stop drops the stages but leaves their number, which is what the loop waits for.
  pub drain-stop_feedback_loop :
      (answers : List (Answer D)) (s : Local D)
      → Counted s
      → s.pending_data_sessions ≢ []
      → drain answers (stop_feedback_loop s) ≡ none
  unfolding stop_feedback_loop
  drain-stop_feedback_loop answers s c n =
      spins answers _ refl (some_wait s.pending_data_sessions s refl c n)
