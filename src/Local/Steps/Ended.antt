-- ===== src/Local/Steps/Ended.antt =====
-- Whatever the handlers of a local controller have done, its feedback loop connects the stages that
-- wait (src/controller/local_control_application.cpp).
use cheferd.Prelude.{
  ℕ, suc, ◌<◌, ◌≡◌, refl, sym, ap, ◌∙◌, subst, Option, some, List, [], ◌∷◌, length, length-append,
  Result, ok, fail, Bool-cases, Result-cases, inl, inr, arith, ok-injective,
}
use cheferd.Prelude.Int.{pos, ◌+ℤ◌, ltb_ℤ}
use cheferd.Text.{Bytes}
use cheferd.Session.DataPlane.{StageResponse}
use cheferd.Local.State.{Local, Session, start, register_stage_session}
use cheferd.Local.Handshake.{mark_stage_ready}
use cheferd.Local.Stages.{handle_data_plane_sessions}
use cheferd.Local.Loop.{Answer, drain}
use cheferd.Local.Loop.Waits.{Counted, Waits, Waits-Counted}
use cheferd.Local.Loop.Ended.{
  Drained, drain_ends, drain_goes_on, drain_fails, drain-Drained, handled-Counted, handle_nothing,
}
use cheferd.Local.Steps.{
  Reached, begins, registers, connects, shakes, readies, enforces, collects, aggregates,
}
use cheferd.Local.Steps.Kept.{
  create_enforcement_rule-Waits, local_handshake-Waits, collect_global_statistics-Waits,
  aggregated-Waits,
}
use cheferd.Status.{RpcStatus}

one_more_waits : (n : ℕ) → pos n +ℤ pos 1 ≡ pos (suc n)
unfolding ◌+ℤ◌
one_more_waits n = ground arith

module _ {D : Type 0} where
  register_stage_session-Counted :
      (s : Local D) (responses : List (Option (StageResponse D)))
      → Counted s
      → Counted (register_stage_session s responses)
  unfolding register_stage_session
  register_stage_session-Counted s responses c =
      ap (λ z. z +ℤ pos 1) c
      ∙ one_more_waits (length s.pending_data_sessions)
      ∙ ap pos (omega (arith, length-append s.pending_data_sessions (_ ∷ [])))

  connected-Counted :
      (connected : RpcStatus) (responses : List (Option (StageResponse D)))
      (queue : List (Session D)) (s next : Local D)
      → s.pending_data_sessions ≡ queue
      → Counted s
      → handle_data_plane_sessions connected responses s ≡ ok next
      → Counted next
  connected-Counted connected responses [] s next q c e =
      subst Counted (ok-injective (sym (handle_nothing connected responses s q) ∙ e)) c
  connected-Counted connected responses (session ∷ rest) s next q c e =
      (handled-Counted connected responses session rest s next q c e).0

  mark_stage_ready-Waits : (s : Local D) (key : Bytes) → Waits s (mark_stage_ready s key).2
  unfolding mark_stage_ready
  mark_stage_ready-Waits s key = (refl, refl)

  pub Reached-Counted : (s : Local D) → Reached s → Counted s
  unfolding start
  Reached-Counted _ (begins rules) = refl
  Reached-Counted _ (registers {s} responses r) =
      register_stage_session-Counted s responses (Reached-Counted s r)
  Reached-Counted next (connects {s} connected responses r e) =
      connected-Counted connected responses s.pending_data_sessions s next refl
        (Reached-Counted s r) e
  Reached-Counted next (shakes {s} {result = result} {message = message} rules r e) =
      Waits-Counted s next (local_handshake-Waits s next rules result message e)
        (Reached-Counted s r)
  Reached-Counted _ (readies {s} key r) =
      Waits-Counted s (mark_stage_ready s key).2 (mark_stage_ready-Waits s key)
        (Reached-Counted s r)
  Reached-Counted next (enforces {s} {result = result} {message = message} rules r e) =
      Waits-Counted s next (create_enforcement_rule-Waits s next rules result message e)
        (Reached-Counted s r)
  Reached-Counted next (collects {s} {result = result} {rates = rates} is_lost r e) =
      Waits-Counted s next (collect_global_statistics-Waits is_lost s next result rates e)
        (Reached-Counted s r)
  Reached-Counted next (aggregates {s} {result = result} {rates = rates} is_lost average lost r e) =
      Waits-Counted s next (aggregated-Waits is_lost average lost s next result rates e)
        (Reached-Counted s r)

  -- The run has returned and nothing waits, in a state that handlers lead to, or a call has not
  -- returned.
  abbrev pub Connected : Result (Local D) → Type 0
  Connected (ok t) = (t.pending_data_sessions ≡ []) × Reached t
  Connected (fail e) = Unit

  drain-Reached :
      (answers : List (Answer D)) (s t : Local D)
      → Reached s
      → drain answers s ≡ some (ok t)
      → Reached t
  unfolding drain
  drain-Reached [] s t r e = absurd cc
  drain-Reached ((connected, responses) ∷ rest) s t r e =
      elim (Bool-cases (ltb_ℤ (pos 0) s.pending_data_plane_sessions)) [
        | inr p ↦
            let ended : some (ok s) ≡ some (ok t) =
              sym (drain_ends connected responses rest s p) ∙ e in
            let same_state : s ≡ t = cc in subst Reached same_state r
        | inl p ↦ elim (Result-cases (handle_data_plane_sessions connected responses s)) [
          | inl (next, f) ↦
              drain-Reached rest next t (connects connected responses r f)
                (sym (drain_goes_on connected responses rest s next p f) ∙ e)
          | inr (x, f) ↦
              let failed : some (fail x) ≡ some (ok t) =
                sym (drain_fails connected responses rest s x p f) ∙ e in
              absurd cc
        ]
      ]

  Drained-Connected :
      (answers : List (Answer D)) (s : Local D) (r : Result (Local D))
      → Reached s
      → drain answers s ≡ some r
      → Drained r
      → Connected r
  Drained-Connected answers s (ok t) r e (waiting, counted) =
      (waiting, drain-Reached answers s t r e)
  Drained-Connected answers s (fail x) r e h = tt

  -- From any state that the handlers of a local controller lead to, in any order, the loop that
  -- connects the stages that wait ends, if there are answers for one round more than stages wait:
  -- in a state of the same sort in which no stage waits, or by a call that does not return.
  pub drain-Connected :
      (answers : List (Answer D)) (s : Local D)
      → Reached s
      → length s.pending_data_sessions < length answers
      → (r : Result (Local D)) × (drain answers s ≡ some r) × (Connected r)
  drain-Connected answers s reached h =
      let (r, run, drained) = drain-Drained answers s (Reached-Counted s reached) h in
      (r, run, Drained-Connected answers s r reached run drained)
