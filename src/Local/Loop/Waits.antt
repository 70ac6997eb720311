-- ===== src/Local/Loop/Waits.antt =====
-- The stages that wait, over the handlers of the local controller
-- (src/controller/local_control_application.cpp).
use cheferd.Prelude.{
  ℕ, ◌≡◌, refl, sym, ap, ◌∙◌, subst, Bool, true, false, Option, List, ◌∷◌, length, ok, ◌>>=◌,
  out_of_range, or_fail, bind-Steps, ok-injective, if◌then◌else◌, ◌==◌,
}
use cheferd.Prelude.Int.{pos, ◌-ℤ◌}
use cheferd.Text.{Bytes}
use cheferd.Dict.{lookup}
use cheferd.Session.DataPlane.{StageResponse, Handshake}
use cheferd.Local.State.{Local, Session, submit_rule, get_result, submit_to, result_of}
use cheferd.Local.Stages.{
  call_stage_handshake, submit_rules, count_valid, submit_housekeeping_rules, mark_stage_ready,
  connected_stage, dropped_stage, readied, handled_stage, handshake_rule, info_rule,
  fill_socket_info, stage_env_of, is_empty, shaken,
}
use cheferd.Status.{PStatus, is_ok, RpcStatus, cancelled}

module _ {D : Type 0} where
  -- The number of stages that wait is that of their queue.
  abbrev pub Counted : Local D → Type 0
  Counted s = s.pending_data_plane_sessions ≡ pos (length s.pending_data_sessions)

  -- Neither the queue nor the number changes from s to next.
  abbrev pub Waits : Local D → Local D → Type 0
  Waits s next =
      (next.pending_data_sessions ≡ s.pending_data_sessions)
      × (next.pending_data_plane_sessions ≡ s.pending_data_plane_sessions)

  pub Waits-Counted : (s next : Local D) → Waits s next → Counted s → Counted next
  Waits-Counted s next (q, n) c = n ∙ c ∙ ap (λ waiting. pos (length waiting)) (sym q)

  pub Waits-trans : (s t u : Local D) → Waits s t → Waits t u → Waits s u
  Waits-trans s t u (a, b) (c, d) = (c ∙ a, d ∙ b)

  Waits-same : (s t next : Local D) → Waits s t → t ≡ next → Waits s next
  Waits-same s t next h e = subst (Waits s) e h

  call_stage_handshake-Waits :
      (s next : Local D) (session ended : Session D) (responses : List (Option (StageResponse D)))
      (h : Handshake)
      → call_stage_handshake s session responses ≡ ok (h, ended, next)
      → Waits s next
  unfolding call_stage_handshake
  call_stage_handshake-Waits s next session ended responses h e =
      let ((response, asked), f, e1) =
        bind-Steps (get_result (submit_rule session handshake_rule)) _ e in
      let (g, k, e2) = bind-Steps (shaken response) _ e1 in
      let ((answer, informed), l, e3) =
        bind-Steps (get_result (submit_rule asked (info_rule (fill_socket_info g).1))) _ e2 in
      subst (λ (r : Handshake × Session D × Local D). Waits s r.2) (ok-injective e3) (refl, refl)

  submit_housekeeping_rules-Waits :
      (s next : Local D) (key : Bytes) (valid : ℕ)
      → submit_housekeeping_rules s key ≡ ok (valid, next)
      → Waits s next
  unfolding submit_housekeeping_rules
  submit_housekeeping_rules-Waits s next key valid e =
      let ((n, sent), f, e1) =
        bind-Steps (submit_rules s.preparing_data_sessions key s.housekeeping_rules) _ e in
      let ((v, answered), g, e2) = bind-Steps (count_valid sent key n 0) _ e1 in
      subst (λ (r : ℕ × Local D). Waits s r.1) (ok-injective e2) (refl, refl)

  mark_stage_ready-Waits :
      (s next : Local D) (key : Bytes) (result : PStatus)
      → mark_stage_ready s key ≡ ok (result, next)
      → Waits s next
  unfolding mark_stage_ready
  mark_stage_ready-Waits s next key result e =
      let (sent, f, e1) = bind-Steps (submit_to out_of_range s.preparing_data_sessions key _) _ e in
      let ((response, last), g, e2) = bind-Steps (result_of out_of_range sent key) _ e1 in
      subst (λ (r : PStatus × Local D). Waits s r.1) (ok-injective e2) (refl, refl)

  dropped_stage-Waits :
      (s next : Local D) (key : Bytes) → dropped_stage s key ≡ ok next → Waits s next
  dropped_stage-Waits s next key e =
      let (session, f, done) =
        bind-Steps (or_fail out_of_range (lookup key s.preparing_data_sessions)) _ e in
      subst (Waits s) (ok-injective done) (refl, refl)

  connected_stage-Waits :
      (connected : RpcStatus) (s : Local D) → Waits s (connected_stage connected s)
  connected_stage-Waits RpcStatus.ok s = (refl, refl)
  connected_stage-Waits cancelled s = (refl, refl)

  marked-Waits :
      (b : Bool) (connected : RpcStatus) (s next : Local D) (key : Bytes)
      → (if b then ok (connected_stage connected s) else dropped_stage s key) ≡ ok next
      → Waits s next
  marked-Waits true connected s next key e =
      subst (Waits s) (ok-injective e) (connected_stage-Waits connected s)
  marked-Waits false connected s next key e = dropped_stage-Waits s next key e

  readied-Waits :
      (connected : RpcStatus) (key : Bytes) (b : Bool) (s next : Local D)
      → readied connected key b s ≡ ok next
      → Waits s next
  readied-Waits connected key true s next e =
      let ((marked, ready), f, done) = bind-Steps (mark_stage_ready s key) _ e in
      Waits-trans s ready next (mark_stage_ready-Waits s ready key marked f)
        (marked-Waits (is_ok marked) connected ready next key done)
  readied-Waits connected key false s next e = dropped_stage-Waits s next key e

  named-Waits :
      (nameless : Bool) (connected : RpcStatus) (h : Handshake) (s next : Local D)
      → (if nameless then ok s else (do
        (rules, ready) ← submit_housekeeping_rules s (stage_env_of h)
        readied connected (stage_env_of h) (rules == length ready.housekeeping_rules) ready))
        ≡ ok next
      → Waits s next
  named-Waits true connected h s next e = subst (Waits s) (ok-injective e) (refl, refl)
  named-Waits false connected h s next e =
      let ((rules, ready), f, done) =
        bind-Steps (submit_housekeeping_rules s (stage_env_of h)) _ e in
      Waits-trans s ready next (submit_housekeeping_rules-Waits s ready (stage_env_of h) rules f)
        (readied-Waits connected (stage_env_of h) _ ready next done)

  -- A stage that is handled leaves the queue, and the number falls by one.
  pub handled_stage-next :
      (connected : RpcStatus) (responses : List (Option (StageResponse D))) (session : Session D)
      (rest : List (Session D)) (s next : Local D)
      → handled_stage connected responses (session ∷ rest) s ≡ ok next
      → (next.pending_data_sessions ≡ rest)
        × (next.pending_data_plane_sessions ≡ s.pending_data_plane_sessions -ℤ pos 1)
  handled_stage-next connected responses session rest s next e =
      let popped : Local D = record s {
        pending_data_sessions = rest;
        pending_data_plane_sessions = s.pending_data_plane_sessions -ℤ pos 1;
      } in
      let ((h, ended, connecting), f, done) =
        bind-Steps (call_stage_handshake popped session responses) _ e in
      Waits-trans popped connecting next
        (call_stage_handshake-Waits popped connecting session ended responses h f)
        (named-Waits (is_empty h.m_name) connected h connecting next done)
