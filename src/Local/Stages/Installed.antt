-- ===== src/Local/Stages/Installed.antt =====
-- The housekeeping rules of a stage that is being connected, and a handshake that fails
-- (src/controller/local_control_application.cpp, src/session/handshake_session.cpp).
use cheferd.Prelude.{
  ℕ, suc, ◌+◌, ◌≡◌, refl, sym, ap, subst, ◌∙◌, Bool, true, ◌&&◌, Option, some, List, [], ◌∷◌, ◌++◌,
  append_assoc, append-nil, map, length, if◌then◌else◌, inl, inr, Bool-cases, ok, fail, blocked,
  Gives, Gives-mono, bind-Gives, arith,
}
use cheferd.Prelude.Int.{ℤ, ◌==ℤ◌}
use cheferd.Text.{Bytes, same_refl}
use cheferd.Dict.{Dict, lookup, put}
use cheferd.Dict.Laws.{lookup-put}
use cheferd.Session.DataPlane.{StageResponse, Handshake, ack, handshake}
use cheferd.Local.State.{Local, Session, submit_rule, took, get_result, submit_to, result_of}
use cheferd.Local.Stages.{
  call_stage_handshake, submit_rules, count_valid, submit_housekeeping_rules,
}
use cheferd.Status.{ack_ok}

abbrev pub all_ok : List ℤ → Bool
all_ok [] = true
all_ok (message ∷ messages) = (message ==ℤ ack_ok) && all_ok messages

suc-plus : (m n : ℕ) → suc m + n ≡ m + suc n
suc-plus m n = omega arith

zero-plus : (n : ℕ) → 0 + n ≡ n
zero-plus n = omega arith

module _ {D : Type 0} where
  -- Acknowledgements of housekeeping rules.
  abbrev pub acks : List ℤ → List (Option (StageResponse D))
  acks = map (λ message. some (ack 4 message))

  pub submit_rules-found :
      (rules : List Bytes) (sessions : Dict (Session D)) (key : Bytes) (session : Session D)
      → lookup key sessions ≡ some session
      → (next : Dict (Session D)) × (submit_rules sessions key rules ≡ ok (length rules, next))
        × (lookup key next
            ≡ some (record session { submission_queue = session.submission_queue ++ rules }))
  unfolding submit_rules submit_to submit_rule
  submit_rules-found [] sessions key session e = (
    sessions,
    refl,
    e
        ∙ ap (λ q. some (record session { submission_queue = q }))
            (sym (append-nil session.submission_queue)),
  )
  submit_rules-found (rule ∷ rules) sessions key session e =
      let sent : Session D = submit_rule session rule in
      let (next, done, found) =
        submit_rules-found rules (put key sent sessions) key sent
          (lookup-put key key sent sessions ∙ rw (same_refl key) refl) in
      (
        next,
        rw e (rw done refl),
        found
            ∙ ap (λ q. some (record session { submission_queue = q }))
                (append_assoc session.submission_queue (rule ∷ []) rules),
      )

  -- The number that is returned, and the rules that have been put into the session with the key.
  abbrev Counts : Bytes → ℕ → List Bytes → ℕ × Dict (Session D) → Type 0
  Counts key n rules r =
      (r.0 ≡ n)
      × ((session : Session D) × (lookup key r.1 ≡ some session)
          × (session.submission_queue ≡ rules))

  Counts-eq :
      (key : Bytes) (m n : ℕ) (rules : List Bytes) (r : ℕ × Dict (Session D))
      → m ≡ n
      → Counts key m rules r
      → Counts key n rules r
  Counts-eq key m n rules r e (k, h) = (k ∙ e, h)

  count_valid-all_ok :
      (messages : List ℤ) (sessions : Dict (Session D)) (key : Bytes) (session : Session D)
      (rest : List (Option (StageResponse D))) (valid : ℕ)
      → lookup key sessions ≡ some session
      → session.completion_queue ≡ acks messages ++ rest
      → Gives
          (Counts key
            (if all_ok messages then valid + length messages else 0)
            session.submission_queue)
          (count_valid sessions key (length messages) valid)
  unfolding count_valid result_of get_result
  count_valid-all_ok [] sessions key session rest valid e q = (omega arith, (session, e, refl))
  count_valid-all_ok (message ∷ messages) sessions key session rest valid e q =
      let next : Session D = record session { completion_queue = acks messages ++ rest } in
      let found : lookup key (put key next sessions) ≡ some next =
        lookup-put key key next sessions ∙ rw (same_refl key) refl in
      rw e (
        rw (q, took)
          (elim (Bool-cases (message ==ℤ ack_ok)) [
            | inl b ↦ rw b (
                Gives-mono
                  (Counts key (if all_ok messages then suc valid + length messages else 0)
                    session.submission_queue)
                  _ _
                  (count_valid-all_ok messages (put key next sessions) key next rest (suc valid)
                    found refl)
                  (λ r k.
                    Counts-eq key _ _ session.submission_queue r
                      (ap (λ (n : ℕ). if all_ok messages then n else 0)
                        (suc-plus valid (length messages)))
                      k))
            | inr b ↦ rw b (refl, (next, found, refl))
          ]))

  -- A stage that is being connected and answers each of the housekeeping rules with an
  -- acknowledgement: the rules are put behind those in its session's submission queue, in their
  -- order, and the number that is returned is that of the rules if every acknowledgement says yes,
  -- and 0 if one does not.
  pub submit_housekeeping_rules-all_ok :
      (s : Local D) (key : Bytes) (session : Session D) (messages : List ℤ)
      (rest : List (Option (StageResponse D)))
      → lookup key s.preparing_data_sessions ≡ some session
      → session.completion_queue ≡ acks messages ++ rest
      → length messages ≡ length s.housekeeping_rules
      → Gives
          (λ r.
            (r.0 ≡ (if all_ok messages then length s.housekeeping_rules else 0))
            × ((left : Session D) × (lookup key r.1.preparing_data_sessions ≡ some left)
                × (left.submission_queue ≡ session.submission_queue ++ s.housekeeping_rules)))
          (submit_housekeeping_rules s key)
  unfolding submit_housekeeping_rules
  submit_housekeeping_rules-all_ok s key session messages rest e q n =
      let (next, done, found) =
        submit_rules-found s.housekeeping_rules s.preparing_data_sessions key session e in
      let queue : List Bytes = session.submission_queue ++ s.housekeeping_rules in
      rw done (
        bind-Gives
          (Counts key (if all_ok messages then 0 + length s.housekeeping_rules else 0) queue) _
          (count_valid next key (length s.housekeeping_rules) 0) _
          (subst
            (λ (m : ℕ).
              Gives (Counts key (if all_ok messages then 0 + m else 0) queue)
                (count_valid next key m 0))
            n
            (count_valid-all_ok messages next key (record session { submission_queue = queue }) rest
              0 found q))
          (λ r (k, h). (k ∙ ap (λ (m : ℕ). if all_ok messages then m else 0) (zero-plus _), h)))

  -- A handshake session that answers the handshake, and then nothing, blocks the handshake of its
  -- stage for ever.
  pub call_stage_handshake_blocked :
      (s : Local D) (session : Session D) (responses : List (Option (StageResponse D)))
      (h : Handshake)
      → session.completion_queue ≡ some (handshake h) ∷ []
      → call_stage_handshake s session responses ≡ fail blocked
  unfolding call_stage_handshake submit_rule get_result
  call_stage_handshake_blocked s session responses h e = rw (e, took) refl
