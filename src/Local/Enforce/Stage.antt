-- ===== src/Local/Enforce/Stage.antt =====
-- The rules of the channels of one operation reach a stage that accepts them
-- (src/controller/local_control_application.cpp).
use cheferd.Prelude.{
  suc, ◌≡◌, refl, sym, ap, ◌∙◌, false, Option, some, List, [], ◌∷◌, ◌++◌, append_assoc, append-nil,
  map, drop, length, if◌then◌else◌, ok, inl, inr, Bool-cases, Gives, Gives-mono,
}
use cheferd.Prelude.Int.{ℤ}
use cheferd.Text.{Bytes, same, same_refl, same_sound}
use cheferd.Dict.{Dict, lookup, put}
use cheferd.Dict.Laws.{lookup-put}
use cheferd.Session.DataPlane.{StageResponse}
use cheferd.Local.State.{
  Local, Session, Channels, submit_rule, took, get_result, submit_to, result_of,
}
use cheferd.Local.Enforce.{passed, channel_rule, local_passthru, enforce_channels, Progress}
use cheferd.Status.{RpcStatus, ack_ok}

-- The rules of the channels, for a limit.
abbrev pub channel_rules : ℤ → ℤ → Channels → List Bytes
channel_rules rule_id limit = map (λ channel. channel_rule rule_id channel limit)

-- The last rule that was granted sets the status and the message.
abbrev pub result_after : Channels → RpcStatus → RpcStatus
result_after [] result = result
result_after (channel ∷ channels) result = RpcStatus.ok

abbrev pub message_after : Channels → ℤ → ℤ
message_after [] message = message
message_after (channel ∷ channels) message = ack_ok

granted_result : (channels : Channels) → result_after channels RpcStatus.ok ≡ RpcStatus.ok
granted_result [] = refl
granted_result (channel ∷ channels) = refl

granted_message : (channels : Channels) → message_after channels ack_ok ≡ ack_ok
granted_message [] = refl
granted_message (channel ∷ channels) = refl

module _ {D : Type 0} where
  -- The responses that are still to come begin with one for each channel that grants its rule.
  abbrev pub Accepts : Channels → List (Option (StageResponse D)) → Type 0
  Accepts [] responses = Unit
  Accepts (channel ∷ channels) [] = ⊥
  Accepts (channel ∷ channels) (response ∷ responses) =
      (passed response ≡ ok RpcStatus.ok) × Accepts channels responses

  -- A session that has been given rules and has answered them.
  abbrev pub passed_on : Session D → List Bytes → Session D
  passed_on session rules = record session {
    submission_queue = session.submission_queue ++ rules;
    completion_queue = drop (length rules) session.completion_queue;
  }

  -- From s to next the stage with the key has been given the rules, and no other stage anything.
  abbrev pub PassedOn : Bytes → Session D → List Bytes → Local D → Local D → Type 0
  PassedOn key session rules s next =
      (next.operation_to_channel_object ≡ s.operation_to_channel_object)
      × ((j : Bytes)
          → lookup j next.data_sessions
            ≡ (if same key j then some (passed_on session rules) else lookup j s.data_sessions))

  pub local_passthru-PassedOn :
      (s : Local D) (key rule : Bytes) (session : Session D) (response : Option (StageResponse D))
      (responses : List (Option (StageResponse D))) (result : RpcStatus)
      → lookup key s.data_sessions ≡ some session
      → session.completion_queue ≡ response ∷ responses
      → passed response ≡ ok result
      → (next : Local D) × (local_passthru s key rule ≡ ok (result, next))
        × (PassedOn key session (rule ∷ []) s next)
  unfolding local_passthru submit_to result_of submit_rule get_result
  local_passthru-PassedOn s key rule session response responses result e q g =
      let sent : Session D = submit_rule session rule in
      let done : Session D = record sent { completion_queue = responses } in
      let sessions : Dict (Session D) = put key sent s.data_sessions in
      let found : lookup key sessions ≡ some sent =
        lookup-put key key sent s.data_sessions ∙ rw (same_refl key) refl in
      (
        record s { data_sessions = put key done sessions },
        rw e (rw found (rw (q, took) (rw g refl))),
        (
          refl,
          λ j. lookup-put key j done sessions ∙ elim (Bool-cases (same key j)) [
            | inl b ↦
                rw b (ap (λ rs. some (record sent { completion_queue = rs })) (sym (ap (drop 1) q)))
            | inr b ↦ rw b (lookup-put key j sent s.data_sessions ∙ rw b refl)
          ],
        ),
      )

  passed_on-passed_on :
      (session : Session D) (rule : Bytes) (rules : List Bytes)
      (response : Option (StageResponse D)) (responses : List (Option (StageResponse D)))
      → session.completion_queue ≡ response ∷ responses
      → passed_on (passed_on session (rule ∷ [])) rules ≡ passed_on session (rule ∷ rules)
  passed_on-passed_on session rule rules response responses q =
      ap
        (λ sent. record session {
          submission_queue = sent;
          completion_queue = drop (length rules) (drop 1 session.completion_queue);
        })
        (append_assoc session.submission_queue (rule ∷ []) rules)
      ∙ ap
          (λ left. record session {
            submission_queue = session.submission_queue ++ rule ∷ rules;
            completion_queue = left;
          })
          (ap (λ rs. drop (length rules) (drop 1 rs)) q ∙ sym (ap (drop (suc (length rules))) q))

  PassedOn-trans :
      (key : Bytes) (session : Session D) (rule : Bytes) (rules : List Bytes) (s t u : Local D)
      → passed_on (passed_on session (rule ∷ [])) rules ≡ passed_on session (rule ∷ rules)
      → PassedOn key session (rule ∷ []) s t
      → PassedOn key (passed_on session (rule ∷ [])) rules t u
      → PassedOn key session (rule ∷ rules) s u
  PassedOn-trans key session rule rules s t u e (o, f) (o', f') = (
    o' ∙ o,
    λ j. f' j ∙ elim (Bool-cases (same key j)) [
      | inl b ↦ rw b (ap some e)
      | inr b ↦ rw b (f j ∙ rw b refl)
    ],
  )

  -- The handler has not returned, has this status and message, and has given these rules.
  abbrev pub Served : Bytes → Session D → List Bytes → Local D → RpcStatus → ℤ → Progress D → Type 0
  Served key session rules s result message p =
      (p.0 ≡ false) × ((p.1 ≡ result) × ((p.2 ≡ message) × PassedOn key session rules s p.3))

  unchanged :
      (s : Local D) (key : Bytes) (session : Session D)
      → lookup key s.data_sessions ≡ some session
      → PassedOn key session [] s s
  unchanged s key session e = (
    refl,
    λ j. elim (Bool-cases (same key j)) [
      | inl b ↦ rw b (
          ap (λ k. lookup k s.data_sessions) (sym (same_sound key j b))
          ∙ e
          ∙ ap (λ sent. some (record session { submission_queue = sent }))
              (sym (append-nil session.submission_queue)))
      | inr b ↦ rw b refl
    ],
  )

  -- A stage whose next responses grant a rule for each channel is given the rule of each channel,
  -- in their order, the handler goes on, and no other stage is given a rule.
  pub enforce_channels-Served :
      (channels : Channels) (s : Local D) (key : Bytes) (rule_id limit : ℤ) (session : Session D)
      (responses : List (Option (StageResponse D))) (result : RpcStatus) (message : ℤ)
      → lookup key s.data_sessions ≡ some session
      → session.completion_queue ≡ responses
      → Accepts channels responses
      → Gives
          (Served key session
            (channel_rules rule_id limit channels)
            s
            (result_after channels result)
            (message_after channels message))
          (enforce_channels s key rule_id limit channels result message)
  unfolding enforce_channels
  enforce_channels-Served [] s key rule_id limit session responses result message e q h =
      (refl, (refl, (refl, unchanged s key session e)))
  enforce_channels-Served (channel ∷ channels) s key rule_id limit session [] result message e q h =
      absurd h
  enforce_channels-Served (channel ∷ channels) s key rule_id limit session (response ∷ responses)
        result message e q (g, h) =
      let rule : Bytes = channel_rule rule_id channel limit in
      let (next, passthru, moved) =
        local_passthru-PassedOn s key rule session response responses RpcStatus.ok e q g in
      let session' : Session D = passed_on session (rule ∷ []) in
      rw passthru (
        Gives-mono
          (Served key session' (channel_rules rule_id limit channels) next
            (result_after channels RpcStatus.ok) (message_after channels ack_ok))
          _ _
          (enforce_channels-Served channels next key rule_id limit session' responses RpcStatus.ok
            ack_ok (moved.1 key ∙ rw (same_refl key) refl) (ap (drop 1) q) h)
          (λ p k. (
            k.0,
            (
              k.1.0 ∙ granted_result channels,
              (
                k.1.1.0 ∙ granted_message channels,
                PassedOn-trans key session rule (channel_rules rule_id limit channels) s next p.3
                    (passed_on-passed_on session rule _ response responses q) moved k.1.1.1,
              ),
            ),
          )))
