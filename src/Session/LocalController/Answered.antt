-- ===== src/Session/LocalController/Answered.antt =====
-- The session of a local controller answers the rules that it supports, each once, and no other
-- (src/session/local_controller_session.cpp).
use cheferd.Prelude.{
  ◌≡◌, refl, subst, ℕ, List, [], ◌∷◌, map, inl, inr, Bool-cases, Result-cases, Result, ok, fail,
  ◌>>=◌, if◌then◌else◌,
}
use cheferd.Prelude.Int.{ℤ, pos, ◌==ℤ◌}
use cheferd.Text.{Bytes}
use cheferd.Text.Tokens.{tokens_of}
use cheferd.Text.Number.{stoi}
use cheferd.Rules.Staged.{number_at}
use cheferd.Core.State.{StageResponse, ack, stats, other}
use cheferd.Paio.Socket.{no_operation}
use cheferd.Session.DataPlane.{parsed}
use cheferd.Session.DataPlane.Answered.{listed, or_nothing}
use cheferd.Session.LocalController.{
  Handled, acked_result, send_detailed_stats, dispatch, send_rule,
}
use cheferd.Session.Queue.{Sender}
use cheferd.Wire.Rpc.{GlobalToLocal, Reply}
use cheferd.Status.{PStatus}

abbrev pub kind : StageResponse → ℕ
kind (ack k message) = k
kind (stats k objects) = k
kind other = 0

abbrev detailed_kinds : Bytes → List ℕ
detailed_kinds rule =
    or_nothing
      (do subtype ← number_at stoi (tokens_of rule b'|') 1; ok (listed subtype (5 ∷ 6 ∷ []) []))

-- The rules with the numbers 11, 0, 1 and 6 are answered, and those with the number 3 whose second
-- number is 5 or 6.
unfoldable pub expected : Bytes → List ℕ
expected rule = or_nothing (do
  op ← parsed no_operation rule
  ok (
      listed op.m_operation_type (11 ∷ 0 ∷ 1 ∷ 6 ∷ [])
        (if op.m_operation_type ==ℤ pos 3 then detailed_kinds rule else [])))

module _ {S : Type 0} (stub : GlobalToLocal S) where
  -- If the call returns, its responses are of these kinds.
  abbrev Sends : List ℕ → Result (Handled stub) → Type 0
  Sends ks (ok h) = map kind h.1 ≡ ks
  Sends ks (fail e) = Unit

  acked_result-Sends :
      (k : ℕ) (reply : Result (Reply stub)) → Sends (k ∷ []) (acked_result stub k reply)
  acked_result-Sends k (ok (result, message, s)) = refl
  acked_result-Sends k (fail x) = tt

  send_detailed_stats-Sends :
      (rule : Bytes) (s : S) → Sends (detailed_kinds rule) (send_detailed_stats stub rule s)
  unfolding send_detailed_stats
  send_detailed_stats-Sends rule s = elim (Result-cases (number_at stoi (tokens_of rule b'|') 1)) [
    | inl (subtype, f) ↦ rw f (elim (Bool-cases (subtype ==ℤ pos 5)) [
      | inl b ↦ rw b refl
      | inr b ↦
          rw b (elim (Bool-cases (subtype ==ℤ pos 6)) [ inl c ↦ rw c refl | inr c ↦ rw c refl ])
    ])
    | inr (x, f) ↦ rw f tt
  ]

  dispatch-Sends :
      (z : ℤ) (rule : Bytes) (s : S)
      → Sends
          (listed z (11 ∷ 0 ∷ 1 ∷ 6 ∷ []) (if z ==ℤ pos 3 then detailed_kinds rule else []))
          (dispatch stub z rule s)
  unfolding dispatch
  dispatch-Sends z rule s = elim (Bool-cases (z ==ℤ pos 11)) [
    | inl e ↦ rw e refl
    | inr e ↦ rw e (elim (Bool-cases (z ==ℤ pos 0)) [
      | inl e ↦ rw e refl
      | inr e ↦ rw e (elim (Bool-cases (z ==ℤ pos 1)) [
        | inl e ↦ rw e (acked_result-Sends 1 _)
        | inr e ↦ rw e (elim (Bool-cases (z ==ℤ pos 6)) [
          | inl e ↦ rw e (acked_result-Sends 6 _)
          | inr e ↦ rw e (elim (Bool-cases (z ==ℤ pos 3)) [
            | inl e ↦ rw e (send_detailed_stats-Sends rule s)
            | inr e ↦ rw e refl
          ])
        ])
      ])
    ])
  ]

  send_rule-Sends : (rule : Bytes) (s : S) → Sends (expected rule) (send_rule stub rule s)
  unfolding send_rule expected
  send_rule-Sends rule s = elim (Result-cases (parsed no_operation rule)) [
    | inl (op, e) ↦ rw e (dispatch-Sends op.m_operation_type rule s)
    | inr (x, e) ↦ rw e tt
  ]

  -- When the handling of a rule for a local controller returns, the responses that it puts in the
  -- completion queue are of the kinds that the rule's number is answered with: one response of that
  -- kind if the number is 11, 0, 1 or 6, one of the kind 5 or 6 if it is 3 with that number behind
  -- it, and none otherwise.
  pub local_send_rule-expected :
      (rule : Bytes) (s t : S) (result : PStatus) (responses : List StageResponse)
      → send_rule stub rule s ≡ ok (result, responses, t)
      → map kind responses ≡ expected rule
  local_send_rule-expected rule s t result responses e =
      subst (Sends (expected rule)) e (send_rule-Sends rule s)

  -- The session of a local controller as a sender.
  abbrev pub sender : Sender StageResponse S
  sender = record {
    send_rule = send_rule stub;
    kind = kind;
    expected = expected;
    send_rule-expected = local_send_rule-expected;
  }
