-- ===== src/Session/DataPlane/Answered.antt =====
-- The session of a data plane stage answers the rules that it supports, each once, and no other
-- (src/session/data_plane_session.cpp).
use cheferd.Prelude.{
  ◌≡◌, refl, subst, ℕ, Option, none, some, List, [], ◌∷◌, map, inl, inr, Bool-cases, Result-cases,
  Result, ok, fail, ◌>>=◌, if◌then◌else◌,
}
use cheferd.Prelude.Int.{ℤ, pos, ◌==ℤ◌}
use cheferd.Text.{Bytes}
use cheferd.Text.Tokens.{tokens_of}
use cheferd.Text.Number.{stoi}
use cheferd.Rules.Staged.{number_at}
use cheferd.Paio.Socket.{ControlOperation, no_operation, Socket}
use cheferd.Paio.Calls.{Reply}
use cheferd.Session.DataPlane.{
  StageResponse, ack, handshake, stat, Handled, parsed, send_stage_handshake, acked_result,
  measured, send_detailed_stats, dispatch, send_rule,
}
use cheferd.Session.Queue.{Sender}
use cheferd.Status.{PStatus}

abbrev pub kind : {D : Type 0} → StageResponse D → ℕ
kind (ack k message) = k
kind (handshake h) = 0
kind (stat k rate) = k

-- The kinds that a rule's number is answered with: itself, where a list has it.
abbrev pub listed : ℤ → List ℕ → List ℕ → List ℕ
listed z [] others = others
listed z (k ∷ ks) others = if z ==ℤ pos k then k ∷ [] else listed z ks others

abbrev pub or_nothing : Result (List ℕ) → List ℕ
or_nothing (ok ks) = ks
or_nothing (fail e) = []

abbrev detailed_kinds : Bytes → List ℕ
detailed_kinds rule =
    or_nothing
      (do subtype ← number_at stoi (tokens_of rule b'|') 1; ok (listed subtype (5 ∷ []) []))

abbrev other_kinds : ℤ → Bytes → List ℕ
other_kinds z rule = if z ==ℤ pos 2 then [] else if z ==ℤ pos 3 then detailed_kinds rule else []

-- The rules with the numbers 0, 1, 4, 6 and 8 are answered, and those with the number 3 whose
-- second number is 5.
unfoldable pub expected : Bytes → List ℕ
expected rule = or_nothing (do
  op ← parsed no_operation rule
  ok (listed op.m_operation_type (0 ∷ 1 ∷ 4 ∷ 6 ∷ 8 ∷ []) (other_kinds op.m_operation_type rule)))

module _ {D S : Type 0} (socket : Socket D S) (failed_rate : D) where
  -- If the call returns, its responses are of these kinds.
  abbrev Sends : List ℕ → Result (Handled socket) → Type 0
  Sends ks (ok h) = map kind h.1 ≡ ks
  Sends ks (fail e) = Unit

  acked_result-Sends :
      (k : ℕ) (reply : Result (Reply socket)) → Sends (k ∷ []) (acked_result socket k reply)
  acked_result-Sends k (ok (result, message, s)) = refl
  acked_result-Sends k (fail x) = tt

  measured-kind : (r : Option D × S) → map kind (measured socket failed_rate r).1 ≡ 5 ∷ []
  measured-kind (none, s) = refl
  measured-kind (some rate, s) = refl

  send_detailed_stats-Sends :
      (op : ControlOperation) (rule : Bytes) (s : S)
      → Sends (detailed_kinds rule) (send_detailed_stats socket failed_rate op rule s)
  unfolding send_detailed_stats
  send_detailed_stats-Sends op rule s =
      elim (Result-cases (number_at stoi (tokens_of rule b'|') 1)) [
        | inl (subtype, f) ↦ rw f (elim (Bool-cases (subtype ==ℤ pos 5)) [
          | inl b ↦ rw b (measured-kind _)
          | inr b ↦ rw b refl
        ])
        | inr (x, f) ↦ rw f tt
      ]

  dispatch-Sends :
      (op : ControlOperation) (rule : Bytes) (s : S)
      → Sends
          (listed op.m_operation_type
            (0 ∷ 1 ∷ 4 ∷ 6 ∷ 8 ∷ [])
            (other_kinds op.m_operation_type rule))
          (dispatch socket failed_rate op rule s)
  unfolding dispatch send_stage_handshake
  dispatch-Sends op rule s = elim (Bool-cases (op.m_operation_type ==ℤ pos 0)) [
    | inl e ↦ rw e refl
    | inr e ↦ rw e (elim (Bool-cases (op.m_operation_type ==ℤ pos 1)) [
      | inl e ↦ rw e refl
      | inr e ↦ rw e (elim (Bool-cases (op.m_operation_type ==ℤ pos 4)) [
        | inl e ↦ rw e (acked_result-Sends 4 _)
        | inr e ↦ rw e (elim (Bool-cases (op.m_operation_type ==ℤ pos 6)) [
          | inl e ↦ rw e (acked_result-Sends 6 _)
          | inr e ↦ rw e (elim (Bool-cases (op.m_operation_type ==ℤ pos 8)) [
            | inl e ↦ rw e refl
            | inr e ↦ rw e (elim (Bool-cases (op.m_operation_type ==ℤ pos 2)) [
              | inl e ↦ rw e refl
              | inr e ↦ rw e (elim (Bool-cases (op.m_operation_type ==ℤ pos 3)) [
                | inl e ↦ rw e (send_detailed_stats-Sends op rule s)
                | inr e ↦ rw e refl
              ])
            ])
          ])
        ])
      ])
    ])
  ]

  send_rule-Sends :
      (rule : Bytes) (s : S) → Sends (expected rule) (send_rule socket failed_rate rule s)
  unfolding send_rule expected
  send_rule-Sends rule s = elim (Result-cases (parsed no_operation rule)) [
    | inl (op, e) ↦ rw e (dispatch-Sends op rule s)
    | inr (x, e) ↦ rw e tt
  ]

  -- When the handling of a rule returns, the responses that it puts in the completion queue are of
  -- the kinds that the rule's number is answered with: one response of that kind if the number is
  -- 0, 1, 4, 6 or 8, one of the kind 5 if it is 3 with 5 behind it, and none otherwise.
  pub send_rule-expected :
      (rule : Bytes) (s t : S) (result : PStatus) (responses : List (StageResponse D))
      → send_rule socket failed_rate rule s ≡ ok (result, responses, t)
      → map kind responses ≡ expected rule
  send_rule-expected rule s t result responses e =
      subst (Sends (expected rule)) e (send_rule-Sends rule s)

  -- The session of a stage as a sender.
  abbrev pub sender : Sender (StageResponse D) S
  sender = record {
    send_rule = send_rule socket failed_rate;
    kind = kind;
    expected = expected;
    send_rule-expected = send_rule-expected;
  }
