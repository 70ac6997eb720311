-- ===== src/Paio/Calls/Delivered.antt =====
-- What a data plane stage has been sent when a call of its interface succeeds, and what the
-- acknowledgement says of the status (src/networking/paio_interface.cpp).
use cheferd.Prelude.{
  ◌≡◌, subst, false, List, [], ◌∷◌, ◌++◌, arith, inl, inr, Result-cases, ok-injective, fail-ne-ok,
  ok, fail,
}
use cheferd.Prelude.Int.{ℤ, pos, ◌==ℤ◌, ◌≤ℤ◌}
use cheferd.Text.{Bytes}
use cheferd.Rules.Raw.{EnforcementRuleRaw}
use cheferd.Paio.{parse_rule, fill_enforcement_rule}
use cheferd.Paio.Socket.{ControlOperation, Sent, operation, enforcement, Socket, logged}
use cheferd.Paio.Calls.{
  Reply, submitting, receiving, enforcement_of, create_enforcement_rule, enforcement_operation,
}
use cheferd.Status.{PStatus, is_ok, ack_ok}

-- A read that fails leaves the structure as it was.
abbrev pub FailsClean : {D S : Type 0} → Socket D S → Type 0
FailsClean {S} socket =
    (m : ℤ) (s : S) → (socket.read_ack m s).0 ≤ℤ pos 0 → (socket.read_ack m s).1 ≡ m

module _ {D S : Type 0} (socket : Socket D S) where
  receiving-is_ok :
      (message : ℤ) (s : S)
      → FailsClean socket
      → (message ==ℤ ack_ok) ≡ false
      → is_ok (receiving socket message s).0 ≡ ((receiving socket message s).1 ==ℤ ack_ok)
  unfolding is_ok
  receiving-is_ok message s c h = ground (arith, c message s)

  submitting-is_ok :
      (op : ControlOperation) (sent : Sent) (message : ℤ) (s : S)
      → FailsClean socket
      → (message ==ℤ ack_ok) ≡ false
      → is_ok (submitting socket op sent message s).0
        ≡ ((submitting socket op sent message s).1 ==ℤ ack_ok)
  unfolding is_ok
  submitting-is_ok op sent message s c h =
      ground
        (arith, receiving-is_ok message (socket.write sent (socket.write (operation op) s).1).1 c h)

  -- A submission that succeeds has written both structures whole, and was acknowledged.
  submitting-logged :
      (op : ControlOperation) (sent : Sent) (message m : ℤ) (s t : S) (log later : List Sent)
      → submitting (logged socket) op sent message (s, log) ≡ (PStatus.ok, m, (t, later))
      → (m ≡ ack_ok) × (later ≡ (log ++ operation op ∷ []) ++ sent ∷ [])
  unfolding logged
  submitting-logged op sent message m s t log later h = ground arith

  enforcement_of-is_ok :
      (tokens : List Bytes) (op : ControlOperation) (message : ℤ) (s : S) (r : Reply socket)
      → FailsClean socket
      → (message ==ℤ ack_ok) ≡ false
      → enforcement_of socket tokens op message s ≡ ok r
      → is_ok r.0 ≡ (r.1 ==ℤ ack_ok)
  unfolding is_ok
  enforcement_of-is_ok [] op message s r c h e = ground arith
  enforcement_of-is_ok (token ∷ tokens) op message s r c h e =
      elim (Result-cases (fill_enforcement_rule (token ∷ tokens))) [
        | inl (raw, f) ↦
            let submitted : ok
                  (submitting socket (enforcement_operation socket op) (enforcement raw) message s)
                ≡ ok r =
              rw f at e in
            subst (λ q. is_ok q.0 ≡ (q.1 ==ℤ ack_ok)) (ok-injective submitted)
              (submitting-is_ok (enforcement_operation socket op) (enforcement raw) message s c h)
        | inr (x, f) ↦ let failed : fail x ≡ ok r = rw f at e in cc
      ]

  -- Where a failed read leaves the acknowledgement as it is, and the acknowledgement does not say
  -- yes from the start, the status of an enforcement rule's call is OK exactly if the
  -- acknowledgement says yes at its end.
  pub create_enforcement_rule-is_ok :
      (op : ControlOperation) (rule : Bytes) (message : ℤ) (s : S) (r : Reply socket)
      → FailsClean socket
      → (message ==ℤ ack_ok) ≡ false
      → create_enforcement_rule socket op rule message s ≡ ok r
      → is_ok r.0 ≡ (r.1 ==ℤ ack_ok)
  unfolding create_enforcement_rule
  create_enforcement_rule-is_ok op rule message s r c h e =
      enforcement_of-is_ok (parse_rule rule) op message s r c h e

  enforcement_of-logged :
      (tokens : List Bytes) (op : ControlOperation) (message m : ℤ) (s t : S)
      (log later : List Sent)
      → enforcement_of (logged socket) tokens op message (s, log) ≡ ok (PStatus.ok, m, (t, later))
      → (raw : EnforcementRuleRaw) × (fill_enforcement_rule tokens ≡ ok raw)
        × (m ≡ ack_ok)
        × (later
            ≡ (log ++ operation (enforcement_operation socket op) ∷ []) ++ enforcement raw ∷ [])
  unfolding logged
  enforcement_of-logged [] op message m s t log later e = absurd (ground arith)
  enforcement_of-logged (token ∷ tokens) op message m s t log later e =
      elim (Result-cases (fill_enforcement_rule (token ∷ tokens))) [
        | inl (raw, f) ↦
            let submitted : ok (
                  submitting (logged socket) (enforcement_operation socket op) (enforcement raw)
                    message (s, log))
                ≡ ok (PStatus.ok, m, (t, later)) =
              rw f at e in
            let (acknowledged, sent) =
              submitting-logged (enforcement_operation socket op) (enforcement raw) message m s t
                log later (ok-injective submitted) in
            (raw, f, acknowledged, sent)
        | inr (x, f) ↦
            let failed : fail x ≡ ok (PStatus.ok, m, (t, later)) = rw f at e in
            absurd (fail-ne-ok failed)
      ]

  -- An enforcement rule whose call returns the status OK has been acknowledged, and what was
  -- written whole to the stage since the call began is the control operation and then the
  -- structure that the rule's tokens fill.
  pub create_enforcement_rule-logged :
      (op : ControlOperation) (rule : Bytes) (message m : ℤ) (s t : S) (log later : List Sent)
      → create_enforcement_rule (logged socket) op rule message (s, log)
        ≡ ok (PStatus.ok, m, (t, later))
      → (raw : EnforcementRuleRaw) × (fill_enforcement_rule (parse_rule rule) ≡ ok raw)
        × (m ≡ ack_ok)
        × (later
            ≡ (log ++ operation (enforcement_operation socket op) ∷ []) ++ enforcement raw ∷ [])
  unfolding create_enforcement_rule
  create_enforcement_rule-logged op rule message m s t log later e =
      enforcement_of-logged (parse_rule rule) op message m s t log later e
